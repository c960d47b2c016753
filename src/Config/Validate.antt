-- ===== src/Config/Validate.antt =====
-- pkg/config/config.go: the validators that ParseWithUserdata runs on the decoded configuration,
-- in the order of the source, and the predicates IsChurnEnabled and IsGroupedEnabled.
-- A validator returns the error of its first failing test; the message is left out.
pub mod Names
pub mod Repeats
pub mod Hooks
use kube_burner.Prelude.{
  ℕ, suc, String, Bool, true, false, not, ◌&&◌, ◌||◌, List, [], ◌∷◌, Option, none, some, ltb, leb,
  if◌then◌else◌, str_eq, any, ◌≡◌, ◌↔◌, refl,
}
use kube_burner.Prelude.Int.{ℤ, pos, ltb_ℤ, eqb_ℤ}
use kube_burner.Prelude.Maps.{lookup, insert}
use kube_burner.Config.Types.{
  JobStage, Hook, Object, Job, Spec, before_job_execution, after_job_execution, before_churn,
  after_churn, before_cleanup, after_cleanup, before_gc, after_gc, on_each_iteration,
  before_all_jobs, after_all_jobs, creation_job, churn_objects,
}

pub data Error : Type 0 where
  job_names_not_unique : Error
  invalid_job_name : String → Error
  invalid_namespace : String → Error
  gc_and_wait_when_finished : Error
  repeat_below_one : String → ℤ → Error
  repeat_inconsistent : String → ℤ → ℤ → Error
  repeat_with_object_churn : String → Error
  unsupported_when : String → ℕ → JobStage → Error
  empty_command : ℕ → String → Error
  unsupported_global_when : JobStage → Error
  empty_global_command : JobStage → Error

-- Runs a second check if the first passed.
infixl 5 ◌and_then◌
abbrev pub ◌and_then◌ : Option Error → Option Error → Option Error
none and_then k = k
some e and_then k = some e

-- The first of two checks that fails is the error of both.
and_then_none : (a b : Option Error) → ((a and_then b) ≡ none) ↔ ((a ≡ none) × (b ≡ none))
and_then_none none b = ((λ h. (refl, h)), (λ h. h.1))
and_then_none (some e) b = ((λ h. cc), (λ h. h.0))

-- Whether churn is enabled.
pub is_churn_enabled : Job → Bool
is_churn_enabled job =
    ltb_ℤ (pos 0) job.churn_config.duration || ltb_ℤ (pos 0) job.churn_config.cycles

is_grouped_from : List Object → Bool
is_grouped_from [] = false
is_grouped_from (obj ∷ objs) = if ltb_ℤ (pos 0) obj.group.id then true else is_grouped_from objs

pub is_grouped_enabled : Job → Bool
is_grouped_enabled job = is_grouped_from job.objects

-- jobCount[job.Name]++ and the test on the count.
count_of : String → List (String × ℕ) → ℕ
count_of k m = elim (lookup k m) [ none ↦ 0 | some n ↦ n ]

job_is_duped_from : List (String × ℕ) → List Job → Option Error
job_is_duped_from job_count [] = none
job_is_duped_from job_count (job ∷ jobs) =
    let n = suc (count_of job.name job_count) in
    let rest = job_is_duped_from (insert job.name n job_count) jobs in
    if ltb 1 n then some job_names_not_unique else rest

pub job_is_duped : Spec → Option Error
job_is_duped spec = job_is_duped_from [] spec.jobs

validate_gc_from : List Job → Option Error
validate_gc_from [] = none
validate_gc_from (job ∷ jobs) =
    if job.gc then some gc_and_wait_when_finished else validate_gc_from jobs

pub validate_gc : Spec → Option Error
validate_gc spec =
    if not spec.global_config.wait_when_finished then none else validate_gc_from spec.jobs

-- The two variables of the loop over the objects of a job: nonDefaultValue and hasChurnableRepeat.
check_repeats : String → ℤ → Bool → List Object → (Option Error) × Bool
check_repeats job non_default has_churnable [] = (none, has_churnable)
check_repeats job non_default has_churnable (obj ∷ objs) =
    let r = obj.repeat_every_n_iterations in
    let first = check_repeats job r (obj.churn || has_churnable) objs in
    let same = check_repeats job non_default (obj.churn || has_churnable) objs in
    let skip = check_repeats job non_default has_churnable objs in
    if ltb_ℤ r (pos 1)
    then (some (repeat_below_one job r), has_churnable)
    else if ltb_ℤ (pos 1) r
    then (if eqb_ℤ non_default (pos 0)
        then first
        else if not (eqb_ℤ r non_default)
        then (some (repeat_inconsistent job non_default r), has_churnable)
        else same)
    else skip

validate_repeat_job : Job → Option Error
validate_repeat_job job =
    let (err, has_churnable) = check_repeats job.name (pos 0) false job.objects in
    err
    and_then (if has_churnable && is_churn_enabled job && str_eq job.churn_config.mode churn_objects
        then some (repeat_with_object_churn job.name)
        else none)

validate_repeats : List Job → Option Error
validate_repeats [] = none
validate_repeats (job ∷ jobs) = validate_repeat_job job and_then validate_repeats jobs

pub validate_repeat_every_n_iterations : Spec → Option Error
validate_repeat_every_n_iterations spec = validate_repeats spec.jobs

abbrev pub valid_when : List JobStage
valid_when =
    before_job_execution ∷ after_job_execution ∷ before_churn ∷ after_churn ∷ before_cleanup
    ∷ after_cleanup ∷ before_gc ∷ after_gc ∷ on_each_iteration ∷ []

abbrev pub global_valid_when : List JobStage
global_valid_when = before_all_jobs ∷ after_all_jobs ∷ []

abbrev pub is_empty {ℓ} : {A : Type ℓ} → List A → Bool
is_empty [] = true
is_empty (x ∷ xs) = false

job_hooks : String → ℕ → List Hook → Option Error
job_hooks job i [] = none
job_hooks job i (hook ∷ hooks) =
    let rest = job_hooks job (suc i) hooks in
    if not (any (str_eq hook.when) valid_when)
    then some (unsupported_when job i hook.when)
    else if is_empty hook.cmd
    then some (empty_command i job)
    else rest

all_job_hooks : List Job → Option Error
all_job_hooks [] = none
all_job_hooks (job ∷ jobs) = job_hooks job.name 0 job.hooks and_then all_job_hooks jobs

global_hooks : List Hook → Option Error
global_hooks [] = none
global_hooks (hook ∷ hooks) =
    let rest = global_hooks hooks in
    if not (any (str_eq hook.when) global_valid_when)
    then some (unsupported_global_when hook.when)
    else if is_empty hook.cmd
    then some (empty_global_command hook.when)
    else rest

pub hook_before_workload : Spec → Option Error
hook_before_workload spec = all_job_hooks spec.jobs and_then global_hooks spec.global_config.hooks

-- `dns_errors` is k8s.io/apimachinery's validation.IsDNS1123Subdomain.
module _ (dns_errors : String → List String) where
  validate_names : List Job → Option Error
  validate_names [] = none
  validate_names (job ∷ jobs) =
      let rest = validate_names jobs in
      if not (is_empty (dns_errors job.name))
      then some (invalid_job_name job.name)
      else if str_eq job.job_type creation_job
          && not (str_eq job.namespace "")
          && not (is_empty (dns_errors job.namespace))
      then some (invalid_namespace job.namespace)
      else rest

  pub validate_dns1123 : Spec → Option Error
  validate_dns1123 spec = validate_names spec.jobs

  -- The validators in the order of ParseWithUserdata.
  pub validate : Spec → Option Error
  validate spec =
      job_is_duped spec
      and_then validate_dns1123 spec
      and_then validate_gc spec
      and_then validate_repeat_every_n_iterations spec
      and_then hook_before_workload spec
