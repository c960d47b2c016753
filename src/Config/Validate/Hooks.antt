-- ===== src/Config/Validate/Hooks.antt =====
-- Which hooks HookBeforeWorkload of pkg/config/config.go accepts.
use kube_burner.Prelude.{
  ℕ, suc, String, Bool, true, false, not, List, [], ◌∷◌, Option, none, some, if◌then◌else◌, str_eq,
  any, All, ◌≡◌, ◌≢◌, ◌↔◌, refl,
}
use kube_burner.Config.Types.{JobStage, Hook, Job, Spec}
use kube_burner.Config.Validate.{
  Error, and_then_none, valid_when, global_valid_when, is_empty, job_hooks, all_job_hooks,
  global_hooks, hook_before_workload, unsupported_when, empty_command, unsupported_global_when,
  empty_global_command,
}

-- A hook with one of the stages `stages` and a command.
abbrev pub HookRuns : List JobStage → Hook → Type 0
HookRuns stages hook = (any (str_eq hook.when) stages ≡ true) × (hook.cmd ≢ [])

ne-nil_iff {ℓ} : {A : Type ℓ} (xs : List A) → (is_empty xs ≡ false) ↔ (xs ≢ [])
ne-nil_iff [] = ((λ h. cc), (λ h. absurd (h refl)))
ne-nil_iff (x ∷ xs) = ((λ h e. cc), (λ h. refl))

-- Two guards before the rest of a loop.
two_guards_iff :
    (a c : Bool) (e f : Error) (rest : Option Error)
    → ((if not a then some e else if c then some f else rest) ≡ none)
      ↔ ((a ≡ true) × (c ≡ false) × (rest ≡ none))
two_guards_iff false c e f rest = ((λ h. cc), (λ h. cc (h.0)))
two_guards_iff true true e f rest = ((λ h. cc), (λ h. cc (h.1)))
two_guards_iff true false e f rest = ((λ h. (refl, refl, h)), (λ h. h.2))

job_hooks_iff :
    (job : String) (i : ℕ) (hooks : List Hook)
    → (job_hooks job i hooks ≡ none) ↔ All (HookRuns valid_when) hooks
unfolding job_hooks
job_hooks_iff job i [] = ((λ h. tt), (λ h. refl))
job_hooks_iff job i (hook ∷ hooks) =
    let rest = job_hooks_iff job (suc i) hooks in
    let cmd = ne-nil_iff hook.cmd in
    let guards =
      two_guards_iff (any (str_eq hook.when) valid_when) (is_empty hook.cmd)
        (unsupported_when job i hook.when) (empty_command i job) (job_hooks job (suc i) hooks) in
    (
      (λ h. let (stage, run, more) = guards.0 h in ((stage, cmd.0 run), rest.0 more)),
      (λ h. guards.1 (h.0.0, cmd.1 h.0.1, rest.1 h.1)),
    )

global_hooks_iff :
    (hooks : List Hook) → (global_hooks hooks ≡ none) ↔ All (HookRuns global_valid_when) hooks
unfolding global_hooks
global_hooks_iff [] = ((λ h. tt), (λ h. refl))
global_hooks_iff (hook ∷ hooks) =
    let rest = global_hooks_iff hooks in
    let cmd = ne-nil_iff hook.cmd in
    let guards =
      two_guards_iff (any (str_eq hook.when) global_valid_when) (is_empty hook.cmd)
        (unsupported_global_when hook.when) (empty_global_command hook.when) (global_hooks hooks) in
    (
      (λ h. let (stage, run, more) = guards.0 h in ((stage, cmd.0 run), rest.0 more)),
      (λ h. guards.1 (h.0.0, cmd.1 h.0.1, rest.1 h.1)),
    )

all_job_hooks_iff :
    (jobs : List Job)
    → (all_job_hooks jobs ≡ none) ↔ All (λ job. All (HookRuns valid_when) job.hooks) jobs
unfolding all_job_hooks
all_job_hooks_iff [] = ((λ h. tt), (λ h. refl))
all_job_hooks_iff (job ∷ jobs) =
    let both = and_then_none (job_hooks job.name 0 job.hooks) (all_job_hooks jobs) in
    let here = job_hooks_iff job.name 0 job.hooks in
    let rest = all_job_hooks_iff jobs in
    ((λ h. (here.0 (both.0 h).0, rest.0 (both.0 h).1)), (λ h. both.1 (here.1 h.0, rest.1 h.1)))

-- HookBeforeWorkload accepts a configuration exactly when every hook of a job has a command and a
-- stage of jobs, and every global hook a command and a global stage.
pub hook_before_workload_iff :
    (spec : Spec)
    → (hook_before_workload spec ≡ none) ↔ (
        All (λ job. All (HookRuns valid_when) job.hooks) spec.jobs
        × All (HookRuns global_valid_when) spec.global_config.hooks)
unfolding hook_before_workload
hook_before_workload_iff spec =
    let both = and_then_none (all_job_hooks spec.jobs) (global_hooks spec.global_config.hooks) in
    let jobs = all_job_hooks_iff spec.jobs in
    let globals = global_hooks_iff spec.global_config.hooks in
    (
      (λ h. (jobs.0 (both.0 h).0, globals.0 (both.0 h).1)),
      (λ h. both.1 (jobs.1 h.0, globals.1 h.1)),
    )
