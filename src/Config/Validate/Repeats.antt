-- ===== src/Config/Validate/Repeats.antt =====
-- Which repeatEveryNIterations values pkg/config/config.go accepts.
use kube_burner.Prelude.{Bool, false, ◌&&◌, List, str_eq, any, All, ◌≡◌, ◌⊎◌}
use kube_burner.Prelude.Int.{ℤ, pos, ◌<ℤ◌, ltb_ℤ}
use kube_burner.Config.Types.{Object, Job, churn_objects}
use kube_burner.Config.Validate.{is_churn_enabled}

-- The values above 1 among the objects' repeatEveryNIterations are one number `v`.
abbrev RepeatsAs : ℤ → List Object → Type 0
RepeatsAs v objs =
    All
      (λ obj.
        (obj.repeat_every_n_iterations ≡ pos 1)
        ⊎ ((pos 1 <ℤ obj.repeat_every_n_iterations) × (obj.repeat_every_n_iterations ≡ v)))
      objs

abbrev repeats_and_churns : Object → Bool
repeats_and_churns obj = ltb_ℤ (pos 1) obj.repeat_every_n_iterations && obj.churn

-- What a job must satisfy: every repeatEveryNIterations is 1 or the job's one value above 1, and
-- no object with a value above 1 is churned one by one.
pub record RepeatsWell (job : Job) : Type 0 where
  pub agree : (v : ℤ) × RepeatsAs v job.objects
  pub no_object_churn :
      (any repeats_and_churns job.objects
        && is_churn_enabled job
        && str_eq job.churn_config.mode churn_objects)
      ≡ false
