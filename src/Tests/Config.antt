-- ===== src/Tests/Config.antt =====
-- Tests of pkg/config/config.go.
use kube_burner.Prelude.{none, ◌≡◌, ◌↔◌, All}
use kube_burner.Config.Validate.{job_is_duped, hook_before_workload, valid_when, global_valid_when}
use kube_burner.Config.Validate.Names.{DistinctNames, job_is_duped_iff}
use kube_burner.Config.Validate.Hooks.{HookRuns, hook_before_workload_iff}
use kube_burner.Tests.Fixtures.{two_jobs}

job_is_duped_iff_example : (job_is_duped two_jobs ≡ none) ↔ DistinctNames two_jobs.jobs
job_is_duped_iff_example = job_is_duped_iff two_jobs

hook_before_workload_iff_example : (hook_before_workload two_jobs ≡ none) ↔ (
    All (λ job. All (HookRuns valid_when) job.hooks) two_jobs.jobs
    × All (HookRuns global_valid_when) two_jobs.global_config.hooks)
hook_before_workload_iff_example = hook_before_workload_iff two_jobs
