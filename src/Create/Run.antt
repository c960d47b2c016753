-- ===== src/Create/Run.antt =====
-- pkg/burner/create.go: RunCreateJob.
use kube_burner.Prelude.{ℕ, String, List, if◌then◌else◌}
use kube_burner.Config.Validate.{is_grouped_enabled}
use kube_burner.Executor.{Cluster, M, ◌>>=◌, get_executor}
use kube_burner.Create.Default.{run_create_job_default}
use kube_burner.Create.Grouped.{run_create_job_grouped}

-- RunCreateJob over the iterations from `start` to below `end`.
pub run_create_job : Cluster → ℕ → ℕ → M (List String)
run_create_job k start end = do
  ex ← get_executor
  if is_grouped_enabled ex.job
      then run_create_job_grouped k start end
      else run_create_job_default k start end
