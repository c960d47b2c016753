-- ===== src/Create/Churn/Run.antt =====
-- pkg/burner/create.go: RunCreateJobWithChurn. The errors of hooks are logged only.
use kube_burner.Prelude.{ℕ, not, [], if◌then◌else◌, str_eq}
use kube_burner.Config.Types.{before_churn, after_churn, churn_namespaces, churn_objects}
use kube_burner.Executor.{Cluster, hooks, M, pure, ◌>>=◌, ◌>>◌, get_executor, emit}
use kube_burner.Create.Churn.Namespaces.{ChurnEnd, out_of_fuel, churned, churn_namespaces_of}
use kube_burner.Create.Churn.Objects.{churn_objects_loop}

module _ (k : Cluster) where
  finish_churn : ChurnEnd → M ChurnEnd
  finish_churn out_of_fuel = pure out_of_fuel
  finish_churn (churned errs) = do emit (hooks after_churn); pure (churned [])

  pub run_create_job_with_churn : ℕ → M ChurnEnd
  run_create_job_with_churn fuel = do
    emit (hooks before_churn)
    ex ← get_executor
    if str_eq ex.job.churn_config.mode churn_namespaces
        then (if not ex.ns_required then pure (churned []) else churn_namespaces_of k fuel)
        else if str_eq ex.job.churn_config.mode churn_objects
        then (do done ← churn_objects_loop k fuel ex.job.churn_config 0; finish_churn done)
        else finish_churn (churned [])
