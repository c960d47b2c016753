-- ===== src/Jobs/Parallel.antt =====
-- pkg/burner/utils.go: Run and runParallel. The goroutines of the handlers run one after the other,
-- when they are started; those that were started before the context ended run as well.
use kube_burner.Prelude.{String, List, [], ◌∷◌, none, some, if◌then◌else◌, range_from, str_eq}
use kube_burner.Prelude.Int.{pos_part}
use kube_burner.Config.Types.{execution_mode_parallel, execution_mode_sequential}
use kube_burner.Executor.{
  Cluster, Item, ManagedObject, M, pure, ◌>>=◌, ◌>>◌, get_executor, ask, for_each,
}
use kube_burner.Waiters.{wait_for_objects}
use kube_burner.Jobs.Sequential.{
  Flow, goes_on, leaves, get_item_list_for_object, handle_items, run_sequential,
}

module _ (k : Cluster) where
  pub launch_items : ManagedObject → List Item → M (Unit {0})
  launch_items obj items = do
    ex ← get_executor
    for_each (range_from 0 (pos_part ex.job.job_iterations)) (λ j. handle_items k obj j items)

  pub launch_objects : List ManagedObject → M Flow
  launch_objects [] = pure (goes_on [])
  launch_objects (obj ∷ objs) = do
    cancelled ← ask k.ctx_err
    elim cancelled [
      | some e ↦ pure (leaves (e ∷ []))
      | none ↦ do
        listed ← get_item_list_for_object k obj
        elim listed [
          | none ↦ launch_objects objs
          | some items ↦ launch_items obj items >> launch_objects objs
        ]
    ]

  close_parallel : Flow → M (List String)
  close_parallel (leaves errs) = pure errs
  close_parallel (goes_on errs) = wait_for_objects k "" none

  pub run_parallel : M (List String)
  run_parallel = do ex ← get_executor; flow ← launch_objects ex.objects; close_parallel flow

  -- Run of the executor.
  pub run : M (List String)
  run = do
    ex ← get_executor
    if str_eq ex.job.execution_mode execution_mode_parallel
        then run_parallel
        else if str_eq ex.job.execution_mode execution_mode_sequential
        then run_sequential k
        else pure []
