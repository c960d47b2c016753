-- ===== src/Jobs/Sequential.antt =====
-- pkg/burner/utils.go: getItemListForObject and runSequential. The goroutines of the handlers run
-- one after the other, as they are waited for before the next object.
pub mod Calls
use kube_burner.Prelude.{
  ℕ, zero, suc, String, Bool, true, false, not, List, [], ◌∷◌, ◌++◌, Option, none, some,
  if◌then◌else◌, range_from, get_elem?,
}
use kube_burner.Prelude.Int.{ℤ, pos, pos_part, ltb_ℤ}
use kube_burner.Executor.{
  Cluster, Item, ManagedObject, slept, M, pure, ◌>>=◌, ◌>>◌, get_executor, emit, ask, for_each,
}
use kube_burner.Waiters.{wait_for_object, wait_for_objects}
use kube_burner.Jobs.Handlers.{handle_item, await_deletion}

-- How a loop goes on: with the errors so far, or out of the function with errors.
pub data Flow : Type 0 where
  goes_on : List String → Flow
  leaves : List String → Flow

abbrev pub first_error : Option String → List String → List String
first_error none errs = errs
first_error (some e) [] = e ∷ []
first_error (some e) (old ∷ errs) = old ∷ errs

abbrev pub pause : ℤ → M (Unit {0})
pause d = if ltb_ℤ (pos 0) d then emit (slept d) else pure tt

module _ (k : Cluster) where
  -- The retries of a list that fails; `steps` are the calls that the backoff allows.
  pub list_items : ℕ → ManagedObject → M (Option (List Item))
  list_items zero obj = pure none
  list_items (suc steps) obj = do
    listed ← ask (λ n. k.list_objects n obj obj.label_selector)
    elim listed [ none ↦ list_items steps obj | some items ↦ pure (some items) ]

  pub get_item_list_for_object : ManagedObject → M (Option (List Item))
  get_item_list_for_object obj = do
    ex ← get_executor
    list_items (k.backoff_steps ex.job.max_wait_timeout) obj

  -- The goroutines of the handlers run in some order.
  pub handle_items : ManagedObject → ℕ → List Item → M (Unit {0})
  handle_items obj iteration items = do
    ex ← get_executor
    for_each (k.item_order iteration obj items)
        (λ item. handle_item k ex.item_handler obj item iteration)

  -- Behind the handlers: the wait, the finalizer and the delay.
  pub finish_object : ℕ → ManagedObject → List String → M Flow
  finish_object place obj errs = do
    ex ← get_executor
    waited ← (if ex.job.object_wait then wait_for_object k place obj "" else pure none)
    (if ex.has_object_finalizer then await_deletion obj else pure tt)
    pause ex.job.object_delay
    pure (goes_on (first_error waited errs))

  pub run_object : ℕ → ℕ → ManagedObject → List String → M Flow
  run_object iteration place obj errs = do
    cancelled ← ask k.ctx_err
    elim cancelled [
      | some e ↦ pure (leaves (e ∷ []))
      | none ↦ do
        listed ← get_item_list_for_object obj
        elim listed [
          | none ↦ pure (goes_on errs)
          | some items ↦ do handle_items obj iteration items; finish_object place obj errs
        ]
    ]

  -- `rest` for what a loop goes on with.
  abbrev pub flow_on : Flow → (List String → M Flow) → M Flow
  flow_on (goes_on errs) rest = rest errs
  flow_on (leaves errs) rest = pure (leaves errs)

  pub run_objects : ℕ → ℕ → List ManagedObject → List String → M Flow
  run_objects iteration place [] errs = pure (goes_on errs)
  run_objects iteration place (obj ∷ objs) errs = run_object iteration place obj errs >>= λ flow.
      flow_on flow (run_objects iteration (suc place) objs)

  pub finish_iteration : List String → M Flow
  finish_iteration errs = do
    ex ← get_executor
    more ← (if ex.job.wait_when_finished then wait_for_objects k "" none else pure [])
    pause ex.job.job_iteration_delay
    pure (goes_on (errs ++ more))

  pub run_iterations : List ℕ → List String → M Flow
  run_iterations [] errs = pure (goes_on errs)
  run_iterations (i ∷ iterations) errs = do
    ex ← get_executor
    ran ← run_objects i 0 ex.objects errs
    flow ← flow_on ran finish_iteration
    flow_on flow (run_iterations iterations)

  abbrev pub flow_errors : Flow → List String
  flow_errors (goes_on errs) = errs
  flow_errors (leaves errs) = errs

  pub run_sequential : M (List String)
  run_sequential = do
    ex ← get_executor
    flow ← run_iterations (range_from 0 (pos_part ex.job.job_iterations)) []
    pure (flow_errors flow)
