-- ===== src/Jobs/Sequential/Calls.antt =====
-- The calls of a job that deletes or reads.
use mathlib.Core.List.{Perm}
use kube_burner.Prelude.{◌+◌}
use kube_burner.Prelude.{
  ℕ, zero, suc, refl, String, false, List, [], ◌∷◌, ◌++◌, Option, none, some, if◌then◌else◌, ◌≡◌,
  sym, subst, ◌⊎◌, inl, inr, append_assoc, append-nil, range_from,
}
use kube_burner.Prelude.Int.{ℤ, pos, pos_part, ltb_ℤ}
use kube_burner.Executor.{
  Cluster, JobExecutor, Item, ManagedObject, ItemHandler, no_handler, delete_handler, patch_handler,
  read_handler, Event, object_deleted, object_read, deletion_awaited, slept, M, pure, ◌>>=◌, ◌>>◌,
  get_executor, emit, ask, for_each,
}
use kube_burner.Waiters.{wait_for_object, wait_for_objects}
use kube_burner.Jobs.Handlers.{call_namespace, handle_item, delete_one, read_one, await_deletion}
use kube_burner.Jobs.Sequential.{
  Flow, goes_on, leaves, first_error, pause, list_items, get_item_list_for_object, handle_items,
  finish_object, run_object, flow_on, run_objects, finish_iteration, run_iterations, run_sequential,
  flow_errors,
}
use kube_burner.Jobs.Orders.{events_of-Perm}
use kube_burner.Jobs.Does.{
  Does, events_of, Does-pure, Does-get_executor, Does-emit, Does-ask, Does-bind, Does-then,
  Does-with, Does-eq, Does-if, Does-else, Does-for_each,
}

-- The call of a handler that deletes or reads.
abbrev pub call_of : ItemHandler → ManagedObject → Item → List Event
call_of delete_handler obj item =
    object_deleted obj.gvr (call_namespace obj item) item.body.name ∷ []
call_of read_handler obj item = object_read obj.gvr (call_namespace obj item) item.body.name ∷ []
call_of no_handler obj item = []
call_of patch_handler obj item = []

abbrev pub pause_events : ℤ → List Event
pause_events d = if ltb_ℤ (pos 0) d then slept d ∷ [] else []

-- What comes behind the calls for an object: the finalizer and the delay.
abbrev pub closing : JobExecutor → ManagedObject → List Event
closing ex obj =
    (if ex.has_object_finalizer then deletion_awaited obj.gvr obj.label_selector ∷ [] else [])
    ++ pause_events ex.job.object_delay

-- A call for each item in its order, and the closing of the object.
abbrev object_plan : JobExecutor → (ManagedObject → List Item) → ManagedObject → List Event
object_plan ex items obj = events_of (call_of ex.item_handler obj) (items obj) ++ closing ex obj

abbrev iteration_plan : JobExecutor → (ℕ → ManagedObject → List Item) → ℕ → List Event
iteration_plan ex items i =
    events_of (object_plan ex (items i)) ex.objects ++ pause_events ex.job.job_iteration_delay

-- For each object in turn, the calls for its items in any order, and its closing.
abbrev pub AreCalls :
    JobExecutor → (ManagedObject → List Item) → List ManagedObject → List Event → Type 0
AreCalls ex items [] events = (events ≡ [])
AreCalls ex items (obj ∷ objs) events =
    (calls rest : List Event) × (events ≡ (calls ++ closing ex obj) ++ rest)
    × Perm calls (events_of (call_of ex.item_handler obj) (items obj))
    × AreCalls ex items objs rest

-- The same for each of a number of iterations, with the delay behind it.
abbrev pub AreIterations : JobExecutor → (ManagedObject → List Item) → ℕ → List Event → Type 0
AreIterations ex items zero events = (events ≡ [])
AreIterations ex items (suc n) events =
    (calls rest : List Event) × (events
      ≡ (calls ++ pause_events ex.job.job_iteration_delay) ++ rest)
    × AreCalls ex items ex.objects calls
    × AreIterations ex items n rest

-- A cluster that is not done and whose lists succeed, with `items obj` for an object.
pub record IsListing (k : Cluster) (ex : JobExecutor) (items : ManagedObject → List Item)
    : Type 0 where
  pub running : (n : ℕ) → k.ctx_err n ≡ none
  -- every item's goroutine runs, in some order
  pub orders : (i : ℕ) (obj : ManagedObject) → Perm (k.item_order i obj (items obj)) (items obj)
  pub lists :
      (n : ℕ) (obj : ManagedObject) → k.list_objects n obj obj.label_selector ≡ some (items obj)
  pub tries : (steps : ℕ) × (k.backoff_steps ex.job.max_wait_timeout ≡ suc steps)
  pub calls : (ex.item_handler ≡ delete_handler) ⊎ (ex.item_handler ≡ read_handler)
  pub no_object_wait : ex.job.object_wait ≡ false
  pub no_final_wait : ex.job.wait_when_finished ≡ false

module _ (k : Cluster) (ex : JobExecutor) (items : ManagedObject → List Item)
    (l : IsListing k ex items) where
  pause-Does : (d : ℤ) → Does ex (pause d) tt (pause_events d)
  pause-Does d =
      Does-if ex (ltb_ℤ (pos 0) d) (emit (slept d)) (pure tt) tt (slept d ∷ []) []
        (Does-emit ex (slept d)) (Does-pure ex tt)

  list_items-Does :
      (steps : ℕ) (obj : ManagedObject)
      → Does ex (list_items k (suc steps) obj) (some (items obj)) []
  unfolding list_items
  list_items-Does steps obj =
      Does-bind ex (ask (λ n. k.list_objects n obj obj.label_selector))
        (λ listed. elim listed [ none ↦ list_items k steps obj | some found ↦ pure (some found) ])
        (some (items obj)) (some (items obj)) [] []
        (Does-ask ex _ (some (items obj)) (λ n. l.lists n obj)) (Does-pure ex (some (items obj)))

  get_item_list-Does :
      (obj : ManagedObject) → Does ex (get_item_list_for_object k obj) (some (items obj)) []
  unfolding get_item_list_for_object
  get_item_list-Does obj =
      Does-bind ex get_executor (λ x. list_items k (k.backoff_steps x.job.max_wait_timeout) obj) ex
        (some (items obj)) [] [] (Does-get_executor ex)
        (subst (λ steps. Does ex (list_items k steps obj) (some (items obj)) []) (sym (l.tries.1))
          (list_items-Does l.tries.0 obj))

  handle_item-Does :
      (i : ℕ) (obj : ManagedObject) (item : Item)
      → Does ex (handle_item k ex.item_handler obj item i) tt (call_of ex.item_handler obj item)
  unfolding handle_item delete_one read_one
  handle_item-Does i obj item = elim (l.calls) [
    | inl e ↦
        subst (λ h. Does ex (handle_item k h obj item i) tt (call_of h obj item)) (sym e)
          (Does-emit ex (object_deleted obj.gvr (call_namespace obj item) item.body.name))
    | inr e ↦
        subst (λ h. Does ex (handle_item k h obj item i) tt (call_of h obj item)) (sym e)
          (Does-emit ex (object_read obj.gvr (call_namespace obj item) item.body.name))
  ]

  abbrev ordered : ℕ → ManagedObject → List Item
  ordered i obj = k.item_order i obj (items obj)

  handle_items-Does :
      (i : ℕ) (obj : ManagedObject)
      → Does ex
          (handle_items k obj i (items obj))
          tt
          (events_of (call_of ex.item_handler obj) (ordered i obj))
  unfolding handle_items
  handle_items-Does i obj =
      Does-bind ex get_executor
        (λ x. for_each (ordered i obj) (λ item. handle_item k x.item_handler obj item i)) ex tt [] _
        (Does-get_executor ex)
        (Does-for_each ex (λ item. handle_item k ex.item_handler obj item i)
          (call_of ex.item_handler obj) (handle_item-Does i obj) (ordered i obj))

  finish_object-Does :
      (place : ℕ) (obj : ManagedObject) (errs : List String)
      → Does ex (finish_object k place obj errs) (goes_on errs) (
          (if ex.has_object_finalizer then deletion_awaited obj.gvr obj.label_selector ∷ [] else [])
          ++ pause_events ex.job.object_delay)
  unfolding finish_object await_deletion
  finish_object-Does place obj errs =
      Does-with ex
        (λ x.
          (if x.job.object_wait then wait_for_object k place obj "" else pure none) >>= λ waited.
          (if x.has_object_finalizer then await_deletion obj else pure tt)
          >> (pause x.job.object_delay >> pure (goes_on (first_error waited errs))))
        (goes_on errs) plan
        (Does-bind ex (if ex.job.object_wait then wait_for_object k place obj "" else pure none)
          (λ waited.
            (if ex.has_object_finalizer then await_deletion obj else pure tt)
            >> (pause ex.job.object_delay >> pure (goes_on (first_error waited errs))))
          none (goes_on errs) [] plan
          (Does-else ex ex.job.object_wait (wait_for_object k place obj "") (pure none) none []
            (l.no_object_wait) (Does-pure ex none))
          (Does-then ex (if ex.has_object_finalizer then await_deletion obj else pure tt)
            (pause ex.job.object_delay >> pure (goes_on errs)) (goes_on errs) _
            (pause_events ex.job.object_delay)
            (Does-if ex ex.has_object_finalizer (await_deletion obj) (pure tt) tt _ []
              (Does-emit ex (deletion_awaited obj.gvr obj.label_selector)) (Does-pure ex tt))
            (Does-eq ex _ _ _ _ (append-nil (pause_events ex.job.object_delay)) (
              Does-then ex (pause ex.job.object_delay) (pure (goes_on errs)) (goes_on errs) _ []
                (pause-Does ex.job.object_delay) (Does-pure ex (goes_on errs))))))
    where
      plan : List Event
      plan =
          (if ex.has_object_finalizer then deletion_awaited obj.gvr obj.label_selector ∷ [] else [])
          ++ pause_events ex.job.object_delay

  run_object-Does :
      (i place : ℕ) (obj : ManagedObject) (errs : List String)
      → Does ex (run_object k i place obj errs) (goes_on errs) (object_plan ex (ordered i) obj)
  unfolding run_object
  run_object-Does i place obj errs =
      Does-bind ex (ask k.ctx_err)
        (λ cancelled. elim cancelled [
          | some e ↦ pure (leaves (e ∷ []))
          | none ↦ get_item_list_for_object k obj >>= listing
        ])
        none (goes_on errs) [] (object_plan ex (ordered i) obj)
        (Does-ask ex k.ctx_err none l.running)
        (Does-bind ex (get_item_list_for_object k obj) listing (some (items obj)) (goes_on errs) []
          (object_plan ex (ordered i) obj) (get_item_list-Does obj)
          (Does-then ex (handle_items k obj i (items obj)) (finish_object k place obj errs)
            (goes_on errs) _ _ (handle_items-Does i obj) (finish_object-Does place obj errs)))
    where
      listing : Option (List Item) → M Flow
      listing listed = elim listed [
        | none ↦ pure (goes_on errs)
        | some found ↦ handle_items k obj i found >> finish_object k place obj errs
      ]

  run_objects-Does :
      (i place : ℕ) (objs : List ManagedObject) (errs : List String)
      → Does ex
          (run_objects k i place objs errs)
          (goes_on errs)
          (events_of (object_plan ex (ordered i)) objs)
  unfolding run_objects
  run_objects-Does i place [] errs = Does-pure ex (goes_on errs)
  run_objects-Does i place (obj ∷ objs) errs =
      Does-bind ex (run_object k i place obj errs)
        (λ flow. flow_on k flow (run_objects k i (suc place) objs)) (goes_on errs) (goes_on errs) _
        _ (run_object-Does i place obj errs) (run_objects-Does i (suc place) objs errs)

  finish_iteration-Does :
      (errs : List String)
      → Does ex (finish_iteration k errs) (goes_on errs) (pause_events ex.job.job_iteration_delay)
  unfolding finish_iteration
  finish_iteration-Does errs =
      Does-with ex
        (λ x. (if x.job.wait_when_finished then wait_for_objects k "" none else pure []) >>= λ more.
          pause x.job.job_iteration_delay >> pure (goes_on (errs ++ more)))
        (goes_on errs) (pause_events ex.job.job_iteration_delay)
        (Does-bind ex (if ex.job.wait_when_finished then wait_for_objects k "" none else pure [])
          (λ more. pause ex.job.job_iteration_delay >> pure (goes_on (errs ++ more))) []
          (goes_on errs) [] (pause_events ex.job.job_iteration_delay)
          (Does-else ex ex.job.wait_when_finished (wait_for_objects k "" none) (pure []) [] []
            (l.no_final_wait) (Does-pure ex []))
          (Does-eq ex _ _ _ _ (append-nil (pause_events ex.job.job_iteration_delay)) (
            Does-then ex (pause ex.job.job_iteration_delay) (pure (goes_on (errs ++ [])))
              (goes_on errs) _ [] (pause-Does ex.job.job_iteration_delay)
              (subst (λ es. Does ex (pure (goes_on (errs ++ []))) (goes_on es) []) (append-nil errs)
                (Does-pure ex (goes_on (errs ++ [])))))))

  run_iterations-Does :
      (iterations : List ℕ) (errs : List String)
      → Does ex
          (run_iterations k iterations errs)
          (goes_on errs)
          (events_of (iteration_plan ex ordered) iterations)
  unfolding run_iterations
  run_iterations-Does [] errs = Does-pure ex (goes_on errs)
  run_iterations-Does (i ∷ iterations) errs =
      Does-with ex
        (λ x. run_objects k i 0 x.objects errs >>= λ ran.
          flow_on k ran (finish_iteration k) >>= λ flow.
          flow_on k flow (run_iterations k iterations))
        (goes_on errs) (events_of (iteration_plan ex ordered) (i ∷ iterations))
        (Does-eq ex _ _ _ _
          (sym (
            append_assoc (events_of (object_plan ex (ordered i)) ex.objects)
              (pause_events ex.job.job_iteration_delay)
              (events_of (iteration_plan ex ordered) iterations)))
          (Does-bind ex (run_objects k i 0 ex.objects errs)
            (λ ran. flow_on k ran (finish_iteration k) >>= λ flow.
              flow_on k flow (run_iterations k iterations))
            (goes_on errs) (goes_on errs) _ _ (run_objects-Does i 0 ex.objects errs)
            (Does-bind ex (finish_iteration k errs)
              (λ flow. flow_on k flow (run_iterations k iterations)) (goes_on errs) (goes_on errs) _
              _ (finish_iteration-Does errs) (run_iterations-Does iterations errs))))

  run_sequential_planned :
      Does ex
        (run_sequential k)
        []
        (events_of (iteration_plan ex ordered) (range_from 0 (pos_part ex.job.job_iterations)))
  unfolding run_sequential
  run_sequential_planned =
      Does-with ex
        (λ x. run_iterations k (range_from 0 (pos_part x.job.job_iterations)) [] >>= λ flow.
          pure (flow_errors k flow))
        [] _
        (Does-eq ex _ _ _ _
          (append-nil
            (events_of (iteration_plan ex ordered) (range_from 0 (pos_part ex.job.job_iterations))))
          (Does-bind ex (run_iterations k (range_from 0 (pos_part ex.job.job_iterations)) [])
            (λ flow. pure (flow_errors k flow)) (goes_on []) [] _ []
            (run_iterations-Does (range_from 0 (pos_part ex.job.job_iterations)) [])
            (Does-pure ex [])))

  planned-AreCalls :
      (i : ℕ) (objs : List ManagedObject)
      → AreCalls ex items objs (events_of (object_plan ex (ordered i)) objs)
  planned-AreCalls i [] = refl
  planned-AreCalls i (obj ∷ objs) = (
    events_of (call_of ex.item_handler obj) (ordered i obj),
    events_of (object_plan ex (ordered i)) objs,
    refl,
    events_of-Perm (call_of ex.item_handler obj) (l.orders i obj),
    planned-AreCalls i objs,
  )

  planned-AreIterations :
      (start n : ℕ)
      → AreIterations ex items n (events_of (iteration_plan ex ordered) (range_from start n))
  planned-AreIterations start zero = refl
  planned-AreIterations start (suc n) = (
    events_of (object_plan ex (ordered start)) ex.objects,
    events_of (iteration_plan ex ordered) (range_from (start + 1) n),
    refl,
    planned-AreCalls start ex.objects,
    planned-AreIterations (start + 1) n,
  )

  abbrev planned : List Event
  planned = events_of (iteration_plan ex ordered) (range_from 0 (pos_part ex.job.job_iterations))

  -- runSequential of a job that deletes or reads returns without an error, and has made for each
  -- iteration, object by object, one call for each item that is listed, in some order, and behind an
  -- object's calls it has waited for the deletion where that is asked for, and paused; behind an
  -- iteration it has paused, and the executor is unchanged. The cluster is not done and its lists
  -- succeed, the goroutines of the items run in some order, the backoff allows a call, and no waiting
  -- for objects is configured.
  pub run_sequential-Does :
      (events : List Event) × Does ex (run_sequential k) [] events
      × AreIterations ex items (pos_part ex.job.job_iterations) events
  run_sequential-Does =
      (planned, run_sequential_planned, planned-AreIterations 0 (pos_part ex.job.job_iterations))
