-- ===== src/Create/Grouped.antt =====
-- pkg/burner/create.go: runCreateJobGrouped and gcGroupObjects. Maps are read in the order in which
-- their keys were first set. Messages of the log, and the errors that are only logged, are left out.
use kube_burner.Prelude.{
  ℕ, suc, ◌-◌, String, Bool, true, false, not, ◌&&◌, ◌||◌, List, [], ◌∷◌, ◌++◌, none, some,
  if◌then◌else◌, str_eq, range_from, ◌==◌,
}
use kube_burner.Prelude.Int.{ℤ}
use kube_burner.Prelude.Maps.{insert}
use kube_burner.Prelude.Text.{itoa}
use kube_burner.Config.Types.{Labels, on_each_iteration}
use kube_burner.Executor.{
  JobExecutor, Cluster, ManagedObject, hooks, set_executor, deleted_collection, waited_for_deletion,
  is_no_gvr, M, pure, ◌>>=◌, ◌>>◌, get_executor, emit, ask, for_each,
}
use kube_burner.Waiters.{wait_for_objects}
use kube_burner.Create.Namespaces.{
  create_namespace, iteration_namespace, pre_create_namespaces, resolve_group_iteration_namespace,
}
use kube_burner.Create.Objects.{
  GroupEntry, group_objects_by_number, get_group_lifecycle_pauses, resolve_object_mapping,
  resolve_dynamic_objects,
}
use kube_burner.Create.Requests.{wait_group}
use kube_burner.Create.Default.{
  namespace_labels, namespace_annotations, read_object, label_and_create, sleep,
}

-- ex.objects[idx] == obj, the first such idx from `idx` on; pointers are places.
index_from : ℕ → List ManagedObject → ℕ → ℕ → ℕ
index_from idx [] place local = local
index_from idx (o ∷ os) place local =
    if idx == place then idx else index_from (suc idx) os place local

pub find_global_object_index : JobExecutor → ℕ → ℕ → ℕ
find_global_object_index ex place local = index_from 0 ex.objects place local

-- The selector of gcGroupObjects.
pub group_selector : JobExecutor → ℤ → Labels
group_selector ex number =
    let base =
      ("kube-burner.io/job", ex.job.name)
      ∷ ("kube-burner.io/group", itoa number)
      ∷ ("kube-burner.io/uuid", ex.uuid)
      ∷ [] in
    if str_eq ex.runid "" then base else base ++ (("kube-burner.io/runid", ex.runid) ∷ [])

-- The namespaces that are marked as created.
created_of : List (String × Bool) → List String
created_of [] = []
created_of ((ns, true) ∷ m) = ns ∷ created_of m
created_of ((ns, false) ∷ m) = created_of m

delete_object : Labels → List String → ManagedObject → M (Unit {0})
delete_object selector namespaces obj =
    if not obj.group.gc
    then pure tt
    else if obj.namespaced
    then (for_each namespaces (λ ns. emit (deleted_collection obj ns selector))
        >> (if str_eq obj.namespace ""
            then pure tt
            else emit (deleted_collection obj obj.namespace selector)))
    else emit (deleted_collection obj "" selector)

wait_deletion : Labels → List String → ManagedObject → M (Unit {0})
wait_deletion selector namespaces obj =
    if not obj.group.gc || not obj.namespaced
    then pure tt
    else for_each namespaces (λ ns. emit (waited_for_deletion obj ns selector))

pub gc_group_objects : ℤ → List ManagedObject → M (Unit {0})
gc_group_objects number objs = do
  ex ← get_executor
  for_each objs (delete_object (group_selector ex number) (created_of ex.created_namespaces))
  if ex.job.wait_for_deletion
      then for_each objs
          (wait_deletion (group_selector ex number) (created_of ex.created_namespaces))
      else pure tt

keys : List (String × Bool) → List String
keys [] = []
keys ((ns, b) ∷ m) = ns ∷ keys m

read_objects : List ℕ → M (List ManagedObject)
read_objects [] = pure []
read_objects (place ∷ places) = do
  obj ← read_object place
  objs ← read_objects places
  pure (obj ∷ objs)

module _ (k : Cluster) where
  -- *ex.GroupWindows = append(…), where it is not nil.
  record_group_window : ℤ → ℤ → M (Unit {0})
  record_group_window number group_start = do
    ex ← get_executor
    elim (ex.group_windows) [
      | none ↦ pure tt
      | some windows ↦ do
        now ← ask k.now
        set_executor (record ex {
          group_windows =
              some (windows ++ (record { id = number; start = group_start; end = now } ∷ []));
        })
    ]

  -- The kind of an object is mapped if it is not known.
  resolve_kind : ℕ → M (Unit {0})
  resolve_kind place = do
    obj ← read_object place
    if is_no_gvr obj.gvr && not obj.dynamic_gvk then resolve_object_mapping k place obj else pure tt

  -- The namespace of the iteration, made now if the need shows only with the object's kind.
  late_namespace :
      ℕ → ℕ → String → List (String × Bool) → Labels → Labels → M (String × List (String × Bool))
  late_namespace place i ns group_created labels annotations = do
    ex ← get_executor
    obj ← read_object place
    if not (str_eq ns "" && obj.namespaced && str_eq obj.namespace "")
        then pure (ns, group_created)
        else do
          name ← iteration_namespace ex i
          made ← create_namespace k name labels annotations
          pure (made, insert made true group_created)

  group_objects :
      List ℕ → ℕ → ℕ → String → List (String × Bool) → Labels → Labels → M (List (String × Bool))
  group_objects [] local i ns group_created labels annotations = pure group_created
  group_objects (place ∷ places) local i ns group_created labels annotations = do
    resolve_kind place
    (ns', created') ← late_namespace place i ns group_created labels annotations
    ex ← get_executor
    label_and_create k place (find_global_object_index ex place local) i ns'
    group_objects places (suc local) i ns' created' labels annotations

  -- What the iterations of a group end with.
  pub data GroupEnd : Type 0 where
    group_cancelled : String → GroupEnd
    group_finished : List (String × Bool) → GroupEnd

  group_iterations : GroupEntry → ℤ → List ℕ → List (String × Bool) → Labels → Labels → M GroupEnd
  group_iterations g group_start [] group_created labels annotations =
      pure (group_finished group_created)
  group_iterations g group_start (i ∷ is) group_created labels annotations = do
    emit (hooks on_each_iteration)
    err ← ask k.ctx_err
    elim err [
      | some e ↦ record_group_window g.number group_start >> pure (group_cancelled e)
      | none ↦ do
        (ns, created) ← resolve_group_iteration_namespace i group_created
        created' ← group_objects g.places 0 i ns created labels annotations
        ex ← get_executor
        sleep k ex.job.job_iteration_delay
        group_iterations g group_start is created' labels annotations
    ]

  wait_namespaces : ℤ → List String → List String → M (List String)
  wait_namespaces number [] errs = pure errs
  wait_namespaces number (ns ∷ nss) errs = do
    es ← wait_for_objects k ns (some number)
    wait_namespaces number nss (errs ++ es)

  wait_ready : ℤ → List (String × Bool) → List String → M (List String)
  wait_ready number group_created errs = do
    ex ← get_executor
    if ex.job.pod_wait || ex.job.wait_when_finished
        then wait_namespaces number (keys group_created) errs
        else pure errs

  -- The pauses and the garbage collection of a group.
  group_lifecycle : GroupEntry → M (Unit {0})
  group_lifecycle g = do
    objs ← read_objects g.places
    let pauses = get_group_lifecycle_pauses objs
    sleep k pauses.before
    if pauses.has_gc then gc_group_objects g.number objs >> sleep k pauses.after else pure tt

  -- The groups in order, to the errors of the waits, or the error of a context that is done.
  groups_loop : List GroupEntry → List ℕ → Labels → Labels → List String → M (List String)
  groups_loop [] is labels annotations errs = pure errs
  groups_loop (g ∷ gs) is labels annotations errs = do
    err ← ask k.ctx_err
    elim err [
      | some e ↦ pure (e ∷ [])
      | none ↦ do
        group_start ← ask k.now
        group_end ← group_iterations g group_start is [] labels annotations
        elim group_end [
          | group_cancelled e ↦ pure (e ∷ [])
          | group_finished group_created ↦ do
            wait_group k
            errs' ← wait_ready g.number group_created errs
            group_lifecycle g
            record_group_window g.number group_start
            groups_loop gs is labels annotations errs'
        ]
    ]

  pub run_create_job_grouped : ℕ → ℕ → M (List String)
  run_create_job_grouped start end = do
    ex ← get_executor
    let labels = namespace_labels ex
    let annotations = namespace_annotations ex
    resolve_dynamic_objects k start
    ex' ← get_executor
    if ex'.ns_required then pre_create_namespaces k start end labels annotations else pure tt
    groups_loop (group_objects_by_number ex'.objects) (range_from start (end - start)) labels
        annotations []
