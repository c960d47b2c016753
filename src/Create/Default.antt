-- ===== src/Create/Default.antt =====
-- pkg/burner/create.go: runCreateJobDefault and waitForCompletion. The goroutines of
-- waitForCompletion run in the order in which they are started; messages of the log, the progress
-- among them, are left out, and so are the errors of hooks, which are logged only.
use kube_burner.Prelude.{
  ℕ, ◌-◌, String, Bool, true, not, ◌&&◌, ◌||◌, List, [], ◌∷◌, ◌++◌, none, some, if◌then◌else◌,
  range_from, length,
}
use kube_burner.Prelude.Int.{ℤ, pos, ltb_ℤ}
use kube_burner.Prelude.Maps.{insert, flag, copy}
use kube_burner.Prelude.Text.{itoa_nat}
use kube_burner.Config.Types.{Labels, on_each_iteration}
use kube_burner.Executor.{
  JobExecutor, Cluster, ManagedObject, hooks, slept, is_no_gvr, M, pure, ◌>>=◌, ◌>>◌, fatal,
  get_executor, emit, ask,
}
use kube_burner.Waiters.{wait_for_objects}
use kube_burner.Create.Namespaces.{
  create_namespace, iteration_namespace, namespace_of, pre_create_namespaces,
}
use kube_burner.Create.Objects.{
  object_at, is_due, resolve_object_mapping, resolve_dynamic_objects, write_object,
}
use kube_burner.Create.Requests.{replica_handler, wait_group}

-- kbLabels, the labels of the objects of an iteration.
pub object_labels : JobExecutor → ℕ → ℕ → Labels
object_labels ex index i =
    ("kube-burner.io/uuid", ex.uuid)
    ∷ ("kube-burner.io/job", ex.job.name)
    ∷ ("kube-burner.io/index", itoa_nat index)
    ∷ ("kube-burner.io/runid", ex.runid)
    ∷ ("kube-burner.io/job-iteration", itoa_nat i)
    ∷ []

-- nsLabels, with the labels that the job sets for its namespaces copied over them.
pub namespace_labels : JobExecutor → Labels
namespace_labels ex =
    copy
      (("kube-burner.io/job", ex.job.name)
        ∷ ("kube-burner.io/uuid", ex.uuid)
        ∷ ("kube-burner.io/runid", ex.runid)
        ∷ [])
      ex.job.namespace_labels

pub namespace_annotations : JobExecutor → Labels
namespace_annotations ex = copy [] ex.job.namespace_annotations

-- An object through its pointer.
pub read_object : ℕ → M ManagedObject
read_object place = do
  ex ← get_executor
  elim (object_at ex place) [ none ↦ fatal | some obj ↦ pure obj ]

module _ (k : Cluster) where
  -- The kind of the object is mapped if it is not known, and the namespace is made if the job turns
  -- out to need one: the namespace to go on with.
  resolve_late : ℕ → ℕ → String → Labels → Labels → M String
  resolve_late place i ns labels annotations = do
    obj ← read_object place
    if not (is_no_gvr obj.gvr && not obj.dynamic_gvk) then pure ns else do
      resolve_object_mapping k place obj
      ex ← get_executor
      if not ex.ns_required
          then pure ns
          else do name ← iteration_namespace ex i; create_namespace k name labels annotations

  -- obj.LabelSelector = kbLabels, and the replicas of the object if it is due.
  pub label_and_create : ℕ → ℕ → ℕ → String → M (Unit {0})
  label_and_create place index i ns = do
    ex ← get_executor
    obj ← read_object place
    write_object place
        (record obj { object = record obj.object { label_selector = object_labels ex index i } })
    if is_due obj.object i
        then replica_handler k place obj (object_labels ex index i) ns i
        else pure tt

  -- The objects of an iteration, from a place on; the namespace at the end.
  create_objects : List ℕ → ℕ → String → Labels → Labels → M String
  create_objects [] i ns labels annotations = pure ns
  create_objects (place ∷ places) i ns labels annotations = do
    ns' ← resolve_late place i ns labels annotations
    label_and_create place place i ns'
    create_objects places i ns' labels annotations

  -- The variables of the loop over the iterations that outlive a round.
  pub record Progress : Type 0 where
    pub ns : String
    pub wait_errors : List String
    pub waited : List (String × Bool)

  wait_iteration : Progress → M Progress
  wait_iteration p = do
    ex ← get_executor
    if ex.job.wait_when_finished
          || not ex.job.pod_wait
          || (ex.job.namespaced_iterations && flag p.ns p.waited)
        then pure p
        else do
          wait_group k
          errs ← wait_for_objects k p.ns none
          pure
              (record p { wait_errors = p.wait_errors ++ errs; waited = insert p.ns true p.waited })

  -- if delay > 0 { time.Sleep(delay) }
  pub sleep : ℤ → M (Unit {0})
  sleep delay = if ltb_ℤ (pos 0) delay then emit (slept delay) else pure tt

  iteration : ℕ → Labels → Labels → Progress → M Progress
  iteration i labels annotations p = do
    ex ← get_executor
    ns ←
        if ex.ns_required && ex.job.namespaced_iterations
        then (do name ← namespace_of i; create_namespace k name labels annotations)
        else pure p.ns
    ns' ← create_objects (range_from 0 (length ex.objects)) i ns labels annotations
    p' ← wait_iteration (record p { ns = ns' })
    sleep ex.job.job_iteration_delay
    pure p'

  -- What the loop ends with: the error of a context that is done, or its variables.
  pub data LoopEnd : Type 0 where
    cancelled : String → LoopEnd
    finished : Progress → LoopEnd

  iterations : List ℕ → Labels → Labels → Progress → M LoopEnd
  iterations [] labels annotations p = pure (finished p)
  iterations (i ∷ is) labels annotations p = do
    emit (hooks on_each_iteration)
    err ← ask k.ctx_err
    elim err [
      | some e ↦ pure (cancelled e)
      | none ↦ do p' ← iteration i labels annotations p; iterations is labels annotations p'
    ]

  -- waitForCompletion: each namespace once, and the first errors.
  wait_for_completion : List ℕ → String → List (String × Bool) → M (List String)
  wait_for_completion [] ns waited = pure []
  wait_for_completion (i ∷ is) ns waited = do
    ex ← get_executor
    ns' ← if ex.ns_required && ex.job.namespaced_iterations then namespace_of i else pure ns
    if ex.ns_required && ex.job.namespaced_iterations && flag ns' waited
        then wait_for_completion is ns' waited
        else do
          errs ← wait_for_objects k ns' none
          later ←
              if not ex.job.namespaced_iterations
              then pure []
              else wait_for_completion is ns'
                  (if ex.ns_required then insert ns' true waited else waited)
          pure (elim errs [ [] ↦ later | e ∷ es ↦ e ∷ es ])

  finish : ℕ → ℕ → LoopEnd → M (List String)
  finish start end (cancelled e) = pure (e ∷ [])
  finish start end (finished p) = do
    wait_group k
    ex ← get_executor
    if not ex.job.wait_when_finished then pure p.wait_errors else do
      errs ← wait_for_completion (range_from start (end - start)) p.ns p.waited
      pure (p.wait_errors ++ errs)

  -- The namespaces that are made before the loop; the variable ns.
  prepare_namespaces : ℕ → ℕ → Labels → Labels → M String
  prepare_namespaces start end labels annotations = do
    ex ← get_executor
    if not ex.ns_required then pure "" else do
      if ex.job.pre_create_namespaces
          then pre_create_namespaces k start end labels annotations
          else pure tt
      if ex.job.namespaced_iterations
          then pure ""
          else create_namespace k ex.job.namespace labels annotations

  pub run_create_job_default : ℕ → ℕ → M (List String)
  run_create_job_default start end = do
    ex ← get_executor
    let labels = namespace_labels ex
    let annotations = namespace_annotations ex
    resolve_dynamic_objects k start
    ns ← prepare_namespaces start end labels annotations
    loop_end ←
        iterations (range_from start (end - start)) labels annotations
          (record { ns = ns; wait_errors = []; waited = [] })
    finish start end loop_end
