-- ===== src/Create/Requests.antt =====
-- pkg/burner/create.go: replicaHandler, createRequest and the MidPoint stage.
pub mod MidPoint
pub mod Launch
pub mod Retries
use kube_burner.Prelude.{
  ℕ, zero, suc, ◌+◌, ◌-◌, ◌/◌, String, Bool, true, false, not, ◌&&◌, ◌||◌, List, [], ◌∷◌, ◌++◌,
  Option, none, some, if◌then◌else◌, range_from, str_eq, is_some, get_elem?, leb,
}
use kube_burner.Prelude.Int.{ℤ, pos, negsuc, pos_part, ltb_ℤ}
use kube_burner.Prelude.Maps.{insert, copy}
use kube_burner.Prelude.Text.{itoa, itoa_nat}
use kube_burner.Config.Types.{Labels, mid_point}
use kube_burner.Executor.{
  JobExecutor, World, Cluster, Event, launched, create_called, stage_notified, Request, Rendered,
  Mapping, MidPointTracker, ManagedObject, GroupVersionResource, Answer, created, already_exists,
  not_found, failed, M, pure, ◌>>=◌, ◌>>◌, fatal, get_executor, set_executor, emit, ask, for_each,
}

abbrev pub label_replica : String
label_replica = "kube-burner.io/replica"

abbrev pub label_group : String
label_group = "kube-burner.io/group"

-- ex.midPoint.once.Do(…)
fire_mid_point : JobExecutor → MidPointTracker → M (Unit {0})
fire_mid_point ex m = if m.fired then set_executor (record ex { mid_point = some m }) else do
  set_executor (record ex { mid_point = some (record m { fired = true }) })
  emit (stage_notified mid_point)

-- One more creation has succeeded.
count_created : JobExecutor → MidPointTracker → M (Unit {0})
count_created ex m =
    let counted = record m { created_replicas = m.created_replicas + 1 } in
    if leb (pos_part m.total_replicas / 2) counted.created_replicas
    then fire_mid_point ex counted
    else set_executor (record ex { mid_point = some counted })

-- notifyMidpoint and, below its test, notifyMidPoint.
notify_with : JobExecutor → Option MidPointTracker → M (Unit {0})
notify_with ex none = pure tt
notify_with ex (some m) =
    if not ex.has_notifier || not (ltb_ℤ (pos 0) m.total_replicas)
    then pure tt
    else count_created ex m

pub notify_midpoint : M (Unit {0})
notify_midpoint = do ex ← get_executor; notify_with ex ex.mid_point

-- ns, unless the object states its own.
pub request_namespace : String → Rendered → String
request_namespace ns obj = if str_eq obj.namespace "" then ns else obj.namespace

-- The request of a rendered object, once its kind has been mapped.
pub request_of : ℕ → ManagedObject → Labels → String → ℕ → ℕ → Rendered → Mapping → Request
request_of source obj labels ns iteration r new_object mapping = record {
  source = source;
  iteration = iteration;
  replica = r;
  gvr = if obj.dynamic_gvk then mapping.resource else obj.gvr;
  namespace = if (if obj.dynamic_gvk then mapping.in_namespace else obj.namespaced) then ns else "";
  body = record new_object { labels = copy labels new_object.labels };
}

-- The copy of the labels for a replica.
pub replica_labels : Labels → ManagedObject → ℕ → Labels
replica_labels labels obj r =
    insert label_group (itoa obj.group.id) (insert label_replica (itoa_nat r) labels)

module _ (k : Cluster) where
  -- What one call of the retried function does with the server's answer: whether it is done.
  settle : Answer → M Bool
  settle created = do notify_midpoint; pure true
  settle already_exists = do notify_midpoint; pure true
  settle not_found = pure true
  settle failed = pure false

  -- The calls that wait.ExponentialBackoff makes, at most `steps`.
  pub attempts : ℕ → GroupVersionResource → String → Rendered → M (Unit {0})
  attempts zero gvr ns obj = pure tt
  attempts (suc steps) gvr ns obj =
      let retry = attempts steps gvr (request_namespace ns obj) obj in
      do
        err ← ask k.ctx_err
        if is_some err then pure tt else do
          let to = request_namespace ns obj
          answer ← ask (λ n. k.create n gvr to obj)
          emit (create_called gvr to obj)
          done ← settle answer
          if done then pure tt else retry

  pub create_request : Request → M (Unit {0})
  create_request r = do
    ex ← get_executor
    attempts (k.backoff_steps ex.job.max_wait_timeout) r.gvr r.namespace r.body

  clear_pending : M (Unit {0})
  clear_pending w = some (tt, record w { pending = [] })

  -- replicaWg.Wait(): the goroutines that are under way come to their end, in some order.
  pub wait_group : M (Unit {0})
  wait_group w =
      (do
        order ← ask (λ n. k.request_order n w.pending)
        clear_pending
        for_each order create_request)
        w

  launch : Request → M (Unit {0})
  launch r w =
      some (tt, record w { pending = w.pending ++ (r ∷ []); trace = w.trace ++ (launched r ∷ []) })

  -- ex.mapper.RESTMapping, once more behind a Reset for an object of a templated kind.
  map_kind : ManagedObject → Rendered → M (Option Mapping)
  map_kind obj new_object = do
    first ← ask (λ n. k.rest_mapping n new_object.gvk)
    if not (is_some first) && obj.dynamic_gvk
        then ask (λ n. k.rest_mapping n new_object.gvk)
        else pure first

  launch_mapped : (Mapping → Request) → Option Mapping → M (Unit {0})
  launch_mapped request none = pure tt
  launch_mapped request (some mapping) = launch (request mapping)

  -- The goroutine of a replica. `get_elem?` out of range is an index panic.
  render_and_launch : ℕ → ManagedObject → Labels → String → ℕ → ℕ → M (Unit {0})
  render_and_launch source obj labels ns iteration r = elim (k.render obj iteration r) [
    | none ↦ fatal
    | some new_objects ↦ elim (get_elem? new_objects obj.document_index) [
      | none ↦ fatal
      | some new_object ↦ do
        mapping ← map_kind obj new_object
        launch_mapped (request_of source obj labels ns iteration r new_object) mapping
    ]
  ]

  -- The replicas whose goroutines are started.
  started_replicas : List ℕ → M (List ℕ)
  started_replicas [] = pure []
  started_replicas (r ∷ rs) =
      let rest = started_replicas rs in
      do
        err ← ask k.ctx_err
        if is_some err then pure [] else do
          throttled ← ask k.limiter_err
          if throttled then pure [] else do later ← rest; pure (r ∷ later)

  -- The replicas of one object in one iteration, from 1; their goroutines run in some order.
  pub replica_handler : ℕ → ManagedObject → Labels → String → ℕ → M (Unit {0})
  replica_handler source obj labels ns iteration = do
    started ← started_replicas (range_from 1 (pos_part obj.replicas))
    order ← ask (λ n. k.replica_order n started)
    for_each order (λ r. render_and_launch source obj (replica_labels labels obj r) ns iteration r)
