-- ===== src/Create/Requests/Launch.antt =====
-- The replicas that replicaHandler launches.
use kube_burner.Prelude.{
  ℕ, suc, String, false, List, [], ◌∷◌, ◌++◌, map, none, some, get_elem?, ◌≡◌, refl, sym, ◌∙◌, ap,
  arith, append_assoc, append-nil, range_from,
}
use mathlib.Core.List.{Perm}
use kube_burner.Prelude.{if◌then◌else◌}
use kube_burner.Prelude.Maps.{insert, copy}
use kube_burner.Prelude.Text.{itoa, itoa_nat}
use kube_burner.Prelude.Int.{pos_part}
use kube_burner.Config.Types.{Labels}
use kube_burner.Executor.{
  World, Cluster, Event, launched, Request, Rendered, Mapping, ManagedObject, M, pure, ask,
  for_each, ◌>>=◌, >>=_at, >>_at,
}
use kube_burner.Create.Requests.{
  replica_handler, started_replicas, render_and_launch, replica_labels, request_of, launch,
  launch_mapped, map_kind,
}

-- A cluster that neither is done, nor fails to throttle, nor lacks the kind of an object, whose
-- templates render to `doc r` for replica r.
pub record IsServing (k : Cluster) (obj : ManagedObject) (iteration : ℕ) (doc : ℕ → Rendered)
    (mapping : Mapping) : Type 0 where
  pub running : (n : ℕ) → k.ctx_err n ≡ none
  pub throttles : (n : ℕ) → k.limiter_err n ≡ false
  pub renders :
      (r : ℕ)
      → (docs : List Rendered) × ((k.render obj iteration r ≡ some docs)
          × (get_elem? docs obj.document_index ≡ some (doc r)))
  pub orders : (n : ℕ) (rs : List ℕ) → Perm (k.replica_order n rs) rs
  pub maps : (n r : ℕ) → k.rest_mapping n (doc r).gvk ≡ some mapping

module _ (k : Cluster) (source : ℕ) (obj : ManagedObject) (labels : Labels) (ns : String)
    (iteration : ℕ) (doc : ℕ → Rendered) (mapping : Mapping) where
  -- The labels are those of the group and of the replica over the given ones, and over them those
  -- that the rendered object states itself.
  abbrev pub request_at : ℕ → Request
  request_at r = record {
    source = source;
    iteration = iteration;
    replica = r;
    gvr = if obj.dynamic_gvk then mapping.resource else obj.gvr;
    namespace =
        if (if obj.dynamic_gvk then mapping.in_namespace else obj.namespaced) then ns else "";
    body = record (doc r) {
      labels =
          copy
            (insert "kube-burner.io/group" (itoa obj.group.id)
              (insert "kube-burner.io/replica" (itoa_nat r) labels))
            (doc r).labels;
    };
  }

  -- The requests are under way, behind those that were, and nothing else has happened.
  abbrev pub Launches : List ℕ → World → World → Type 0
  Launches rs w w' =
      (w'.executor ≡ w.executor)
      × ((w'.pending ≡ w.pending ++ map request_at rs)
          × (w'.trace ≡ w.trace ++ map (λ r. launched (request_at r)) rs))

  render_and_launch-Launches :
      (r : ℕ) (w : World)
      → IsServing k obj iteration doc mapping
      → (w' : World) × ((render_and_launch k source obj
              (replica_labels labels obj r)
              ns
              iteration
              r
              w
            ≡ some (tt, w'))
          × Launches (r ∷ []) w w')
  unfolding render_and_launch map_kind launch launch_mapped request_of replica_labels
  render_and_launch-Launches r w s =
      let docs = s.renders r in
      (
        record w {
          clock = suc w.clock;
          pending = w.pending ++ (request_at r ∷ []);
          trace = w.trace ++ (launched (request_at r) ∷ []);
        },
        (ground (arith, docs.1.0, docs.1.1, s.maps w.clock r), (refl, (refl, refl))),
      )

  abbrev start_replica : ℕ → M (Unit {0})
  start_replica r = render_and_launch k source obj (replica_labels labels obj r) ns iteration r

  for_each-Launches :
      (rs : List ℕ) (w : World)
      → IsServing k obj iteration doc mapping
      → (w' : World) × ((for_each rs start_replica w ≡ some (tt, w')) × Launches rs w w')
  for_each-Launches [] w s =
      (w, (refl, (refl, (sym (append-nil w.pending), sym (append-nil w.trace)))))
  for_each-Launches (r ∷ rs) w s =
      let one = render_and_launch-Launches r w s in
      let more = for_each-Launches rs one.0 s in
      (
        more.0,
        (
          >>_at (start_replica r) (for_each rs start_replica) one.1.0 ∙ more.1.0,
          (
            more.1.1.0 ∙ one.1.1.0,
            (
              more.1.1.1.0
                  ∙ ap (λ (l : List Request). l ++ map request_at rs) one.1.1.1.0
                  ∙ append_assoc w.pending (request_at r ∷ []) (map request_at rs),
              more.1.1.1.1
                  ∙ ap (λ (l : List Event). l ++ map (λ r. launched (request_at r)) rs) one.1.1.1.1
                  ∙ append_assoc w.trace (launched (request_at r) ∷ [])
                      (map (λ r. launched (request_at r)) rs),
            ),
          ),
        ),
      )

  all_started :
      (rs : List ℕ) (w : World)
      → IsServing k obj iteration doc mapping
      → (n : ℕ) × (started_replicas k rs w ≡ some (rs, record w { clock = n }))
  unfolding started_replicas
  all_started [] w s = (w.clock, refl)
  all_started (r ∷ rs) w s =
      let later = all_started rs (record w { clock = suc (suc w.clock) }) s in
      (
        later.0,
        rw (s.running w.clock, s.throttles (suc w.clock))
            (>>=_at (started_replicas k rs) (λ more. pure (r ∷ more)) later.1),
      )

-- Where the cluster serves every replica, replicaHandler returns and has launched, in some order, each
-- of the replicas from 1 to the object's number once, with the group's and the replica's labels, and
-- the executor is unchanged. The goroutines that are started run in some order.
pub replica_handler-Launches :
    (k : Cluster) (source : ℕ) (obj : ManagedObject) (labels : Labels) (ns : String) (iteration : ℕ)
    (doc : ℕ → Rendered) (mapping : Mapping) (w : World)
    → IsServing k obj iteration doc mapping
    → (w' : World) × (order : List ℕ) × Perm order (range_from 1 (pos_part obj.replicas))
      × (replica_handler k source obj labels ns iteration w ≡ some (tt, w'))
      × Launches k source obj labels ns iteration doc mapping order w w'
unfolding replica_handler
replica_handler-Launches k source obj labels ns iteration doc mapping w s =
    let rs = range_from 1 (pos_part obj.replicas) in
    let begun = all_started k source obj labels ns iteration doc mapping rs w s in
    let order = k.replica_order begun.0 rs in
    let ran =
      for_each-Launches k source obj labels ns iteration doc mapping order
        (record w { clock = suc begun.0 }) s in
    (
      ran.0,
      order,
      s.orders begun.0 rs,
      >>=_at (started_replicas k rs)
            (λ started. ask (λ n. k.replica_order n started) >>= λ order.
              for_each order
                (λ r. render_and_launch k source obj (replica_labels labels obj r) ns iteration r))
            begun.1
          ∙ ran.1.0,
      ran.1.1,
    )
