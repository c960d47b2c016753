-- ===== src/Create/Requests/Retries.antt =====
-- createRequest: what its retries send, and how often they count for MidPoint.
use kube_burner.Prelude.{
  ℕ, zero, suc, ◌/◌, ◌+◌, ◌≤◌, String, Bool, true, not, ◌||◌, List, [], ◌∷◌, ◌++◌, Option, none,
  some, ◌≡◌, ◌⊎◌, inl, inr, refl, sym, ◌∙◌, ap, subst, arith, if◌then◌else◌, Bool-cases,
  Option-cases, append_assoc, append-nil, leb, str_eq,
}
use kube_burner.Prelude.Int.{pos, ltb_ℤ, pos_part}
use kube_burner.Config.Types.{mid_point}
use kube_burner.Executor.{
  World, Cluster, Event, stage_notified, create_called, Rendered, GroupVersionResource, Answer,
  created, already_exists, not_found, failed, MidPointTracker, Request, M, pure, ◌>>=◌, ◌>>◌,
  >>=_at, >>_at,
}
use kube_burner.Create.Requests.{
  attempts, create_request, settle, request_namespace, notify_midpoint, notify_with, count_created,
  fire_mid_point,
}

-- The successful creations that count for MidPoint.
abbrev pub counted_of : Option MidPointTracker → ℕ
counted_of none = 0
counted_of (some m) = m.created_replicas

abbrev pub counted_creations : World → ℕ
counted_creations w = counted_of w.executor.mid_point

-- Nothing, or the stage MidPoint.
abbrev pub IsAnnouncement : List Event → Type 0
IsAnnouncement tail = (tail ≡ []) ⊎ (tail ≡ stage_notified mid_point ∷ [])

Notifies : World → World → Type 0
Notifies w w' =
    (tail : List Event) × ((w'.trace ≡ w.trace ++ tail)
      × (IsAnnouncement tail × (counted_creations w' ≤ counted_creations w + 1)))

fire_mid_point-Notifies :
    (w : World) (m : MidPointTracker)
    → m.created_replicas ≤ counted_creations w + 1
    → (w' : World) × ((fire_mid_point w.executor m w ≡ some (tt, w')) × Notifies w w')
unfolding fire_mid_point Notifies
fire_mid_point-Notifies w m h = elim (Bool-cases m.fired) [
  | inl old ↦ (
    record w { executor = record w.executor { mid_point = some m } },
    (rw old refl, ([], (sym (append-nil w.trace), (inl refl, h)))),
  )
  | inr fresh ↦ (
    record w {
      executor = record w.executor { mid_point = some (record m { fired = true }) };
      trace = w.trace ++ (stage_notified mid_point ∷ []);
    },
    (rw fresh refl, (stage_notified mid_point ∷ [], (refl, (inr refl, h)))),
  )
]

count_created-Notifies :
    (w : World) (m : MidPointTracker)
    → w.executor.mid_point ≡ some m
    → (w' : World) × ((count_created w.executor m w ≡ some (tt, w')) × Notifies w w')
unfolding count_created Notifies
count_created-Notifies w m e =
    let one_more : m.created_replicas + 1 ≤ counted_creations w + 1 =
      omega (arith, ap counted_of e) in
    let counted : MidPointTracker = record m { created_replicas = m.created_replicas + 1 } in
    elim (Bool-cases (leb (pos_part m.total_replicas / 2) (m.created_replicas + 1))) [
      | inl reached ↦ rw reached (fire_mid_point-Notifies w counted one_more)
      | inr early ↦ (
        record w { executor = record w.executor { mid_point = some counted } },
        (rw early refl, ([], (sym (append-nil w.trace), (inl refl, one_more)))),
      )
    ]

notify_with-Notifies :
    (w : World) (o : Option MidPointTracker)
    → w.executor.mid_point ≡ o
    → (w' : World) × ((notify_with w.executor o w ≡ some (tt, w')) × Notifies w w')
unfolding notify_with Notifies
notify_with-Notifies w none e =
    (w, (refl, ([], (sym (append-nil w.trace), (inl refl, omega arith)))))
notify_with-Notifies w (some m) e =
    elim (Bool-cases (not w.executor.has_notifier || not (ltb_ℤ (pos 0) m.total_replicas))) [
      | inl idle ↦ (w, (rw idle refl, ([], (sym (append-nil w.trace), (inl refl, omega arith)))))
      | inr active ↦ rw active (count_created-Notifies w m e)
    ]

notify_midpoint-Notifies :
    (w : World) → (w' : World) × ((notify_midpoint w ≡ some (tt, w')) × Notifies w w')
unfolding notify_midpoint
notify_midpoint-Notifies w = notify_with-Notifies w w.executor.mid_point refl

request_namespace_idem :
    (ns : String) (obj : Rendered)
    → request_namespace (request_namespace ns obj) obj ≡ request_namespace ns obj
unfolding request_namespace
request_namespace_idem ns obj = ground arith

-- n times the same event.
abbrev pub copies : ℕ → Event → List Event
copies zero e = []
copies (suc n) e = e ∷ copies n e

-- What a request leaves: at most `steps` calls, all of them alike, and what they count for.
abbrev pub Sends : ℕ → Event → World → World → Type 0
Sends steps call w w' =
    (calls : ℕ) × ((calls ≤ steps)
      × ((tail : List Event) × ((w'.trace ≡ w.trace ++ (copies calls call ++ tail))
            × (IsAnnouncement tail × (counted_creations w' ≤ counted_creations w + 1)))))

-- The world behind a call that has been answered.
abbrev called : Event → World → World
called call w = record w { clock = suc (suc w.clock); trace = w.trace ++ (call ∷ []) }

settle-Sends :
    (k : Cluster) (steps : ℕ) (call : Event) (a : Answer) (rest : M (Unit {0})) (w : World)
    → settle k a ≡ (notify_midpoint >> pure true)
    → (w' : World) × (((settle k a >>= λ done. if done then pure tt else rest) (called call w)
          ≡ some (tt, w'))
        × Sends (suc steps) call w w')
unfolding Notifies
settle-Sends k steps call a rest w e =
    let note = notify_midpoint-Notifies (called call w) in
    (
      note.0,
      (
        >>=_at (settle k a) (λ done. if done then pure tt else rest)
            (ap (λ (m : M Bool). m (called call w)) e ∙ >>_at notify_midpoint (pure true) note.1.0),
        (
          1,
          (
            omega arith,
            (
              note.1.1.0,
              (note.1.1.1.0 ∙ append_assoc w.trace (call ∷ []) note.1.1.0, note.1.1.1.1),
            ),
          ),
        ),
      ),
    )

answered :
    (k : Cluster) (steps : ℕ) (call : Event) (a : Answer) (rest : M (Unit {0})) (w : World)
    → ((w' : World) × ((rest (called call w) ≡ some (tt, w'))
          × Sends steps call (called call w) w'))
    → (w' : World) × (((settle k a >>= λ done. if done then pure tt else rest) (called call w)
          ≡ some (tt, w'))
        × Sends (suc steps) call w w')
unfolding settle
answered k steps call created rest w later = settle-Sends k steps call created rest w refl
answered k steps call already_exists rest w later =
    settle-Sends k steps call already_exists rest w refl
answered k steps call not_found rest w later =
    (called call w, (refl, (1, (omega arith, ([], (refl, (inl refl, omega arith)))))))
answered k steps call failed rest w later =
    let sent = later.1.1 in
    (
      later.0,
      (
        later.1.0,
        (
          suc sent.0,
          (
            omega (arith, sent.1.0),
            (
              sent.1.1.0,
              (
                sent.1.1.1.0 ∙ append_assoc w.trace (call ∷ []) (copies sent.0 call ++ sent.1.1.0),
                sent.1.1.1.1,
              ),
            ),
          ),
        ),
      ),
    )

attempts-Sends :
    (k : Cluster) (steps : ℕ) (gvr : GroupVersionResource) (ns : String) (obj : Rendered)
    (w : World)
    → (w' : World) × ((attempts k steps gvr ns obj w ≡ some (tt, w'))
        × Sends steps (create_called gvr (request_namespace ns obj) obj) w w')
unfolding attempts
attempts-Sends k zero gvr ns obj w =
    (w, (refl, (0, (omega arith, ([], (sym (append-nil w.trace), (inl refl, omega arith)))))))
attempts-Sends k (suc steps) gvr ns obj w = elim (Option-cases (k.ctx_err w.clock)) [
  | inl running ↦
      let call = create_called gvr (request_namespace ns obj) obj in
      let later = attempts-Sends k steps gvr (request_namespace ns obj) obj (called call w) in
      rw running (
        answered k steps call (k.create (suc w.clock) gvr (request_namespace ns obj) obj)
          (attempts k steps gvr (request_namespace ns obj) obj) w
          (
            later.0,
            (
              later.1.0,
              subst (λ to. Sends steps (create_called gvr to obj) (called call w) later.0)
                  (request_namespace_idem ns obj) later.1.1,
            ),
          ))
  | inr (err, over) ↦ (
    record w { clock = suc w.clock },
    (rw over refl, (0, (omega arith, ([], (sym (append-nil w.trace), (inl refl, omega arith)))))),
  )
]

-- createRequest returns, whatever the cluster answers. It has sent at most as many calls as the
-- backoff allows, all of them with the same resource, namespace and body, the namespace being the
-- object's own where it states one; behind them it has announced MidPoint or nothing; and for
-- MidPoint it counts once at most, however often it was sent.
pub create_request-Sends :
    (k : Cluster) (r : Request) (w : World)
    → (w' : World) × ((create_request k r w ≡ some (tt, w'))
        × Sends
            (k.backoff_steps w.executor.job.max_wait_timeout)
            (create_called r.gvr
              (if str_eq r.body.namespace "" then r.namespace else r.body.namespace)
              r.body)
            w
            w')
unfolding create_request request_namespace
create_request-Sends k r w =
    attempts-Sends k (k.backoff_steps w.executor.job.max_wait_timeout) r.gvr r.namespace r.body w
