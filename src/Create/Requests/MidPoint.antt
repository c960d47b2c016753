-- ===== src/Create/Requests/MidPoint.antt =====
-- The MidPoint stage of pkg/burner/create.go: notifyMidpoint over a run of successful creations.
use kube_burner.Prelude.{
  ℕ, zero, suc, ◌+◌, ◌/◌, ◌<◌, Bool, true, false, not, ◌&&◌, List, [], ◌∷◌, ◌++◌, Option, some, ◌≡◌,
  ◌∙◌, ap, arith, if◌then◌else◌, append_assoc, append-nil, leb,
}
use kube_burner.Prelude.Int.{pos}
use kube_burner.Config.Types.{mid_point}
use kube_burner.Executor.{World, Event, stage_notified, MidPointTracker, M, pure, ◌>>◌, >>_at}
use kube_burner.Create.Requests.{notify_midpoint, notify_with, count_created, fire_mid_point}

-- n successful creations.
pub notify_times : ℕ → M (Unit {0})
notify_times zero = pure tt
notify_times (suc n) = notify_midpoint >> notify_times n

-- Whether MidPoint is due with a total of t replicas and c of them created.
abbrev pub is_past : ℕ → ℕ → Bool
is_past t c = leb 1 c && leb (t / 2) c

abbrev tracker : ℕ → ℕ → MidPointTracker
tracker t c = record { total_replicas = pos t; created_replicas = c; fired = is_past t c }

abbrev counted : ℕ → ℕ → World → World
counted t c w = record w { executor = record (w.executor) { mid_point = some (tracker t c) } }

-- The stage is announced by the creations after the first `c` exactly when these pass the middle.
abbrev announced : ℕ → ℕ → ℕ → List Event
announced t c c' = if is_past t c' && not (is_past t c) then stage_notified mid_point ∷ [] else []

notify_step :
    (t c : ℕ) (w : World)
    → 0 < t
    → w.executor.has_notifier ≡ true
    → notify_midpoint (counted t c w)
      ≡ some (tt, record (counted t (c + 1) w) { trace = w.trace ++ announced t c (c + 1) })
unfolding notify_midpoint notify_with count_created fire_mid_point
notify_step t c w h k = ground (arith, append-nil w.trace)

announced_trans :
    (t c n : ℕ)
    → announced t c (c + 1) ++ announced t (c + 1) (c + 1 + n) ≡ announced t c (c + suc n)
announced_trans t c n = ground arith

same_world :
    (t a b : ℕ) (w : World) (l m : List Event)
    → a ≡ b
    → l ≡ m
    → ◌≡◌ {A = Option (Unit {0} × World)}
        (some (tt, record (counted t a w) { trace = l }))
        (some (tt, record (counted t b w) { trace = m }))
same_world t a b w l m p q = rw (p, q)

notify_run :
    (n t c : ℕ) (w : World)
    → 0 < t
    → w.executor.has_notifier ≡ true
    → notify_times n (counted t c w)
      ≡ some (tt, record (counted t (c + n) w) { trace = w.trace ++ announced t c (c + n) })
unfolding notify_times
notify_run zero t c w h k = ground (arith, append-nil w.trace)
notify_run (suc n) t c w h k =
    let next_world = record w { trace = w.trace ++ announced t c (c + 1) } in
    >>_at notify_midpoint (notify_times n) (notify_step t c w h k)
    ∙ (notify_run n t (c + 1) next_world h k
        ∙ same_world t (c + 1 + n) (c + suc n) w _ _ (omega arith) (
            append_assoc w.trace (announced t c (c + 1)) (announced t (c + 1) (c + 1 + n))
            ∙ ap (λ (l : List Event). w.trace ++ l) (announced_trans t c n)))

-- The world of an executor that has just been set up for t replicas.
abbrev pub fresh : ℕ → World → World
fresh t w = record w {
  executor = record (w.executor) {
    mid_point = some (record { total_replicas = pos t; created_replicas = 0; fired = false });
  };
}

-- From a fresh tracker with a total above 0, and with a notifier, n successful creations announce MidPoint once if n is positive and reaches
-- half of the total, and not at all otherwise; nothing else is done, and all n are counted.
pub notify_times_lem :
    (n t : ℕ) (w : World)
    → 0 < t
    → w.executor.has_notifier ≡ true
    → notify_times n (fresh t w)
      ≡ some (
        tt,
        record w {
          executor = record (w.executor) {
            mid_point = some (record {
              total_replicas = pos t;
              created_replicas = n;
              fired = leb 1 n && leb (t / 2) n;
            });
          };
          trace =
              w.trace ++ (if leb 1 n && leb (t / 2) n then stage_notified mid_point ∷ [] else []);
        },
      )
notify_times_lem n t w h k =
    notify_run n t 0 w h k
    ∙ same_world t (0 + n) n w _ _ (omega arith)
        (ap (λ (l : List Event). w.trace ++ l) (from_zero n t))
  where
    from_zero :
        (n t : ℕ)
        → announced t 0 (0 + n)
          ≡ (if leb 1 n && leb (t / 2) n then stage_notified mid_point ∷ [] else [])
    from_zero n t = ground arith
