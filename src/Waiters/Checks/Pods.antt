-- ===== src/Waiters/Checks/Pods.antt =====
-- When a round of waitForPod is done.
use kube_burner.Prelude.{
  str_eq, Bool, true, false, not, ◌||◌, List, [], ◌∷◌, Option, none, some, ◌≡◌, ◌↔◌, refl, All,
  if◌then◌else◌,
}
use kube_burner.Waiters.Checks.{
  Watched, Round, again, ready, stops, phase_of, is_unready, pods_round, pages_round,
}

-- A running pod without a condition that says that it is not ready.
abbrev pub IsRunning : Watched → Type 0
IsRunning pod = (str_eq (phase_of pod.phase) "Running" ≡ true) × (is_unready pod.conditions ≡ false)

-- A page that was listed, with only such pods.
abbrev pub IsDone : Option (List Watched) → Type 0
IsDone none = ⊥
IsDone (some pods) = All IsRunning pods

pod_iff :
    {Q : Type 0} (running unready : Bool) (rest : Round)
    → (rest ≡ ready) ↔ Q
    → ((if not running || unready then again else rest) ≡ ready)
      ↔ (((running ≡ true) × (unready ≡ false)) × Q)
pod_iff true true rest later = ((λ h. cc), (λ ((e, f), q). cc))
pod_iff true false rest later = ((λ h. ((refl, refl), later.0 h)), (λ (p, q). later.1 q))
pod_iff false unready rest later = ((λ h. cc), (λ ((e, f), q). cc))

pods_round_iff : (pods : List Watched) → (pods_round pods ≡ ready) ↔ All IsRunning pods
unfolding pods_round
pods_round_iff [] = ((λ h. tt), (λ t. refl))
pods_round_iff (pod ∷ pods) =
    pod_iff (str_eq (phase_of pod.phase) "Running") (is_unready pod.conditions) (pods_round pods)
      (pods_round_iff pods)

page_iff :
    {P Q : Type 0} (page rest : Round)
    → (page ≡ ready) ↔ P
    → (rest ≡ ready) ↔ Q
    → ((elim page [ again ↦ again | stops e ↦ stops e | ready ↦ rest ]) ≡ ready) ↔ (P × Q)
page_iff again rest now later = ((λ h. cc), (λ (p, q). now.1 p))
page_iff (stops e) rest now later = ((λ h. cc), (λ (p, q). now.1 p))
page_iff ready rest now later = ((λ h. (now.0 refl, later.0 h)), (λ (p, q). later.1 q))

-- A round of waitForPod is done exactly when every page of pods is listed, and every pod is running
-- and has no condition that says that it is not ready.
pub pages_round_iff :
    (pages : List (Option (List Watched))) → (pages_round pages ≡ ready) ↔ All IsDone pages
unfolding pages_round
pages_round_iff [] = ((λ h. tt), (λ t. refl))
pages_round_iff (none ∷ pages) = ((λ h. cc), (λ (none_done, rest). absurd none_done))
pages_round_iff (some pods ∷ pages) =
    page_iff (pods_round pods) (pages_round pages) (pods_round_iff pods) (pages_round_iff pages)
