-- ===== src/Waiters/Checks/Builds.antt =====
-- When a round of waitForBuild is done too early.
use kube_burner.Prelude.{String, false, List, [], ◌∷◌, none, some, ◌≡◌, refl, All, length}
use kube_burner.Prelude.Int.{ℤ, pos, ltb_ℤ}
use kube_burner.Waiters.Checks.{
  Watched, ready, is_building, decoded_phase, builds_from, builds_round,
}

builds_from-stale :
    (phase : String) (items : List Watched)
    → is_building phase ≡ false
    → All (λ item. item.phase ≡ none) items
    → builds_from phase items ≡ (ready, phase)
unfolding builds_from decoded_phase
builds_from-stale phase [] over missing = refl
builds_from-stale phase (item ∷ items) over (first, missing) =
    rw (first, over) (builds_from-stale phase items over missing)

-- Where the first build of the list has ended and no build behind it has a phase yet, waitForBuild
-- takes all of them to have ended. At least as many builds as replicas are listed.
pub builds_round-stale :
    (replicas : ℤ) (last phase : String) (item : Watched) (items : List Watched)
    → item.phase ≡ some phase
    → is_building phase ≡ false
    → All (λ later. later.phase ≡ none) items
    → ltb_ℤ (pos (length (item ∷ items))) replicas ≡ false
    → builds_round replicas last (item ∷ items) ≡ (ready, phase)
unfolding builds_round builds_from decoded_phase
builds_round-stale replicas last phase item items ended over missing enough =
    rw (enough, ended, over) (builds_from-stale phase items over missing)
