-- ===== src/Waiters/Checks/Replicas.antt =====
-- When a round of waitForReplicas is not done.
use kube_burner.Prelude.{String, List, ◌∷◌, none, some, ◌≡◌, refl}
use kube_burner.Waiters.Checks.{Watched, again, field, replicas_round, replicas_of, same_text}

pub replicas_missing :
    (paths : List String × List String) (wanted : String) (item : Watched) (items : List Watched)
    → item.nested paths.0 ≡ field (some wanted)
    → item.nested paths.1 ≡ field none
    → replicas_round paths.0 paths.1 (item ∷ items) ≡ again
unfolding replicas_round replicas_of same_text
replicas_missing paths wanted item items e f = rw e (rw f refl)
