-- ===== src/Verify/Counts.antt =====
-- When Verify succeeds.
use kube_burner.Prelude.{ℕ, suc, ◌*◌, ◌^◌, ◌<◌, true, List, [], ◌∷◌, Option, some, ◌≡◌, ◌⊎◌}
use kube_burner.Prelude.Int.{pos, pos_part}
use kube_burner.Config.Types.{Labels}
use kube_burner.Executor.{JobExecutor, ManagedObject}
use kube_burner.Prelude.Text.{itoa_nat}
use kube_burner.Verify.Expected.{due_count}

-- The labels of a template's objects, by its place in the job.
abbrev pub labels_at : JobExecutor → ℕ → Labels
labels_at ex place =
    ("kube-burner.io/uuid", ex.uuid)
    ∷ ("kube-burner.io/runid", ex.runid)
    ∷ ("kube-burner.io/job", ex.job.name)
    ∷ ("kube-burner.io/index", itoa_nat place)
    ∷ []

-- No number wraps: the replicas are not negative, and the repeat and their product with the iterations
-- are small.
abbrev pub InRange : ℕ → ManagedObject → Type 0
InRange n obj =
    (obj.replicas ≡ pos (pos_part obj.replicas))
    × (pos_part obj.repeat_every_n_iterations < 2 ^ 61)
    × (pos_part obj.replicas * n < 2 ^ 63)

-- The group deletes its objects, or as many carry the template's labels as it has replicas in the
-- iterations below n in which it is created.
abbrev pub IsThere : (Labels → Option ℕ) → JobExecutor → ℕ → ℕ → ManagedObject → Type 0
IsThere listed ex n place obj =
    (obj.group.gc ≡ true)
    ⊎ (listed (labels_at ex place) ≡ some (pos_part obj.replicas * due_count obj.object n))

-- The same for each template, by its place.
abbrev pub AllThere : (Labels → Option ℕ) → JobExecutor → ℕ → ℕ → List ManagedObject → Type 0
AllThere listed ex n place [] = Unit
AllThere listed ex n place (obj ∷ objs) =
    IsThere listed ex n place obj × AllThere listed ex n (suc place) objs
