-- ===== src/Tests/Churn.antt =====
-- Tests of the churning of pkg/burner/create.go.
use mathlib.Core.List.{Perm}
use kube_burner.Prelude.{
  ℕ, ◌+◌, ◌%◌, String, List, [], ◌∷◌, ◌++◌, some, ◌≡◌, refl, All, arith, length,
}
use kube_burner.Prelude.Int.{pos}
use kube_burner.Executor.{Item}
use kube_burner.Create.Churn.Deletion.{ChurnDeletedObject}
use kube_burner.Create.Churn.Window.{percent_of, align, random_start, slice}
use kube_burner.Create.Churn.Window.Bounds.{churn_window_lem}
use kube_burner.Create.Churn.Objects.{items_to_churn}
use kube_burner.Create.Churn.Objects.Oldest.{NoYounger, as_deleted, items_to_churn_lem}
use kube_burner.Create.Churn.Namespaces.{churn_namespaces_of}
use kube_burner.Create.Churn.Namespaces.Cycles.{Ends, churn_namespaces_of-Ends}
use kube_burner.Tests.Fixtures.{pods_job, pods, rendered_pod, start_world, serving}

abbrev four_namespaces : List String
four_namespaces = "load-0" ∷ "load-1" ∷ "load-2" ∷ "load-3" ∷ []

abbrev first : ℕ → ℕ
first k = 0

churn_window_lem_example :
    ((ys : List String) × ((slice four_namespaces
            (random_start first 2 4 (align 2 4 (percent_of (pos 25) 4)))
            (align 2 4 (percent_of (pos 25) 4)
              + random_start first 2 4 (align 2 4 (percent_of (pos 25) 4)))
          ≡ some ys)
        × (length ys ≡ align 2 4 (percent_of (pos 25) 4))))
    × ((random_start first 2 4 (align 2 4 (percent_of (pos 25) 4)) % 2 ≡ 0)
        × (align 2 4 (percent_of (pos 25) 4) % 2 ≡ 0))
churn_window_lem_example =
    churn_window_lem four_namespaces first 25 2 (omega arith) (omega arith) (omega arith)
      (omega arith) (λ k h. h)

abbrev three_pods : List Item
three_pods =
    record { body = rendered_pod; creation = 7 }
    ∷ record { body = rendered_pod; creation = 4 }
    ∷ record { body = rendered_pod; creation = 9 }
    ∷ []

items_to_churn_lem_example :
    (others : List ChurnDeletedObject) × (Perm
        (items_to_churn pods_job.churn_config pods three_pods ++ others)
        (as_deleted pods three_pods)
      × (All (λ o. All (NoYounger o) others) (items_to_churn pods_job.churn_config pods three_pods)
          × (length (items_to_churn pods_job.churn_config pods three_pods) ≡ 1)))
items_to_churn_lem_example =
    items_to_churn_lem pods_job.churn_config pods three_pods 25 refl (omega arith) (omega arith)
      (omega arith)

churn_namespaces_of-Ends_example : Ends (churn_namespaces_of serving 4 start_world)
churn_namespaces_of-Ends_example =
    churn_namespaces_of-Ends serving 4 2 start_world refl (omega arith)
