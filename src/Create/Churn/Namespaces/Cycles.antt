-- ===== src/Create/Churn/Namespaces/Cycles.antt =====
-- churnNamespaces ends where the job states a number of cycles.
use kube_burner.Prelude.{
  ℕ, zero, suc, ◌+◌, ◌<◌, String, Bool, false, List, [], ◌∷◌, ◌++◌, Option, none, some, ◌≡◌, arith,
  Bool-cases, inl, inr, Option-cases,
}
use kube_burner.Prelude.Int.{pos}
use kube_burner.Config.Types.{ChurnConfig}
use kube_burner.Executor.{Cluster, World, M, ◌>>=◌}
use kube_burner.Create.Churn.Deletion.{ClusterScopedObjectCache, preload_cluster_scoped_objects}
use kube_burner.Create.Churn.Namespaces.{
  ChurnEnd, churned, churn_loop, churn_namespaces_of, sort_namespaces, churn_round, is_churn_over,
}

-- An outcome is not the end of the fuel.
pub data Ends : Option (ChurnEnd × World) → Type 0 where
  stopped : Ends none
  ended : (errs : List String) (w : World) → Ends (some (churned errs, w))

bind-Ends :
    {A : Type 0} (m : M A) (f : A → M ChurnEnd) (w : World)
    → ((a : A) (w' : World) → Ends (f a w'))
    → Ends ((m >>= f) w)
bind-Ends {A} m f w h = go (m w)
  where
    go : (o : Option (A × World)) → Ends (elim o [ none ↦ none | some (a, w') ↦ f a w' ])
    go none = stopped
    go (some (a, w')) = h a w'

before :
    (cfg : ChurnConfig) (fired : Bool) (count c : ℕ)
    → cfg.cycles ≡ pos (suc c)
    → is_churn_over cfg fired count ≡ false
    → count < suc c
unfolding is_churn_over
before cfg fired count c e h = ground arith

churn_loop-Ends :
    (k : Cluster) (fuel c : ℕ) (cfg : ChurnConfig) (caches : List ClusterScopedObjectCache)
    (names : List String) (r n count : ℕ) (errs : List String) (w : World)
    → cfg.cycles ≡ pos (suc c)
    → suc c < fuel + count
    → 0 < fuel
    → Ends (churn_loop k fuel cfg caches names r n count errs w)
unfolding churn_loop
churn_loop-Ends k zero c cfg caches names r n count errs w e h h0 = absurd (omega arith)
churn_loop-Ends k (suc fuel) c cfg caches names r n count errs w e h h0 =
    elim (Bool-cases (is_churn_over cfg (k.timer w.clock) count)) [
      | inl done ↦ rw done (ended errs _)
      | inr going ↦
          let below : count < suc c = before cfg (k.timer w.clock) count c e going in
          rw going (
            bind-Ends (churn_round k cfg caches names r n)
              (λ more.
                churn_loop k fuel cfg caches (sort_namespaces k names) r n (suc count)
                  (errs ++ more))
              (record w { clock = suc w.clock })
              (λ more w'.
                churn_loop-Ends k fuel c cfg caches (sort_namespaces k names) r n (suc count)
                  (errs ++ more) w' e (omega arith) (omega arith)))
    ]

-- The churning of namespaces with a number of cycles above 0 does not run on: with fuel for one
-- round more than the cycles it ends, with errors or by a fatal error, whatever the cluster answers.
pub churn_namespaces_of-Ends :
    (k : Cluster) (fuel c : ℕ) (w : World)
    → w.executor.job.churn_config.cycles ≡ pos (suc c)
    → suc c < fuel
    → Ends (churn_namespaces_of k fuel w)
unfolding churn_namespaces_of
churn_namespaces_of-Ends k fuel c w e h = elim (Option-cases (k.list_namespaces w.clock)) [
  | inl failed ↦ rw failed (ended ("unable to list namespaces" ∷ []) _)
  | inr (names, listed) ↦ rw listed (
      bind-Ends (preload_cluster_scoped_objects k) _ (record w { clock = suc w.clock })
        (λ caches w'.
          churn_loop-Ends k fuel c w.executor.job.churn_config caches names _ _ 0 [] w' e
            (omega arith) (omega arith)))
]
