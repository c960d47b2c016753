-- ===== src/Create/Churn/Namespaces.antt =====
-- pkg/burner/create.go: churnNamespaces. Its endless loop has fuel, and what the fuel does not
-- suffice for is `out_of_fuel`. ex.ChurnConfig, which nothing writes, is read once; the context of
-- the cleanup, with its timeout, is not kept.
pub mod Cycles
use kube_burner.Prelude.{
  ℕ, zero, suc, ◌+◌, ◌-◌, String, Bool, true, false, not, ◌&&◌, List, [], ◌∷◌, ◌++◌, Option, none,
  some, if◌then◌else◌, length, leb, range_from,
}
use kube_burner.Prelude.Int.{ℤ, pos, pos_part, ltb_ℤ, leb_ℤ}
use kube_burner.Prelude.Maps.{insert}
use kube_burner.Config.Types.{ChurnConfig}
use kube_burner.Executor.{
  JobExecutor, Cluster, namespace_labelled, namespaces_cleaned, slept, M, pure, ◌>>=◌, ◌>>◌, fatal,
  get_executor, set_executor, emit, ask,
}
use kube_burner.Create.Default.{sleep}
use kube_burner.Create.Run.{run_create_job}
use kube_burner.Create.Churn.Deletion.{
  ClusterScopedObjectCache, preload_cluster_scoped_objects, delete_cluster_scoped_objects,
  verify_delete,
}
use kube_burner.Create.Churn.Window.{percent_of, churn_repeat, align, random_start, slice}

pub data ChurnEnd : Type 0 where
  out_of_fuel : ChurnEnd
  churned : List String → ChurnEnd

-- Whether the loop is left before a cycle: the duration is over, or the cycles are done.
pub is_churn_over : ChurnConfig → Bool → ℕ → Bool
is_churn_over cfg fired count =
    if ltb_ℤ (pos 0) cfg.duration && fired
    then true
    else ltb_ℤ (pos 0) cfg.cycles && leb_ℤ cfg.cycles (pos count)

module _ (k : Cluster) where
  -- The number after the last '-', 0 where there is none.
  namespace_number : String → ℤ
  namespace_number name = k.atoi (k.after_last_dash name)

  insert_namespace : String → List String → List String
  insert_namespace name [] = name ∷ []
  insert_namespace name (other ∷ others) =
      let rest = insert_namespace name others in
      if leb_ℤ (namespace_number name) (namespace_number other)
      then name ∷ other ∷ others
      else other ∷ rest

  -- The natural sort of the namespaces.
  pub sort_namespaces : List String → List String
  sort_namespaces [] = []
  sort_namespaces (name ∷ names) = insert_namespace name (sort_namespaces names)

  -- The namespaces are labelled for deletion and no longer count as created; the errors.
  label_namespaces : List String → M (List String)
  label_namespaces [] = pure []
  label_namespaces (ns ∷ nss) = do
    failed ← ask (λ n. k.patch_err n ns)
    emit (namespace_labelled ns)
    ex ← get_executor
    set_executor (record ex { created_namespaces = insert ns false ex.created_namespaces })
    errs ← label_namespaces nss
    pure (if failed then ns ∷ errs else errs)

  -- A cycle, once its window of `n` namespaces from `start` is known.
  churn_window : ChurnConfig → List ClusterScopedObjectCache → List String → ℕ → ℕ → M (List String)
  churn_window cfg caches names start n = elim (slice names start (n + start)) [
    | none ↦ fatal
    | some window ↦ do
      errs ← label_namespaces window
      deleted ← delete_cluster_scoped_objects k caches (range_from start n)
      emit namespaces_cleaned
      verify_delete deleted
      sleep k cfg.delete_delay
      job_errs ← run_create_job k start (n + start)
      emit (slept cfg.delay)
      pure (errs ++ job_errs)
  ]

  churn_round : ChurnConfig → List ClusterScopedObjectCache → List String → ℕ → ℕ → M (List String)
  churn_round cfg caches names r n = do
    start ← ask (λ c. random_start (k.random c) r (length names) n)
    churn_window cfg caches (sort_namespaces names) start n

  pub churn_loop :
      ℕ
      → ChurnConfig
      → List ClusterScopedObjectCache
      → List String
      → ℕ
      → ℕ
      → ℕ
      → List String
      → M ChurnEnd
  churn_loop zero cfg caches names r n count errs = pure out_of_fuel
  churn_loop (suc fuel) cfg caches names r n count errs =
      let next = churn_loop fuel cfg caches (sort_namespaces names) r n (suc count) in
      do
        fired ← ask k.timer
        if is_churn_over cfg fired count
            then pure (churned errs)
            else do more ← churn_round cfg caches names r n; next (errs ++ more)

  pub churn_namespaces_of : ℕ → M ChurnEnd
  churn_namespaces_of fuel = do
    ex ← get_executor
    listed ← ask k.list_namespaces
    elim listed [
      | none ↦ pure (churned ("unable to list namespaces" ∷ []))
      | some names ↦ do
        caches ← preload_cluster_scoped_objects k
        let r = churn_repeat ex.objects
        let n = align r (length names) (percent_of ex.job.churn_config.percent (length names))
        churn_loop fuel ex.job.churn_config caches names r n 0 []
    ]
