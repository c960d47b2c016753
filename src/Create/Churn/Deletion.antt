-- ===== src/Create/Churn/Deletion.antt =====
-- pkg/burner/create.go: preloadClusterScopedObjects, deleteClusterScopedObjects and verifyDelete.
-- The goroutines of verifyDelete run in the order in which they are started.
use kube_burner.Prelude.{
  ℕ, ◌%◌, ◌+◌, String, Bool, true, false, List, [], ◌∷◌, ◌++◌, map, Option, none, some,
  if◌then◌else◌, ◌==◌, keep,
}
use kube_burner.Prelude.Int.{ℤ, pos, pos_part, neg_part, eqb_ℤ}
use kube_burner.Prelude.Maps.{lookup}
use kube_burner.Config.Types.{Labels}
use kube_burner.Executor.{
  Cluster, ManagedObject, GroupVersionResource, Item, object_labelled, cluster_scoped_cleaned,
  deletion_verified, M, pure, ◌>>=◌, ◌>>◌, fatal, get_executor, emit, ask,
}

-- churnDeletedObject
pub record ChurnDeletedObject : Type 0 where
  pub object : Item
  pub gvr : GroupVersionResource

-- clusterScopedObjectCache, whose map from iterations is the list of its items, each with its
-- iteration.
pub record ClusterScopedObjectCache : Type 0 where
  pub obj : ManagedObject
  pub items_by_iteration : List (ℤ × Item)

label_text : Option String → String
label_text none = ""
label_text (some s) = s

items_at : ℕ → List (ℤ × Item) → List Item
items_at i items = map (λ e. e.1) (keep (λ (e : ℤ × Item). eqb_ℤ e.0 (pos i)) items)

module _ (k : Cluster) where
  -- The iteration that an object's label states, 0 without one.
  iteration_of : Item → ℤ
  iteration_of item = k.atoi (label_text (lookup "kube-burner.io/job-iteration" item.body.labels))

  preload_objects : Labels → List ManagedObject → M (List ClusterScopedObjectCache)
  preload_objects selector [] = pure []
  preload_objects selector (obj ∷ objs) =
      let rest = preload_objects selector objs in
      if obj.namespaced then rest else do
        listed ← ask (λ n. k.list_objects n obj selector)
        caches ← rest
        pure (elim listed [
          | none ↦ caches
          | some items ↦
              record {
                obj = obj;
                items_by_iteration = map (λ item. (iteration_of item, item)) items;
              }
              ∷ caches
        ])

  pub preload_cluster_scoped_objects : M (List ClusterScopedObjectCache)
  preload_cluster_scoped_objects = do
    ex ← get_executor
    preload_objects (("kube-burner.io/job", ex.job.name) ∷ ("kube-burner.io/uuid", ex.uuid) ∷ [])
        ex.objects

  -- The items are marked for deletion; those that could be are the result.
  mark_items : GroupVersionResource → List Item → M (List ChurnDeletedObject)
  mark_items gvr [] = pure []
  mark_items gvr (item ∷ items) = do
    failed ← ask (λ n. k.patch_err n item.body.name)
    emit (object_labelled gvr item.body.name)
    marked ← mark_items gvr items
    pure (if failed then marked else record { object = item; gvr = gvr } ∷ marked)

  -- i%RepeatEveryNIterations == 0, which panics for 0.
  is_repeat : ℕ → ℤ → Option Bool
  is_repeat i r = if eqb_ℤ r (pos 0) then none else some (i % (pos_part r + neg_part r) == 0)

  delete_iterations : ClusterScopedObjectCache → List ℕ → M (List ChurnDeletedObject)
  delete_iterations cache [] = pure []
  delete_iterations cache (i ∷ is) =
      let rest = delete_iterations cache is in
      elim (is_repeat i cache.obj.repeat_every_n_iterations) [
        | none ↦ fatal
        | some false ↦ rest
        | some true ↦ do
          marked ← mark_items cache.obj.gvr (items_at i cache.items_by_iteration)
          others ← rest
          pure (marked ++ others)
      ]

  pub delete_cluster_scoped_objects :
      List ClusterScopedObjectCache → List ℕ → M (List ChurnDeletedObject)
  delete_cluster_scoped_objects [] iterations = pure []
  delete_cluster_scoped_objects (cache ∷ caches) iterations = do
    deleted ← delete_iterations cache iterations
    emit (cluster_scoped_cleaned cache.obj)
    others ← delete_cluster_scoped_objects caches iterations
    pure (deleted ++ others)

-- Polls until the object is not found, or the context is done.
pub verify_delete : List ChurnDeletedObject → M (Unit {0})
verify_delete [] = pure tt
verify_delete (o ∷ os) = do
  emit (deletion_verified o.gvr o.object.body.namespace o.object.body.name)
  verify_delete os
