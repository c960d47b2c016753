-- ===== src/Gc.antt =====
-- pkg/burner/job.go: gc, the deletion of what a job has created. Errors of deletions and of waits
-- are logged only; ex.limiter.Wait, whose errors are ignored, is left out.
use kube_burner.Prelude.{
  String, false, not, ◌||◌, List, [], ◌∷◌, Option, none, some, if◌then◌else◌, str_eq,
}
use kube_burner.Prelude.Maps.{insert}
use kube_burner.Config.Types.{Labels}
use kube_burner.Executor.{
  JobExecutor, Cluster, ManagedObject, namespaces_cleaned, namespaces_cleaned_by_gvr,
  deleted_collection, waited_for_deletion, cluster_scoped_cleaned, M, pure, ◌>>=◌, ◌>>◌,
  get_executor, set_executor, emit, ask, for_each,
}

-- The namespaces no longer count as created.
mark_deleted : String → M (Unit {0})
mark_deleted ns = do
  ex ← get_executor
  set_executor (record ex { created_namespaces = insert ns false ex.created_namespaces })

gc_by_gvr : Option (List String) → M (Unit {0})
gc_by_gvr none = pure tt
gc_by_gvr (some namespaces) = do
  for_each namespaces mark_deleted
  emit (namespaces_cleaned_by_gvr namespaces)
  emit namespaces_cleaned

gc_by_label : Option (List String) → M (Unit {0})
gc_by_label none = emit namespaces_cleaned
gc_by_label (some namespaces) = do for_each namespaces mark_deleted; emit namespaces_cleaned

gc_selector : JobExecutor → Labels
gc_selector ex = ("kube-burner.io/job", ex.job.name) ∷ []

-- The objects with a namespace of their own.
gc_fixed : JobExecutor → ManagedObject → M (Unit {0})
gc_fixed ex obj = if not obj.namespaced || str_eq obj.namespace "" then pure tt else do
  emit (deleted_collection obj obj.namespace (gc_selector ex))
  emit (waited_for_deletion obj obj.namespace (gc_selector ex))

gc_cluster_scoped : ManagedObject → M (Unit {0})
gc_cluster_scoped obj = if obj.namespaced then pure tt else emit (cluster_scoped_cleaned obj)

pub gc : Cluster → M (Unit {0})
gc k = do
  ex ← get_executor
  listed ← ask k.list_namespaces
  if str_eq ex.deletion_strategy "gvr" then gc_by_gvr listed else gc_by_label listed
  for_each ex.objects (gc_fixed ex)
  for_each ex.objects gc_cluster_scoped
