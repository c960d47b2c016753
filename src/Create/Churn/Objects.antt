-- ===== src/Create/Churn/Objects.antt =====
-- pkg/burner/create.go: churnObjects and reCreateDeletedObjects. The endless loop has fuel, as in
-- churnNamespaces; goroutines run in the order in which they are started, the affected namespaces
-- are waited for in the order of their first object, and lists are sorted stably. trimObject clears
-- fields that `Rendered` does not hold. ex.limiter.Wait, whose errors are ignored, is left out.
pub mod Oldest
use kube_burner.Prelude.{
  ℕ, zero, suc, ◌+◌, String, Bool, true, false, not, ◌&&◌, ◌||◌, List, [], ◌∷◌, ◌++◌, map, Option,
  none, some, if◌then◌else◌, length, leb, min, take, any, keep, range_from, str_eq,
}
use kube_burner.Config.Types.{ChurnConfig, Labels}
use kube_burner.Executor.{
  JobExecutor, Cluster, ManagedObject, GroupVersionResource, Item, object_deleted, slept, M, pure,
  ◌>>=◌, ◌>>◌, get_executor, emit, ask, for_each,
}
use kube_burner.Waiters.{wait_for_objects}
use kube_burner.Create.Objects.{write_object}
use kube_burner.Create.Requests.{attempts}
use kube_burner.Create.Default.{read_object, sleep}
use kube_burner.Create.Churn.Deletion.{ChurnDeletedObject, verify_delete}
use kube_burner.Create.Churn.Window.{percent_of}
use kube_burner.Create.Churn.Namespaces.{ChurnEnd, out_of_fuel, churned, is_churn_over}

insert_oldest : ChurnDeletedObject → List ChurnDeletedObject → List ChurnDeletedObject
insert_oldest o [] = o ∷ []
insert_oldest o (p ∷ ps) =
    let rest = insert_oldest o ps in
    if leb o.object.creation p.object.creation then o ∷ p ∷ ps else p ∷ rest

-- By creation timestamp.
pub sort_oldest : List ChurnDeletedObject → List ChurnDeletedObject
sort_oldest [] = []
sort_oldest (o ∷ os) = insert_oldest o (sort_oldest os)

-- The label selector without the labels of one iteration or replica.
churn_selector : Labels → Labels
churn_selector selector =
    keep
      (λ (l : String × String).
        not (str_eq l.0 "kube-burner.io/job-iteration" || str_eq l.0 "kube-burner.io/replica"))
      selector

-- The oldest items, as many as the percentage asks for.
pub items_to_churn : ChurnConfig → GroupVersionResource → List Item → List ChurnDeletedObject
items_to_churn cfg gvr items =
    take (min (percent_of cfg.percent (length items)) (length items))
      (sort_oldest (map (λ (item : Item). record { object = item; gvr = gvr }) items))

delete_item : ManagedObject → ChurnDeletedObject → M (Unit {0})
delete_item obj o = emit (
    object_deleted obj.gvr (if obj.namespaced then o.object.body.namespace else "")
      o.object.body.name)

affected_namespaces : List ChurnDeletedObject → List String → List String
affected_namespaces [] seen = seen
affected_namespaces (o ∷ os) seen = affected_namespaces os (
    if str_eq o.object.body.namespace "" || any (λ ns. str_eq ns o.object.body.namespace) seen
    then seen
    else seen ++ (o.object.body.namespace ∷ []))

module _ (k : Cluster) where
  churn_listed : ChurnConfig → ManagedObject → Option (List Item) → M (List ChurnDeletedObject)
  churn_listed cfg obj none = pure []
  churn_listed cfg obj (some []) = pure []
  churn_listed cfg obj (some (item ∷ items)) = do
    let chosen = items_to_churn cfg obj.gvr (item ∷ items)
    for_each chosen (delete_item obj)
    pure chosen

  -- The deleted objects of one template. The labels are deleted from the object's own selector.
  churn_object : ChurnConfig → ℕ → M (List ChurnDeletedObject)
  churn_object cfg place = do
    obj ← read_object place
    if not obj.churn then pure [] else do
      let selector = churn_selector obj.label_selector
      write_object place (record obj { object = record obj.object { label_selector = selector } })
      listed ← ask (λ n. k.list_objects n obj selector)
      churn_listed cfg obj listed

  churn_all : ChurnConfig → List ℕ → M (List ChurnDeletedObject)
  churn_all cfg [] = pure []
  churn_all cfg (place ∷ places) = do
    deleted ← churn_object cfg place
    others ← churn_all cfg places
    pure (deleted ++ others)

  re_create : ChurnDeletedObject → M (Unit {0})
  re_create o = do
    ex ← get_executor
    attempts k (k.backoff_steps ex.job.max_wait_timeout) o.gvr o.object.body.namespace o.object.body

  wait_namespace : String → M (Unit {0})
  wait_namespace ns = do _ ← wait_for_objects k ns none; pure tt

  pub re_create_deleted_objects : List ChurnDeletedObject → M (Unit {0})
  re_create_deleted_objects os = do
    for_each os re_create
    for_each (affected_namespaces os []) wait_namespace

  churn_objects_round : ChurnConfig → M (Unit {0})
  churn_objects_round cfg = do
    ex ← get_executor
    deleted ← churn_all cfg (range_from 0 (length ex.objects))
    verify_delete (sort_oldest deleted)
    sleep k cfg.delete_delay
    re_create_deleted_objects (sort_oldest deleted)
    emit (slept cfg.delay)

  pub churn_objects_loop : ℕ → ChurnConfig → ℕ → M ChurnEnd
  churn_objects_loop zero cfg count = pure out_of_fuel
  churn_objects_loop (suc fuel) cfg count =
      let next = churn_objects_loop fuel cfg (suc count) in
      do
        fired ← ask k.timer
        if is_churn_over cfg fired count
            then pure (churned [])
            else do churn_objects_round cfg; next
