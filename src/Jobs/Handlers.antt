-- ===== src/Jobs/Handlers.antt =====
-- The item handlers of pkg/burner/delete.go, patch.go and read.go, and verifyDelete. A handler's
-- goroutine is one step: it records the call that it makes, whose error is only logged, but for a
-- patch that is forbidden. The polling of verifyDelete, whose result is not used, is an event.
use kube_burner.Prelude.{ℕ, String, ◌&&◌, none, some, if◌then◌else◌, str_eq}
use kube_burner.Executor.{
  Cluster, Item, ManagedObject, ItemHandler, no_handler, delete_handler, patch_handler,
  read_handler, object_deleted, object_patched, object_read, deletion_awaited, M, pure, ◌>>=◌, ◌>>◌,
  fatal, emit, ask,
}

-- The namespace of a call: none for the resources of the cluster's scope.
abbrev pub call_namespace : ManagedObject → Item → String
call_namespace obj item = if obj.namespaced then item.body.namespace else ""

abbrev pub apply_patch_type : String
apply_patch_type = "application/apply-patch+yaml"

unfoldable pub delete_one : ManagedObject → Item → M (Unit {0})
delete_one obj item = emit (object_deleted obj.gvr (call_namespace obj item) item.body.name)

unfoldable pub read_one : ManagedObject → Item → M (Unit {0})
read_one obj item = emit (object_read obj.gvr (call_namespace obj item) item.body.name)

unfoldable pub await_deletion : ManagedObject → M (Unit {0})
await_deletion obj = emit (deletion_awaited obj.gvr obj.label_selector)

module _ (k : Cluster) where
  unfoldable pub patch_one : ManagedObject → Item → ℕ → M (Unit {0})
  patch_one obj item iteration =
      if k.is_json obj.object_template && str_eq obj.patch_type apply_patch_type
      then fatal
      else elim (k.render obj iteration 0) [
        | none ↦ fatal
        | some documents ↦ do
          emit (object_patched obj.gvr (call_namespace obj item) item.body.name obj.patch_type)
          refused ← ask (λ n. k.forbidden n item.body.name)
          if refused then fatal else pure tt
      ]

  -- ex.itemHandler(…); calling a nil function panics.
  unfoldable pub handle_item : ItemHandler → ManagedObject → Item → ℕ → M (Unit {0})
  handle_item no_handler obj item iteration = fatal
  handle_item delete_handler obj item iteration = delete_one obj item
  handle_item patch_handler obj item iteration = patch_one obj item iteration
  handle_item read_handler obj item iteration = read_one obj item
