-- ===== src/Create/Objects.antt =====
-- pkg/burner/create.go and utils.go: the object templates of a job, their kinds, groups and labels.
-- A pointer into ex.objects is a place in that list.
pub mod Groups
pub mod Lifecycle
use kube_burner.Prelude.{
  ℕ, zero, suc, ◌+◌, ◌%◌, String, Bool, true, false, not, ◌&&◌, ◌||◌, List, [], ◌∷◌, ◌++◌, Option,
  none, some, if◌then◌else◌, str_eq, get_elem?, set, any, leb, ltb, length,
}
use kube_burner.Prelude.{◌==◌}
use kube_burner.Prelude.Int.{ℤ, pos, pos_part, ltb_ℤ, eqb_ℤ}
use kube_burner.Prelude.Maps.{insert}
use kube_burner.Prelude.Text.{itoa_nat}
use kube_burner.Config.Types.{Labels, Object}
use kube_burner.Executor.{
  JobExecutor, World, Cluster, ManagedObject, Mapping, GroupVersionKind, is_no_gvr, M, pure, ◌>>=◌,
  ◌>>◌, fatal, get_executor, set_executor, emit, ask, for_each,
}

-- objectGroupEntry: the number of a group, and its objects' places.
pub record GroupEntry : Type 0 where
  pub number : ℤ
  pub places : List ℕ

-- groupMap[n] = append(groupMap[n], obj): a new number goes to the end of the entries.
add_to_group : ℤ → ℕ → List GroupEntry → List GroupEntry
add_to_group n place [] = record { number = n; places = place ∷ [] } ∷ []
add_to_group n place (g ∷ gs) =
    if eqb_ℤ g.number n
    then record g { places = g.places ++ (place ∷ []) } ∷ gs
    else g ∷ add_to_group n place gs

group_map : ℕ → List ManagedObject → List GroupEntry → List GroupEntry
group_map place [] groups = groups
group_map place (obj ∷ objs) groups =
    group_map (suc place) objs (add_to_group obj.group.id place groups)

-- sort.Slice by the number.
insert_group : GroupEntry → List GroupEntry → List GroupEntry
insert_group g [] = g ∷ []
insert_group g (h ∷ hs) = if ltb_ℤ h.number g.number then h ∷ insert_group g hs else g ∷ h ∷ hs

sort_groups : List GroupEntry → List GroupEntry
sort_groups [] = []
sort_groups (g ∷ gs) = insert_group g (sort_groups gs)

pub group_objects_by_number : List ManagedObject → List GroupEntry
group_objects_by_number objs = sort_groups (group_map 0 objs [])

-- The largest pauses of a group's objects, from 0, and whether one of them is collected.
pub record Pauses : Type 0 where
  pub before : ℤ
  pub after : ℤ
  pub has_gc : Bool

max_pause : ℤ → ℤ → ℤ
max_pause pause longest = if ltb_ℤ longest pause then pause else longest

lifecycle_from : Pauses → List ManagedObject → Pauses
lifecycle_from p [] = p
lifecycle_from p (obj ∷ objs) =
    lifecycle_from
      (record {
        before = max_pause obj.group.pause_before_gc p.before;
        after = max_pause obj.group.pause_after_gc p.after;
        has_gc = obj.group.gc || p.has_gc;
      })
      objs

pub get_group_lifecycle_pauses : List ManagedObject → Pauses
get_group_lifecycle_pauses =
    lifecycle_from (record { before = pos 0; after = pos 0; has_gc = false })

-- Reads through a pointer; a place out of range does not occur.
pub object_at : JobExecutor → ℕ → Option ManagedObject
object_at ex place = get_elem? ex.objects place

-- Whether an object is to be created in an iteration.
unfoldable pub is_due : Object → ℕ → Bool
is_due obj i =
    if obj.run_once
    then i == 0
    else if ltb_ℤ (pos 1) obj.repeat_every_n_iterations
    then i % pos_part obj.repeat_every_n_iterations == 0
    else true

-- ex.objects[place] with new fields, as a write through the pointer.
pub write_object : ℕ → ManagedObject → M (Unit {0})
write_object place obj = do
  ex ← get_executor
  set_executor (record ex { objects = set ex.objects place obj })

-- The object once its kind has been mapped.
mapped : ManagedObject → Mapping → GroupVersionKind → ManagedObject
mapped obj mapping gvk = record obj {
  object = record (obj.object) { kind = gvk.kind };
  gvr = mapping.resource;
  namespaced = mapping.in_namespace;
}

-- if obj.namespaced && obj.namespace == "" { ex.nsRequired = true }
unfoldable pub require_namespace : ManagedObject → M (Unit {0})
require_namespace obj = do
  ex ← get_executor
  if obj.namespaced && str_eq obj.namespace ""
      then set_executor (record ex { ns_required = true })
      else pure tt

module _ (k : Cluster) where
  -- ex.resolveObjectMapping(obj): ex.mapper.Reset is an inner matter of the mapper.
  pub resolve_object_mapping : ℕ → ManagedObject → M (Unit {0})
  resolve_object_mapping place obj = do
    found ← ask (λ n. k.rest_mapping n obj.gvk)
    elim found [
      | none ↦ fatal
      | some mapping ↦ do
        write_object place (mapped obj mapping obj.gvk)
        require_namespace (mapped obj mapping obj.gvk)
    ]

  probe_mapped : ℕ → ManagedObject → GroupVersionKind → Option Mapping → M (Unit {0})
  probe_mapped place obj gvk none = pure tt
  probe_mapped place obj gvk (some mapping) = do
    write_object place (mapped obj mapping gvk)
    require_namespace (mapped obj mapping gvk)

  probe_kind : ℕ → ManagedObject → Option GroupVersionKind → M (Unit {0})
  probe_kind place obj none = pure tt
  probe_kind place obj (some gvk) = do
    found ← ask (λ n. k.rest_mapping n gvk)
    probe_mapped place obj gvk found

  -- The probe of one object: a failure to render it, a document that is not there and a kind that
  -- is not known yet are passed over.
  probe_object : ℕ → ℕ → ManagedObject → M (Unit {0})
  probe_object iteration_start place obj =
      if not obj.dynamic_gvk then pure tt else elim (k.probe obj iteration_start) [
        | none ↦ pure tt
        | some gvks ↦ probe_kind place obj (get_elem? gvks obj.document_index)
      ]

  probe_objects : ℕ → ℕ → List ManagedObject → M (Unit {0})
  probe_objects iteration_start place [] = pure tt
  probe_objects iteration_start place (obj ∷ objs) = do
    probe_object iteration_start place obj
    probe_objects iteration_start (suc place) objs

  pub resolve_dynamic_objects : ℕ → M (Unit {0})
  resolve_dynamic_objects iteration_start = do
    ex ← get_executor
    probe_objects iteration_start 0 ex.objects
