-- ===== src/Config/Merge/Paths.antt =====
-- What --set leaves at the end of a path through the configuration.
use kube_burner.Prelude.{String, List, [], ◌∷◌, Option, none, some, ◌≡◌, refl, ap, ◌∙◌}
use kube_burner.Prelude.Int.{ℤ}
use kube_burner.Config.Merge.{
  Scalar, Value, scalar, slice, mapping, Entries, get_entry, deep_merge, merge_value,
}
use kube_burner.Config.Merge.Pointwise.{AreDistinct, merged, deep_merge-get}

-- The value at the end of a path of keys; a path does not go through a slice.
unfoldable pub get_path : {Float : Type 0} → List String → Value Float → Option (Value Float)
get_path [] val = some val
get_path (key ∷ keys) val = elim val [
  | scalar s ↦ none
  | slice xs ↦ none
  | mapping entries ↦ elim (get_entry key entries) [
    | none ↦ none
    | some below ↦ get_path keys below
  ]
]

abbrev get_below : {Float : Type 0} → List String → Option (Value Float) → Option (Value Float)
get_below keys none = none
get_below keys (some val) = get_path keys val

-- A value that replaces another one: a scalar or a slice.
abbrev pub IsLeaf : {Float : Type 0} → Value Float → Type 0
IsLeaf (scalar s) = Unit
IsLeaf (slice xs) = Unit
IsLeaf (mapping entries) = ⊥

-- What a path leads to behind the merging of a source into a configuration, key by key: the value of
-- the source where it is a scalar or a slice, or where the configuration has none or a scalar there,
-- which it replaces as a whole; what the configuration has where the source has no such key; and
-- where both have a map, what the rest of the path leads to in these.
pub data Reads {Float : Type 0}
    : List String → Entries Float → Entries Float → Option (Value Float) → Type 0 where
  kept :
      (key : String) (keys : List String) (src dst : Entries Float)
      → get_entry key src ≡ none
      → Reads (key ∷ keys) src dst (get_path (key ∷ keys) (mapping dst))
  replaced :
      (key : String) (keys : List String) (src dst : Entries Float) (val : Value Float)
      → get_entry key src ≡ some val
      → IsLeaf val
      → Reads (key ∷ keys) src dst (get_path keys val)
  added :
      (key : String) (keys : List String) (src dst : Entries Float) (val : Value Float)
      → get_entry key src ≡ some val
      → get_entry key dst ≡ none
      → Reads (key ∷ keys) src dst (get_path keys val)
  overridden :
      (key : String) (keys : List String) (src dst : Entries Float) (val : Value Float)
      (s : Scalar Float)
      → get_entry key src ≡ some val
      → get_entry key dst ≡ some (scalar s)
      → Reads (key ∷ keys) src dst (get_path keys val)
  deeper :
      (key next : String) (keys : List String) (src dst below old : Entries Float)
      (found : Option (Value Float))
      → get_entry key src ≡ some (mapping below)
      → get_entry key dst ≡ some (mapping old)
      → AreDistinct below
      → Reads (next ∷ keys) below old found
      → Reads (key ∷ next ∷ keys) src dst found

module _ {Float : Type 0} (atoi : String → Option ℤ) where
  at_key :
      (key : String) (keys : List String) (src dst : Entries Float) (new old : Option (Value Float))
      → AreDistinct src
      → get_entry key src ≡ new
      → get_entry key dst ≡ old
      → get_path (key ∷ keys) (mapping (deep_merge atoi src dst))
        ≡ get_below keys (merged atoi old new)
  unfolding get_path
  at_key key keys src dst new old distinct e f = ap (get_below keys) (
      deep_merge-get atoi src dst key distinct
      ∙ ap (λ found. merged atoi found (get_entry key src)) f
      ∙ ap (merged atoi old) e)

  leaf_over :
      (keys : List String) (val : Value Float) (old : Option (Value Float))
      → IsLeaf val
      → get_below keys (merged atoi old (some val)) ≡ get_path keys val
  unfolding get_path merge_value
  leaf_over keys val none leaf = refl
  leaf_over keys (scalar s) (some old) leaf = refl
  leaf_over keys (slice xs) (some old) leaf = refl
  leaf_over keys (mapping entries) (some old) leaf = absurd leaf

  over_scalar :
      (keys : List String) (val : Value Float) (s : Scalar Float)
      → get_below keys (merged atoi (some (scalar s)) (some val)) ≡ get_path keys val
  unfolding get_path merge_value
  over_scalar keys (scalar t) s = refl
  over_scalar keys (slice xs) s = refl
  over_scalar keys (mapping entries) s = refl

  -- A path through maps leads behind deepMerge to what the merging key by key gives: the source's
  -- value where it is a scalar or a slice, or where the configuration has no value or a scalar, the
  -- configuration's own where the source has no such key, and where both have maps what the rest of
  -- the path leads to in these. The keys of a map of the source differ, as those of every map do, and
  -- the path meets no slice of the configuration over which the source has a map.
  pub deep_merge-Reads :
      (path : List String) (src dst : Entries Float) (found : Option (Value Float))
      → AreDistinct src
      → Reads path src dst found
      → get_path path (mapping (deep_merge atoi src dst)) ≡ found
  unfolding get_path merge_value
  deep_merge-Reads _ src dst _ distinct (kept key keys _ _ e) =
      at_key key keys src dst none (get_entry key dst) distinct e refl
  deep_merge-Reads _ src dst _ distinct (replaced key keys _ _ val e leaf) =
      at_key key keys src dst (some val) (get_entry key dst) distinct e refl
      ∙ leaf_over keys val (get_entry key dst) leaf
  deep_merge-Reads _ src dst _ distinct (added key keys _ _ val e f) =
      at_key key keys src dst (some val) none distinct e f
  deep_merge-Reads _ src dst _ distinct (overridden key keys _ _ val s e f) =
      at_key key keys src dst (some val) (some (scalar s)) distinct e f ∙ over_scalar keys val s
  deep_merge-Reads _ src dst found distinct (deeper key next keys _ _ below old _ e f fresh rest) =
      at_key key (next ∷ keys) src dst (some (mapping below)) (some (mapping old)) distinct e f
      ∙ deep_merge-Reads (next ∷ keys) below old found fresh rest
