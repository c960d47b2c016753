-- ===== src/Config/Merge.antt =====
-- pkg/config/config.go: the values of --set (ParseSetValues, setNestedValue) and their merging into
-- the configuration (deepMerge). A Go map is a chain of entries whose keys differ; maps inside a map
-- are not shared, so that they are values. The functions of strings and strconv are a record.
pub mod Nested
pub mod Pointwise
pub mod Paths
use kube_burner.Prelude.{
  ℕ, zero, suc, String, str_eq, Bool, true, false, List, [], ◌∷◌, Option, none, some, if◌then◌else◌,
}
use kube_burner.Prelude.Int.{ℤ, pos, negsuc}

-- What parseValue gives, and the scalars of YAML.
pub data Scalar (Float : Type 0) : Type 0 where
  int : ℤ → Scalar Float
  float : Float → Scalar Float
  bool : Bool → Scalar Float
  string : String → Scalar Float

-- `any`, []any and map[string]any.
mutual
  pub data Value (Float : Type 0) : Type 0 where
    scalar : Scalar Float → Value Float
    slice : Items Float → Value Float
    mapping : Entries Float → Value Float

  pub data Items (Float : Type 0) : Type 0 where
    nothing : Items Float
    item : Value Float → Items Float → Items Float

  pub data Entries (Float : Type 0) : Type 0 where
    empty : Entries Float
    entry : String → Value Float → Entries Float → Entries Float

module _ {Float : Type 0} where
  unfoldable pub get_entry : String → Entries Float → Option (Value Float)
  get_entry key empty = none
  get_entry key (entry here val rest) =
      let deeper = get_entry key rest in if str_eq here key then some val else deeper

  unfoldable pub put_entry : String → Value Float → Entries Float → Entries Float
  put_entry key val empty = entry key val empty
  put_entry key val (entry here old rest) =
      let deeper = put_entry key val rest in
      if str_eq here key then entry key val rest else entry here old deeper

  -- The element at an index, changed; nothing changes out of range.
  unfoldable pub change_at : ℕ → (Value Float → Value Float) → Items Float → Items Float
  change_at i f nothing = nothing
  change_at zero f (item x xs) = item (f x) xs
  change_at (suc i) f (item x xs) = item x (change_at i f xs)

  -- setNestedValue, by the parts of the key. The assertion that a value is a map panics where it is
  -- none.
  unfoldable pub set_nested_value :
      List String → Value Float → Entries Float → Option (Entries Float)
  set_nested_value [] val current = some current
  set_nested_value (k ∷ []) val current = some (put_entry k val current)
  set_nested_value (k ∷ next ∷ keys) val current = elim (get_entry k current) [
    | none ↦ below (set_nested_value (next ∷ keys) val empty) k current
    | some (mapping deeper) ↦ below (set_nested_value (next ∷ keys) val deeper) k current
    | some (scalar s) ↦ none
    | some (slice xs) ↦ none
  ]
    where
      below : Option (Entries Float) → String → Entries Float → Option (Entries Float)
      below none k current = none
      below (some deeper) k current = some (put_entry k (mapping deeper) current)

-- strconv.Atoi and the test of the index.
unfoldable pub index_of : Option ℤ → Option ℕ
index_of (some (pos i)) = some i
index_of (some (negsuc i)) = none
index_of none = none

module _ {Float : Type 0} (atoi : String → Option ℤ) where
  unfoldable mutual
    -- deepMerge(dst, src), the source first
    pub deep_merge : Entries Float → Entries Float → Entries Float
    deep_merge empty dst = dst
    deep_merge (entry key val src) dst = deep_merge src (
        put_entry key (elim (get_entry key dst) [ none ↦ val | some old ↦ merge_value val old ])
          dst)

    -- A source value over an old one: elements of a slice by index, maps by key, or instead of it.
    pub merge_value : Value Float → Value Float → Value Float
    merge_value (mapping src) (slice xs) = slice (merge_slice src xs)
    merge_value (mapping src) (mapping dst) = mapping (deep_merge src dst)
    merge_value (mapping src) (scalar s) = mapping src
    merge_value (slice ys) old = slice ys
    merge_value (scalar s) old = scalar s

    pub merge_slice : Entries Float → Items Float → Items Float
    merge_slice empty xs = xs
    merge_slice (entry key val src) xs =
        merge_slice src
          (elim (index_of (atoi key)) [ none ↦ xs | some i ↦ change_at i (merge_element val) xs ])

    pub merge_element : Value Float → Value Float → Value Float
    merge_element (mapping src) (mapping dst) = mapping (deep_merge src dst)
    merge_element (mapping src) (slice xs) = mapping src
    merge_element (mapping src) (scalar s) = mapping src
    merge_element (slice ys) old = slice ys
    merge_element (scalar s) old = scalar s

-- strings.TrimSpace, strings.SplitN(·, "=", 2) where it gives two parts, strings.Split(·, "."), and
-- strconv.ParseInt, ParseFloat and ParseBool.
pub record Texts : Type 1 where
  pub Float : Type 0
  pub trim_space : String → String
  pub split_pair : String → Option (String × String)
  pub split_keys : String → List String
  pub parse_int : String → Option ℤ
  pub parse_float : String → Option Float
  pub parse_bool : String → Option Bool

pub data SetEnd (Float : Type 0) : Type 0 where
  panicked : SetEnd Float
  invalid : String → SetEnd Float
  parsed : Entries Float → SetEnd Float

module _ (t : Texts) where
  open t use {Float}

  pub parse_value : String → Scalar Float
  parse_value value = elim (t.parse_int value) [
    | some n ↦ int n
    | none ↦ elim (t.parse_float value) [
      | some x ↦ float x
      | none ↦ elim (t.parse_bool value) [ some b ↦ bool b | none ↦ string value ]
    ]
  ]

  set_pair : String × String → Entries Float → Option (Entries Float)
  set_pair (key, value) result =
      set_nested_value (t.split_keys (t.trim_space key)) (scalar (parse_value (t.trim_space value)))
        result

  pub parse_pairs : List String → Entries Float → SetEnd Float
  parse_pairs [] result = parsed result
  parse_pairs (given ∷ pairs) result =
      let pair = t.trim_space given in
      elim (str_eq pair "") [
        | true ↦ parse_pairs pairs result
        | false ↦ elim (t.split_pair pair) [
          | none ↦ invalid pair
          | some parts ↦ elim (set_pair parts result) [
            | none ↦ panicked
            | some after ↦ parse_pairs pairs after
          ]
        ]
      ]

  unfoldable pub parse_set_values : List String → SetEnd Float
  unfolding parse_pairs set_pair
  parse_set_values pairs = parse_pairs pairs empty
