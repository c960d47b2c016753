-- ===== src/Tests/Merge.antt =====
-- Tests of --set and of the merging of its values.
use kube_burner.Prelude.{ℕ, String, [], ◌∷◌, Option, none, some, ◌≡◌, refl, inl, inr}
use kube_burner.Prelude.Int.{ℤ, pos}
use kube_burner.Config.Merge.{
  scalar, mapping, Entries, empty, entry, int, string, get_entry, set_nested_value, deep_merge,
}
use kube_burner.Config.Merge.Nested.{Sets, Keeps, set_nested_value-Sets, set_nested_value-Keeps}
use kube_burner.Config.Merge.Paths.{get_path, replaced, deeper, deep_merge-Reads}

abbrev no_entries : Entries ℕ
no_entries = empty

-- {global: {gc: 1}}; floats are numbers here.
abbrev given : Entries ℕ
given = entry "global" (mapping (entry "gc" (scalar (int (pos 1))) empty)) empty

set_nested_value-Sets_example :
    Sets
      ("global" ∷ "timeout" ∷ [])
      (scalar (string "4h"))
      given
      (set_nested_value ("global" ∷ "timeout" ∷ []) (scalar (string "4h")) given)
set_nested_value-Sets_example =
    set_nested_value-Sets "global" ("timeout" ∷ []) (scalar (string "4h")) given

set_nested_value-Keeps_example :
    Keeps
      ("global" ∷ "gc" ∷ [])
      given
      (set_nested_value ("global" ∷ "timeout" ∷ []) (scalar (string "4h")) given)
set_nested_value-Keeps_example =
    set_nested_value-Keeps ("global" ∷ "timeout" ∷ []) ("global" ∷ "gc" ∷ []) (scalar (string "4h"))
      given (inr (refl, inl refl))

-- The key a and then a.b: --set a=1 and then a.b=2
set_below_scalar_panics :
    set_nested_value
      ("a" ∷ "b" ∷ [])
      (scalar (int (pos 2)))
      (entry "a" (scalar (int (pos 1))) no_entries)
    ≡ none
unfolding set_nested_value get_entry
set_below_scalar_panics = refl

abbrev index_text : String → Option ℤ
index_text s = some (pos 0)

abbrev changes : Entries ℕ
changes = entry "global" (mapping (entry "gc" (scalar (int (pos 0))) empty)) empty

deep_merge-Reads_example :
    get_path ("global" ∷ "gc" ∷ []) (mapping (deep_merge index_text changes given))
    ≡ some (scalar (int (pos 0)))
unfolding get_entry get_path
deep_merge-Reads_example =
    deep_merge-Reads index_text ("global" ∷ "gc" ∷ []) changes given (some (scalar (int (pos 0))))
      (refl, tt)
      (deeper "global" "gc" [] changes given (entry "gc" (scalar (int (pos 0))) empty)
        (entry "gc" (scalar (int (pos 1))) empty) (some (scalar (int (pos 0)))) refl refl (refl, tt)
        (replaced "gc" [] _ _ (scalar (int (pos 0))) refl tt))
