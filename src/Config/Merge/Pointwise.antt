-- ===== src/Config/Merge/Pointwise.antt =====
-- deepMerge, key by key, and on the slices of the configuration.
use kube_burner.Prelude.{
  String, str_eq, true, false, Option, none, some, if◌then◌else◌, ◌≡◌, refl, subst, ap, ◌∙◌, inl,
  inr, ◌⊎◌, eq_iff, Bool-cases,
}
use kube_burner.Prelude.Int.{ℤ}
use kube_burner.Config.Merge.{
  Value, Entries, empty, entry, get_entry, put_entry, deep_merge, merge_value,
}
use kube_burner.Config.Merge.Nested.{get-put}

-- The keys of a map differ.
abbrev pub AreDistinct : {Float : Type 0} → Entries Float → Type 0
AreDistinct empty = Unit
AreDistinct (entry key val rest) = (get_entry key rest ≡ none) × AreDistinct rest

module _ {Float : Type 0} (atoi : String → Option ℤ) where
  -- The value that a key has behind a merge: a value that one map alone has, or the source's value
  -- over the old one.
  abbrev pub merged : Option (Value Float) → Option (Value Float) → Option (Value Float)
  merged old none = old
  merged none (some val) = some val
  merged (some old) (some val) = some (merge_value atoi val old)

  -- deepMerge gives each key the value of the one map that has it, or the merged value of both. The
  -- keys of the source differ, as those of every map do.
  pub deep_merge-get :
      (src dst : Entries Float) (key : String)
      → AreDistinct src
      → get_entry key (deep_merge atoi src dst) ≡ merged (get_entry key dst) (get_entry key src)
  unfolding deep_merge get_entry
  deep_merge-get empty dst key h = refl
  deep_merge-get (entry here val src) dst key (fresh, distinct) =
      deep_merge-get src (put_entry here over dst) key distinct
      ∙ ap (λ found. merged found (get_entry key src)) (get-put here key over dst)
      ∙ at_key (Bool-cases (str_eq here key))
    where
      over : Value Float
      over = elim (get_entry here dst) [ none ↦ val | some old ↦ merge_value atoi val old ]

      over_old :
          (found : Option (Value Float))
          → some (elim found [ none ↦ val | some old ↦ merge_value atoi val old ])
            ≡ merged found (some val)
      over_old none = refl
      over_old (some old) = refl

      at_key :
          (str_eq here key ≡ true) ⊎ (str_eq here key ≡ false)
          → merged (if str_eq here key then some over else get_entry key dst) (get_entry key src)
            ≡ merged (get_entry key dst) (if str_eq here key then some val else get_entry key src)
      at_key (inr e) = rw e refl
      at_key (inl e) =
          let same = (eq_iff here key).0 e in
          rw (e, subst (λ k. get_entry k src ≡ none) same fresh)
            (over_old (get_entry here dst) ∙ ap (λ k. merged (get_entry k dst) (some val)) same)
