-- ===== src/Config/Merge/Nested.antt =====
-- What setNestedValue changes, and when it panics.
use text.Mathlib.TextPositions.{eq_refl}
use kube_burner.Prelude.{
  String, str_eq, false, List, [], ◌∷◌, Option, none, some, if◌then◌else◌, ◌≡◌, refl, subst, sym,
  ◌∙◌, ◌↔◌, ◌⊎◌, inl, inr, arith, eq_iff, Option-cases,
}
use kube_burner.Config.Merge.{
  Value, scalar, slice, mapping, Entries, empty, entry, get_entry, put_entry, set_nested_value,
}

-- Two keys that differ in a part which both have.
abbrev pub Diverges : List String → List String → Type 0
Diverges [] other = ⊥
Diverges (k ∷ keys) [] = ⊥
Diverges (k ∷ keys) (o ∷ others) = (str_eq k o ≡ false) ⊎ ((k ≡ o) × Diverges keys others)

module _ {Float : Type 0} where
  pub get-put :
      (key other : String) (val : Value Float) (entries : Entries Float)
      → get_entry other (put_entry key val entries)
        ≡ (if str_eq key other then some val else get_entry other entries)
  unfolding get_entry put_entry
  get-put key other val empty = refl
  get-put key other val (entry here old rest) =
      let later = get-put key other val rest in
      ground (arith, later, eq_iff here other, eq_iff here key, eq_iff key other)

  -- The value behind the parts of a key, where each part but the last one leads to a map.
  unfoldable pub get_nested : List String → Entries Float → Option (Value Float)
  get_nested [] current = none
  get_nested (k ∷ []) current = get_entry k current
  get_nested (k ∷ next ∷ keys) current = elim (get_entry k current) [
    | some (mapping deeper) ↦ get_nested (next ∷ keys) deeper
    | _ ↦ none
  ]

  -- A part of the key that is not the last one leads to a value that is no map.
  abbrev pub IsBlocked : List String → Entries Float → Type 0
  IsBlocked [] current = ⊥
  IsBlocked (k ∷ []) current = ⊥
  IsBlocked (k ∷ next ∷ keys) current = elim (get_entry k current) [
    | none ↦ ⊥
    | some (mapping deeper) ↦ IsBlocked (next ∷ keys) deeper
    | some (scalar s) ↦ Unit
    | some (slice xs) ↦ Unit
  ]

  -- The same by the value of the first part.
  abbrev IsStuck : List String → Option (Value Float) → Type 0
  IsStuck keys none = ⊥
  IsStuck keys (some (mapping deeper)) = IsBlocked keys deeper
  IsStuck keys (some (scalar s)) = Unit
  IsStuck keys (some (slice xs)) = Unit

  -- The panic of a key that is blocked, or the value behind the key.
  abbrev pub Sets : List String → Value Float → Entries Float → Option (Entries Float) → Type 0
  Sets keys val current none = IsBlocked keys current
  Sets keys val current (some after) = (get_nested keys after ≡ some val) × ¬ IsBlocked keys current

  -- The value behind a key is the old one.
  abbrev pub Keeps : List String → Entries Float → Option (Entries Float) → Type 0
  Keeps keys current none = Unit
  Keeps keys current (some after) = get_nested keys after ≡ get_nested keys current

  get-put_same :
      (k : String) (val : Value Float) (entries : Entries Float)
      → get_entry k (put_entry k val entries) ≡ some val
  get-put_same k val entries = get-put k k val entries ∙ rw (eq_refl k) refl

  get_nested-cong :
      (o : String) (others : List String) (a b : Entries Float)
      → get_entry o a ≡ get_entry o b
      → get_nested (o ∷ others) a ≡ get_nested (o ∷ others) b
  unfolding get_nested
  get_nested-cong o [] a b h = h
  get_nested-cong o (next ∷ others) a b h = rw (get_nested, h) refl

  get_nested-put :
      (k next : String) (keys : List String) (deeper current : Entries Float)
      → get_nested (k ∷ next ∷ keys) (put_entry k (mapping deeper) current)
        ≡ get_nested (next ∷ keys) deeper
  unfolding get_nested
  get_nested-put k next keys deeper current =
      rw (get_nested, get-put_same k (mapping deeper) current) refl

  get_nested-empty : (keys : List String) → get_nested keys empty ≡ none
  unfolding get_nested get_entry
  get_nested-empty [] = refl
  get_nested-empty (k ∷ []) = refl
  get_nested-empty (k ∷ next ∷ keys) = refl

  get_nested-other :
      (k o : String) (others : List String) (val : Value Float) (current : Entries Float)
      → str_eq k o ≡ false
      → get_nested (o ∷ others) (put_entry k val current) ≡ get_nested (o ∷ others) current
  get_nested-other k o others val current e =
      get_nested-cong o others (put_entry k val current) current
        (get-put k o val current ∙ rw e refl)

  abbrev replaced : Option (Entries Float) → String → Entries Float → Option (Entries Float)
  replaced none k current = none
  replaced (some deeper) k current = some (put_entry k (mapping deeper) current)

  replaced-Sets :
      (k next : String) (keys : List String) (val : Value Float) (deeper current : Entries Float)
      (outcome : Option (Entries Float))
      → (IsBlocked (next ∷ keys) deeper) ↔ (IsBlocked (k ∷ next ∷ keys) current)
      → Sets (next ∷ keys) val deeper outcome
      → Sets (k ∷ next ∷ keys) val current (replaced outcome k current)
  replaced-Sets k next keys val deeper current none blocked h = blocked.0 h
  replaced-Sets k next keys val deeper current (some after) blocked (h, free) =
      (get_nested-put k next keys after current ∙ h, λ stuck. free (blocked.1 stuck))

  not-IsBlocked :
      (keys : List String) (current : Entries Float) → current ≡ empty → ¬ IsBlocked keys current
  unfolding get_entry
  not-IsBlocked [] current e h = h
  not-IsBlocked (k ∷ []) current e h = h
  not-IsBlocked (k ∷ next ∷ keys) current e h =
      subst (λ c. IsStuck (next ∷ keys) (get_entry k c)) e h

  -- setNestedValue panics exactly when a part of the key that is not the last one leads to a value
  -- that is no map; otherwise the key leads to the value that was set.
  pub set_nested_value-Sets :
      (k : String) (keys : List String) (val : Value Float) (current : Entries Float)
      → Sets (k ∷ keys) val current (set_nested_value (k ∷ keys) val current)
  unfolding set_nested_value get_nested
  set_nested_value-Sets k [] val current = (get-put_same k val current, λ h. h)
  set_nested_value-Sets k (next ∷ keys) val current = elim (Option-cases (get_entry k current)) [
    | inl e ↦
        rw (set_nested_value, e)
          (replaced-Sets k next keys val empty current (set_nested_value (next ∷ keys) val empty)
            (
              (λ h. absurd (not-IsBlocked (next ∷ keys) empty refl h)),
              (λ h. absurd (subst (λ found. IsStuck (next ∷ keys) found) e h)),
            )
            (set_nested_value-Sets next keys val empty))
    | inr (mapping deeper, e) ↦
        rw (set_nested_value, e)
          (replaced-Sets k next keys val deeper current (set_nested_value (next ∷ keys) val deeper)
            (
              (λ h. subst (λ found. IsStuck (next ∷ keys) found) (sym e) h),
              (λ h. subst (λ found. IsStuck (next ∷ keys) found) e h),
            )
            (set_nested_value-Sets next keys val deeper))
    | inr (scalar s, e) ↦
        rw (set_nested_value, e) (subst (λ found. IsStuck (next ∷ keys) found) (sym e) tt)
    | inr (slice xs, e) ↦
        rw (set_nested_value, e) (subst (λ found. IsStuck (next ∷ keys) found) (sym e) tt)
  ]

  -- A key that diverges behind its first part is read below that part.
  get_nested-below :
      (k o next : String) (keys others : List String) (current deeper : Entries Float)
      → k ≡ o
      → get_entry k current ≡ some (mapping deeper)
      → Diverges (next ∷ keys) others
      → get_nested (o ∷ others) current ≡ get_nested others deeper
  unfolding get_nested
  get_nested-below k o next keys [] current deeper same e d = absurd d
  get_nested-below k o next keys (p ∷ others) current deeper same e d =
      rw (get_nested, subst (λ q. get_entry q current ≡ some (mapping deeper)) same e) refl

  get_nested-missing :
      (k o next : String) (keys others : List String) (current : Entries Float)
      → k ≡ o
      → get_entry k current ≡ none
      → Diverges (next ∷ keys) others
      → get_nested (o ∷ others) current ≡ get_nested others empty
  unfolding get_nested
  get_nested-missing k o next keys [] current same e d = absurd d
  get_nested-missing k o next keys (p ∷ others) current same e d =
      rw (get_nested-empty (p ∷ others))
        (rw (get_nested, subst (λ q. get_entry q current ≡ none) same e) refl)

  replaced-Keeps :
      (k next o : String) (keys others : List String) (deeper current : Entries Float)
      (outcome : Option (Entries Float))
      → (str_eq k o ≡ false) ⊎ ((k ≡ o) × Diverges (next ∷ keys) others)
      → (Diverges (next ∷ keys) others → Keeps others deeper outcome)
      → (k ≡ o
          → Diverges (next ∷ keys) others
          → get_nested (o ∷ others) current ≡ get_nested others deeper)
      → Keeps (o ∷ others) current (replaced outcome k current)
  replaced-Keeps k next o keys others deeper current none d kept reads = tt
  replaced-Keeps k next o keys others deeper current (some after) (inl e) kept reads =
      get_nested-other k o others (mapping after) current e
  replaced-Keeps k next o keys [] deeper current (some after) (inr (e, d)) kept reads = absurd d
  replaced-Keeps k next o keys (p ∷ others) deeper current (some after) (inr (e, d)) kept reads =
      subst
        (λ q.
          get_nested (q ∷ p ∷ others) (put_entry k (mapping after) current)
          ≡ get_nested (o ∷ p ∷ others) current)
        e (get_nested-put k p others after current ∙ kept d ∙ sym (reads e d))

  -- setNestedValue keeps the value behind every key that differs from the key that is set in a part
  -- which both have.
  pub set_nested_value-Keeps :
      (keys others : List String) (val : Value Float) (current : Entries Float)
      → Diverges keys others
      → Keeps others current (set_nested_value keys val current)
  unfolding set_nested_value get_nested
  set_nested_value-Keeps [] others val current d = absurd d
  set_nested_value-Keeps (k ∷ []) [] val current d = absurd d
  set_nested_value-Keeps (k ∷ (next ∷ keys)) [] val current d = absurd d
  set_nested_value-Keeps (k ∷ []) (o ∷ others) val current (inl e) =
      get_nested-other k o others val current e
  set_nested_value-Keeps (k ∷ []) (o ∷ others) val current (inr (e, f)) = absurd f
  set_nested_value-Keeps (k ∷ next ∷ keys) (o ∷ others) val current d =
      elim (Option-cases (get_entry k current)) [
        | inl e ↦
            rw (set_nested_value, e)
              (replaced-Keeps k next o keys others empty current
                (set_nested_value (next ∷ keys) val empty) d
                (set_nested_value-Keeps (next ∷ keys) others val empty)
                (λ same. get_nested-missing k o next keys others current same e))
        | inr (mapping deeper, e) ↦
            rw (set_nested_value, e)
              (replaced-Keeps k next o keys others deeper current
                (set_nested_value (next ∷ keys) val deeper) d
                (set_nested_value-Keeps (next ∷ keys) others val deeper)
                (λ same. get_nested-below k o next keys others current deeper same e))
        | inr (scalar s, e) ↦ rw (set_nested_value, e) tt
        | inr (slice xs, e) ↦ rw (set_nested_value, e) tt
      ]
