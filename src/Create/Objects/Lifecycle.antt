-- ===== src/Create/Objects/Lifecycle.antt =====
-- getGroupLifecyclePauses of pkg/burner/create.go: the pauses of a group are maxima.
use kube_burner.Prelude.{
  Bool, true, false, ◌||◌, List, [], ◌∷◌, ◌≡◌, ◌⊎◌, inl, inr, refl, ◌∙◌, arith, All, any,
  Bool-cases,
}
use kube_burner.Prelude.Int.{ℤ, pos, ◌≤ℤ◌, ltb_ℤ}
use kube_burner.Executor.{ManagedObject}
use kube_burner.Create.Objects.{Pauses, max_pause, lifecycle_from, get_group_lifecycle_pauses}

-- A pause of one of the objects.
abbrev pub IsPauseOf : (ManagedObject → ℤ) → ℤ → List ManagedObject → Type 0
IsPauseOf pause v [] = ⊥
IsPauseOf pause v (obj ∷ objs) = (v ≡ pause obj) ⊎ IsPauseOf pause v objs

-- The longest pause of the objects, or `least`.
abbrev pub IsLongest : (ManagedObject → ℤ) → ℤ → ℤ → List ManagedObject → Type 0
IsLongest pause least v objs =
    (least ≤ℤ v) × (All (λ obj. pause obj ≤ℤ v) objs × ((v ≡ least) ⊎ IsPauseOf pause v objs))

max_pause_bounds :
    (pause longest : ℤ)
    → (pause ≤ℤ max_pause pause longest)
      × ((longest ≤ℤ max_pause pause longest)
          × ((max_pause pause longest ≡ longest) ⊎ (max_pause pause longest ≡ pause)))
unfolding max_pause
max_pause_bounds pause longest = elim (Bool-cases (ltb_ℤ longest pause)) [
  | inl above ↦ rw above (omega arith, (ground arith, inr refl))
  | inr below ↦ rw below (ground arith, (omega arith, inl refl))
]

le_ℤ_trans : (a b c : ℤ) → a ≤ℤ b → b ≤ℤ c → a ≤ℤ c
le_ℤ_trans a b c h k = omega (arith, h, k)

-- One object more.
IsLongest-more :
    (pause : ManagedObject → ℤ) (least v : ℤ) (obj : ManagedObject) (objs : List ManagedObject)
    → IsLongest pause (max_pause (pause obj) least) v objs
    → IsLongest pause least v (obj ∷ objs)
IsLongest-more pause least v obj objs h =
    let m = max_pause_bounds (pause obj) least in
    (
      le_ℤ_trans least (max_pause (pause obj) least) v m.1.0 h.0,
      (
        (le_ℤ_trans (pause obj) (max_pause (pause obj) least) v m.0 h.0, h.1.0),
        elim h.1.1 [
          | inl same ↦ elim m.1.1 [ inl old ↦ inl (same ∙ old) | inr new ↦ inr (inl (same ∙ new)) ]
          | inr deeper ↦ inr (inr deeper)
        ],
      ),
    )

or_swap : (a b c : Bool) → ((a || b) || c) ≡ (b || (a || c))
or_swap true true c = refl
or_swap true false c = refl
or_swap false b c = refl

lifecycle_from_lem :
    (p : Pauses) (objs : List ManagedObject)
    → IsLongest (λ obj. obj.group.pause_before_gc) p.before (lifecycle_from p objs).before objs
      × (IsLongest (λ obj. obj.group.pause_after_gc) p.after (lifecycle_from p objs).after objs
          × ((lifecycle_from p objs).has_gc ≡ (p.has_gc || any (λ obj. obj.group.gc) objs)))
unfolding lifecycle_from
lifecycle_from_lem p [] =
    ((omega arith, (tt, inl refl)), ((omega arith, (tt, inl refl)), ground arith))
lifecycle_from_lem p (obj ∷ objs) =
    let q : Pauses = record {
      before = max_pause obj.group.pause_before_gc p.before;
      after = max_pause obj.group.pause_after_gc p.after;
      has_gc = obj.group.gc || p.has_gc;
    } in
    let ih = lifecycle_from_lem q objs in
    (
      IsLongest-more (λ o. o.group.pause_before_gc) p.before (lifecycle_from q objs).before obj objs
          ih.0,
      (
        IsLongest-more (λ o. o.group.pause_after_gc) p.after (lifecycle_from q objs).after obj objs
            ih.1.0,
        ih.1.1 ∙ or_swap obj.group.gc p.has_gc (any (λ o. o.group.gc) objs),
      ),
    )

-- The pauses of a group are the longest ones among its objects: none of the objects has a longer
-- one, and each is 0 or one of theirs. The group is collected exactly when one of its objects is.
pub get_group_lifecycle_pauses_lem :
    (objs : List ManagedObject)
    → IsLongest
        (λ obj. obj.group.pause_before_gc)
        (pos 0)
        (get_group_lifecycle_pauses objs).before
        objs
      × (IsLongest
            (λ obj. obj.group.pause_after_gc)
            (pos 0)
            (get_group_lifecycle_pauses objs).after
            objs
          × ((get_group_lifecycle_pauses objs).has_gc ≡ any (λ obj. obj.group.gc) objs))
unfolding get_group_lifecycle_pauses
get_group_lifecycle_pauses_lem objs =
    lifecycle_from_lem (record { before = pos 0; after = pos 0; has_gc = false }) objs
