-- ===== src/Create/Churn/Objects/Oldest.antt =====
-- churnObjects deletes the oldest of the listed objects.
use mathlib.Core.List.{Perm}
use mathlib.Core.List.Perm
use kube_burner.Prelude.{
  ℕ, zero, suc, ◌*◌, ◌/◌, ◌≤◌, ◌<◌, ◌^◌, List, [], ◌∷◌, ◌++◌, ◌≡◌, refl, arith, All, length, take,
  drop, min, max, map, leb, ◌∙◌, length-take, subst, sym, ap, Bool-cases, inl, inr,
}
use kube_burner.Prelude.Int.{pos}
use kube_burner.Config.Types.{ChurnConfig}
use kube_burner.Executor.{Item, GroupVersionResource}
use kube_burner.Create.Churn.Deletion.{ChurnDeletedObject}
use kube_burner.Create.Churn.Window.{percent_of}
use kube_burner.Create.Churn.Window.Bounds.{percent_count}
use kube_burner.Create.Churn.Objects.{insert_oldest, sort_oldest, items_to_churn}

abbrev pub NoYounger : ChurnDeletedObject → ChurnDeletedObject → Type 0
NoYounger o p = o.object.creation ≤ p.object.creation

abbrev IsSorted : List ChurnDeletedObject → Type 0
IsSorted [] = Unit
IsSorted (o ∷ os) = All (NoYounger o) os × IsSorted os

All-insert :
    (a : ℕ) (o : ChurnDeletedObject) (ps : List ChurnDeletedObject)
    → a ≤ o.object.creation
    → All (λ p. a ≤ p.object.creation) ps
    → All (λ p. a ≤ p.object.creation) (insert_oldest o ps)
unfolding insert_oldest
All-insert a o [] h hs = ground arith
All-insert a o (p ∷ ps) h hs = let ih = All-insert a o ps h hs.1 in ground arith

All-weaken :
    (a b : ℕ) (ps : List ChurnDeletedObject)
    → a ≤ b
    → All (λ p. b ≤ p.object.creation) ps
    → All (λ p. a ≤ p.object.creation) ps
All-weaken a b [] h hs = tt
All-weaken a b (p ∷ ps) h hs = let ih = All-weaken a b ps h hs.1 in (omega (arith, hs.0), ih)

insert_oldest-IsSorted :
    (o : ChurnDeletedObject) (ps : List ChurnDeletedObject)
    → IsSorted ps
    → IsSorted (insert_oldest o ps)
unfolding insert_oldest
insert_oldest-IsSorted o [] h = (tt, tt)
insert_oldest-IsSorted o (p ∷ ps) h = elim (Bool-cases (leb o.object.creation p.object.creation)) [
  | inl e ↦
      rw e ((ground arith, All-weaken o.object.creation p.object.creation ps (ground arith) h.0), h)
  | inr e ↦
      rw e (All-insert p.object.creation o ps (ground arith) h.0, insert_oldest-IsSorted o ps h.1)
]

sort_oldest-IsSorted : (os : List ChurnDeletedObject) → IsSorted (sort_oldest os)
unfolding sort_oldest
sort_oldest-IsSorted [] = tt
sort_oldest-IsSorted (o ∷ os) = insert_oldest-IsSorted o (sort_oldest os) (sort_oldest-IsSorted os)

split_sorted :
    (n : ℕ) (os : List ChurnDeletedObject)
    → IsSorted os
    → All (λ o. All (NoYounger o) (drop n os)) (take n os)
split_sorted zero os h = tt
split_sorted (suc n) [] h = tt
split_sorted (suc n) (o ∷ os) h = (all_drop n os h.0, split_sorted n os h.1)
  where
    all_drop :
        (n : ℕ) (ps : List ChurnDeletedObject)
        → All (NoYounger o) ps
        → All (NoYounger o) (drop n ps)
    all_drop zero ps k = k
    all_drop (suc n) [] k = tt
    all_drop (suc n) (p ∷ ps) k = all_drop n ps k.1

insert_oldest-Perm :
    (o : ChurnDeletedObject) (ps : List ChurnDeletedObject) → Perm (insert_oldest o ps) (o ∷ ps)
unfolding insert_oldest
insert_oldest-Perm o [] = Perm.refl (o ∷ [])
insert_oldest-Perm o (p ∷ ps) = elim (Bool-cases (leb o.object.creation p.object.creation)) [
  | inl e ↦ rw e (Perm.refl (o ∷ p ∷ ps))
  | inr e ↦ rw e (Perm.trans (Perm.cons p (insert_oldest-Perm o ps)) (Perm.swap o p ps))
]

sort_oldest-Perm : (os : List ChurnDeletedObject) → Perm (sort_oldest os) os
unfolding sort_oldest
sort_oldest-Perm [] = Perm.refl []
sort_oldest-Perm (o ∷ os) =
    Perm.trans (insert_oldest-Perm o (sort_oldest os)) (Perm.cons o (sort_oldest-Perm os))

length-insert_oldest :
    (o : ChurnDeletedObject) (ps : List ChurnDeletedObject)
    → length (insert_oldest o ps) ≡ suc (length ps)
unfolding insert_oldest
length-insert_oldest o [] = refl
length-insert_oldest o (p ∷ ps) = let ih = length-insert_oldest o ps in ground arith

length-sort_oldest : (os : List ChurnDeletedObject) → length (sort_oldest os) ≡ length os
unfolding sort_oldest
length-sort_oldest [] = refl
length-sort_oldest (o ∷ os) =
    length-insert_oldest o (sort_oldest os) ∙ ap suc (length-sort_oldest os)

take-drop {ℓ} : {A : Type ℓ} (n : ℕ) (xs : List A) → take n xs ++ drop n xs ≡ xs
take-drop zero xs = refl
take-drop (suc n) [] = refl
take-drop (suc n) (x ∷ xs) = ap (λ l. x ∷ l) (take-drop n xs)

length-map {ℓ κ} :
    {A : Type ℓ} {B : Type κ} (f : A → B) (xs : List A) → length (map f xs) ≡ length xs
length-map f [] = refl
length-map f (x ∷ xs) = ap suc (length-map f xs)

abbrev pub as_deleted : GroupVersionResource → List Item → List ChurnDeletedObject
as_deleted gvr items = map (λ (item : Item). record { object = item; gvr = gvr }) items

-- What churnObjects deletes of the objects that are listed for a template: with some others, it is
-- all of these; none of it is younger than any of the others; and its number is the percentage of
-- theirs, rounded down, but at least 1. The conditions: there is an object and there are fewer than
-- 2^56, and the percentage is at most 100.
pub items_to_churn_lem :
    (cfg : ChurnConfig) (gvr : GroupVersionResource) (items : List Item) (p : ℕ)
    → cfg.percent ≡ pos p
    → p ≤ 100
    → 0 < length items
    → length items < 2 ^ 56
    → (others : List ChurnDeletedObject) × (Perm
          (items_to_churn cfg gvr items ++ others)
          (as_deleted gvr items)
        × (All (λ o. All (NoYounger o) others) (items_to_churn cfg gvr items)
            × (length (items_to_churn cfg gvr items) ≡ max (p * length items / 100) 1)))
unfolding items_to_churn
items_to_churn_lem cfg gvr items p e hp h0 h =
    let sorted = sort_oldest (as_deleted gvr items) in
    let n : ℕ = min (percent_of cfg.percent (length items)) (length items) in
    let whole : length sorted ≡ length items =
      length-sort_oldest (as_deleted gvr items) ∙ length-map _ items in
    (
      drop n sorted,
      (
        subst (λ l. Perm l (as_deleted gvr items)) (sym (take-drop n sorted))
            (sort_oldest-Perm (as_deleted gvr items)),
        (
          split_sorted n sorted (sort_oldest-IsSorted (as_deleted gvr items)),
          length-take n sorted (omega arith) ∙ rw e (percent_count p (length items) hp h0 h),
        ),
      ),
    )
