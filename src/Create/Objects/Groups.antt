-- ===== src/Create/Objects/Groups.antt =====
-- groupObjectsByNumber of pkg/burner/create.go: which objects each group holds, and in which order
-- the groups come.
use kube_burner.Prelude.{
  ℕ, suc, false, List, [], ◌∷◌, ◌++◌, ◌≡◌, ◌≢◌, refl, sym, ◌∙◌, ap, arith, if◌then◌else◌, All,
  append_assoc, append-nil, Bool-cases, inl, inr,
}
use kube_burner.Prelude.Int.{ℤ, ◌<ℤ◌, ltb_ℤ, eqb_ℤ, eq_of_parts}
use kube_burner.Executor.{ManagedObject}
use kube_burner.Create.Objects.{
  GroupEntry, add_to_group, group_map, insert_group, sort_groups, group_objects_by_number,
}

-- The objects of the first entry with a number.
abbrev pub places_of : ℤ → List GroupEntry → List ℕ
places_of n [] = []
places_of n (g ∷ gs) = if eqb_ℤ g.number n then g.places else places_of n gs

-- The places, from `place` on, of the objects whose group has a number.
abbrev pub places_with : ℤ → ℕ → List ManagedObject → List ℕ
places_with n place [] = []
places_with n place (obj ∷ objs) =
    let rest = places_with n (suc place) objs in if eqb_ℤ obj.group.id n then place ∷ rest else rest

-- Each number is above the ones before it.
abbrev pub IsAscending : List GroupEntry → Type 0
IsAscending [] = Unit
IsAscending (g ∷ gs) = All (λ h. g.number <ℤ h.number) gs × IsAscending gs

abbrev Distinct : List GroupEntry → Type 0
Distinct [] = Unit
Distinct (g ∷ gs) = All (λ h. h.number ≢ g.number) gs × Distinct gs

places_of-add :
    (n m : ℤ) (p : ℕ) (gs : List GroupEntry)
    → places_of n (add_to_group m p gs)
      ≡ (if eqb_ℤ m n then places_of n gs ++ (p ∷ []) else places_of n gs)
unfolding add_to_group
places_of-add n m p [] = refl
places_of-add n m p (g ∷ gs) = ground (arith, places_of-add n m p gs, eq_of_parts g.number m)

places_of-map :
    (n : ℤ) (place : ℕ) (objs : List ManagedObject) (gs : List GroupEntry)
    → places_of n (group_map place objs gs) ≡ places_of n gs ++ places_with n place objs
unfolding group_map
places_of-map n place [] gs = rw append-nil
places_of-map n place (obj ∷ objs) gs =
    let ih = places_of-map n (suc place) objs (add_to_group obj.group.id place gs) in
    let added = places_of-add n obj.group.id place gs in
    elim (Bool-cases (eqb_ℤ obj.group.id n)) [
      | inl e ↦ rw e (
          ih
          ∙ ap (λ (l : List ℕ). l ++ places_with n (suc place) objs) (added ∙ rw e)
          ∙ append_assoc (places_of n gs) (place ∷ []) (places_with n (suc place) objs))
      | inr e ↦ rw e (ih ∙ ap (λ (l : List ℕ). l ++ places_with n (suc place) objs) (added ∙ rw e))
    ]

places_of-insert :
    (n : ℤ) (g : GroupEntry) (hs : List GroupEntry)
    → places_of n (insert_group g hs) ≡ places_of n (g ∷ hs)
unfolding insert_group
places_of-insert n g [] = refl
places_of-insert n g (h ∷ hs) = ground (arith, places_of-insert n g hs)

places_of-sort : (n : ℤ) (gs : List GroupEntry) → places_of n (sort_groups gs) ≡ places_of n gs
unfolding sort_groups
places_of-sort n [] = refl
places_of-sort n (g ∷ gs) =
    places_of-insert n g (sort_groups gs)
    ∙ ap (λ (l : List ℕ). if eqb_ℤ g.number n then g.places else l) (places_of-sort n gs)

All-add :
    (Q : ℤ → Type 0) (m : ℤ) (p : ℕ) (gs : List GroupEntry)
    → Q m
    → All (λ g. Q g.number) gs
    → All (λ g. Q g.number) (add_to_group m p gs)
unfolding add_to_group
All-add Q m p [] h v = (h, tt)
All-add Q m p (g ∷ gs) h v = elim (Bool-cases (eqb_ℤ g.number m)) [
  | inl e ↦ rw e v
  | inr e ↦ rw e (v.0, All-add Q m p gs h v.1)
]

All-insert :
    (P : GroupEntry → Type 0) (g : GroupEntry) (hs : List GroupEntry)
    → P g
    → All P hs
    → All P (insert_group g hs)
unfolding insert_group
All-insert P g [] p v = (p, tt)
All-insert P g (h ∷ hs) p v = elim (Bool-cases (ltb_ℤ h.number g.number)) [
  | inl e ↦ rw e (v.0, All-insert P g hs p v.1)
  | inr e ↦ rw e (p, v)
]

lt_of_not_lt : (a b : ℤ) → ltb_ℤ a b ≡ false → a ≢ b → b <ℤ a
lt_of_not_lt a b e d = ground (arith, eq_of_parts a b)

All-lt :
    (a b : ℤ) (gs : List GroupEntry)
    → a <ℤ b
    → All (λ g. b <ℤ g.number) gs
    → All (λ g. a <ℤ g.number) gs
All-lt a b [] h v = tt
All-lt a b (g ∷ gs) h v = (omega (arith, v.0), All-lt a b gs h v.1)

insert-IsAscending :
    (g : GroupEntry) (hs : List GroupEntry)
    → All (λ h. h.number ≢ g.number) hs
    → IsAscending hs
    → IsAscending (insert_group g hs)
unfolding insert_group
insert-IsAscending g [] d s = (tt, tt)
insert-IsAscending g (h ∷ hs) d s = elim (Bool-cases (ltb_ℤ h.number g.number)) [
  | inl e ↦ rw e (
    All-insert (λ x. h.number <ℤ x.number) g hs (ground (arith, e)) s.0,
    insert-IsAscending g hs d.1 s.1,
  )
  | inr e ↦
      let first = lt_of_not_lt h.number g.number e d.0 in
      rw e ((first, All-lt g.number h.number hs first s.0), s)
]

ne_of_test : (a b : ℤ) → eqb_ℤ a b ≡ false → a ≢ b
ne_of_test a b e same = ground arith

add-Distinct : (m : ℤ) (p : ℕ) (gs : List GroupEntry) → Distinct gs → Distinct (add_to_group m p gs)
unfolding add_to_group
add-Distinct m p [] d = (tt, tt)
add-Distinct m p (g ∷ gs) d = elim (Bool-cases (eqb_ℤ g.number m)) [
  | inl e ↦ rw e d
  | inr e ↦ rw e (
    All-add (λ n. n ≢ g.number) m p gs (λ same. ne_of_test g.number m e (sym same)) d.0,
    add-Distinct m p gs d.1,
  )
]

map-Distinct :
    (place : ℕ) (objs : List ManagedObject) (gs : List GroupEntry)
    → Distinct gs
    → Distinct (group_map place objs gs)
unfolding group_map
map-Distinct place [] gs d = d
map-Distinct place (obj ∷ objs) gs d =
    map-Distinct (suc place) objs _ (add-Distinct obj.group.id place gs d)

All-sort : (P : GroupEntry → Type 0) (gs : List GroupEntry) → All P gs → All P (sort_groups gs)
unfolding sort_groups
All-sort P [] v = tt
All-sort P (g ∷ gs) v = All-insert P g (sort_groups gs) v.0 (All-sort P gs v.1)

sort-IsAscending : (gs : List GroupEntry) → Distinct gs → IsAscending (sort_groups gs)
unfolding sort_groups
sort-IsAscending [] d = tt
sort-IsAscending (g ∷ gs) d =
    insert-IsAscending g (sort_groups gs) (All-sort (λ h. h.number ≢ g.number) gs d.0)
      (sort-IsAscending gs d.1)

-- The groups come by rising number, each number once, and the group of a number holds exactly the
-- objects with that number, in the order of the job.
pub group_objects_by_number_lem :
    (objs : List ManagedObject)
    → IsAscending (group_objects_by_number objs)
      × ((n : ℤ) → places_of n (group_objects_by_number objs) ≡ places_with n 0 objs)
unfolding group_objects_by_number
group_objects_by_number_lem objs = (
  sort-IsAscending (group_map 0 objs []) (map-Distinct 0 objs [] tt),
  (λ n. places_of-sort n (group_map 0 objs []) ∙ places_of-map n 0 objs []),
)
