-- ===== src/Incremental/Calculator/Drive.antt =====
-- The loop of RunIncrementalCreateJob over the windows of a calculator, for a run in which every
-- step succeeds: it ends, and at the total.
use kube_burner.Prelude.{
  ℕ, zero, suc, ◌+◌, ◌<◌, ◌≡◌, refl, true, false, inl, inr, ◌⊎◌, arith, Option, none, some, List,
  [], ◌∷◌, subst, ◌∙◌, if◌then◌else◌,
}
use kube_burner.Prelude.Int.{ℤ, pos, ◌≤ℤ◌, ◌<ℤ◌, pos_part, eq_of_parts, nonneg_parts}
use kube_burner.Incremental.Calculator.{Floats, Calculator, next}
use kube_burner.Incremental.Calculator.Progress.{IsValid, total_of, Moves, next-Moves, next-IsValid}

eq_or_lt : (a b : ℤ) → a ≤ℤ b → (a ≡ b) ⊎ (a <ℤ b)
eq_or_lt a b h = ground (arith, eq_of_parts a b)

module _ (fl : Floats) where
  open fl use {Float}

  -- The ends of the windows up to the one that is done; `none` when the fuel runs out.
  pub drive : ℕ → Calculator Float → ℤ → Option (List ℤ)
  drive zero c current = none
  drive (suc fuel) c current =
      let (c', w) = next fl c current in
      let rest = drive fuel c' w.end in
      if w.done then some [] else elim rest [ none ↦ none | some ends ↦ some (w.end ∷ ends) ]

  -- A run from `current` that ends at `total`: each end is above the one before.
  abbrev pub ClimbsTo : ℤ → ℤ → List ℤ → Type 0
  ClimbsTo total current [] = current ≡ total
  ClimbsTo total current (e ∷ ends) = (current <ℤ e) × (e ≤ℤ total) × ClimbsTo total e ends

  Climb : ℕ → Calculator Float → ℤ → ℤ → Type 0
  Climb fuel c total current =
      (ends : List ℤ) × (drive fuel c current ≡ some ends) × ClimbsTo total current ends

  pub drive_stop :
      (fuel : ℕ) (c : Calculator Float) (current : ℤ)
      → (next fl c current).1.done ≡ true
      → drive (suc fuel) c current ≡ some []
  unfolding drive
  drive_stop fuel c current h = rw h

  pub drive_step :
      (fuel : ℕ) (c : Calculator Float) (current : ℤ) (ends : List ℤ)
      → (next fl c current).1.done ≡ false
      → drive fuel (next fl c current).0 (next fl c current).1.end ≡ some ends
      → drive (suc fuel) c current ≡ some ((next fl c current).1.end ∷ ends)
  unfolding drive
  drive_step fuel c current ends h rest = rw (h, rest)

  drive-climbs :
      (fuel : ℕ) (c : Calculator Float) (total current : ℤ)
      → IsValid fl c
      → total_of fl c ≡ total
      → pos 0 ≤ℤ current
      → current ≤ℤ total
      → pos_part total < fuel + pos_part current
      → Climb fuel c total current
  unfolding Climb
  drive-climbs zero c total current v e p q f =
      absurd (omega (arith, nonneg_parts current p, nonneg_parts total))
  drive-climbs (suc fuel) c total current v e p q f = elim (eq_or_lt current total q) [
    | inl stop ↦ ([], drive_stop fuel c current (moves.stops stop), stop)
    | inr go ↦
        let w = (next fl c current).1 in
        let up = moves.forward go in
        let valid = next-IsValid fl c current v in
        let (ends, runs, climbs) =
          drive-climbs fuel (next fl c current).0 total w.end valid.0 (valid.1 ∙ e)
            (omega (arith, up)) (moves.within go)
            (omega (arith, up, nonneg_parts current p, nonneg_parts w.end (omega (arith, up)))) in
        (
          w.end ∷ ends,
          drive_step fuel c current ends (moves.goes_on go) runs,
          (up, moves.within go, climbs),
        )
  ]
    where
      moves : Moves total current (next fl c current).1
      moves = subst (λ t. Moves t current (next fl c current).1) e (next-Moves fl c current v p)

  -- An incremental run whose steps all succeed ends: from 0 its windows end at numbers that grow
  -- and stay within the total, and the last of them is the total. There are at most `total` steps.
  -- The conditions: the calculator is valid, and its total is not negative.
  pub drive_reaches_total :
      (c : Calculator Float)
      → IsValid fl c
      → pos 0 ≤ℤ total_of fl c
      → (ends : List ℤ) × (drive (suc (pos_part (total_of fl c))) c (pos 0) ≡ some ends)
        × ClimbsTo (total_of fl c) (pos 0) ends
  unfolding Climb
  drive_reaches_total c v h =
      drive-climbs (suc (pos_part (total_of fl c))) c (total_of fl c) (pos 0) v refl (omega arith) h
        (omega arith)
