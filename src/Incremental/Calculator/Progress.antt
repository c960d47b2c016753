-- ===== src/Incremental/Calculator/Progress.antt =====
-- One call of Next: an incremental run moves forward, and stays within its total.
use kube_burner.Prelude.{◌^◌, ◌≡◌, refl, true, false, inl, inr, ◌⊎◌, arith, subst, sym, ap}
use kube_burner.Prelude.Int.{
  ℤ, pos, ◌≤ℤ◌, ◌<ℤ◌, add64, add64-eq, sub64, mul64, eq_of_parts, +ℤ_parts,
}
use kube_burner.Incremental.Calculator.{
  Floats, Calculator, linear, exponential, LinearCalculator, ExponentialCalculator, Window, cap_at,
  next_linear, next_exponential, next, increase,
}

-- A window at `current`: the run ends exactly at the total, and else goes forward, within it.
pub record Moves (total current : ℤ) (w : Window) : Type 0 where
  pub stops : current ≡ total → w.done ≡ true
  pub goes_on : current <ℤ total → w.done ≡ false
  pub forward : current <ℤ total → current <ℤ w.end
  pub within : current <ℤ total → w.end ≤ℤ total

-- Positive steps and a total below 2 ^ 62, so that no sum wraps.
pub record LinearIsValid (l : LinearCalculator) : Type 0 where
  pub starts : pos 0 <ℤ l.start
  pub fits : l.start ≤ℤ l.total
  pub total_bounded : l.total <ℤ pos (2 ^ 62)
  pub step_positive : pos 0 <ℤ l.step
  pub step_bounded : l.step ≤ℤ pos (2 ^ 62)

cap_bounds :
    (current more total : ℤ)
    → pos 0 ≤ℤ current
    → current <ℤ total
    → total <ℤ pos (2 ^ 62)
    → pos 0 <ℤ more
    → more ≤ℤ pos (2 ^ 62)
    → (current <ℤ cap_at (add64 current more) total) × (cap_at (add64 current more) total ≤ℤ total)
unfolding cap_at
cap_bounds current more total h p q r b =
    ground (arith, add64-eq current more, +ℤ_parts current more)

cap_first :
    (start total : ℤ)
    → pos 0 <ℤ start
    → start ≤ℤ total
    → (pos 0 <ℤ cap_at start total) × (cap_at start total ≤ℤ total)
unfolding cap_at
cap_first start total h k = ground arith

next_linear-Moves :
    (l : LinearCalculator) (current : ℤ)
    → LinearIsValid l
    → pos 0 ≤ℤ current
    → Moves l.total current (next_linear l current)
unfolding next_linear
next_linear-Moves l current v h = ground (
  arith,
  cap_bounds current l.step l.total,
  cap_first l.start l.total,
  eq_of_parts current l.total,
)

module _ (fl : Floats) where
  open fl use {Float, pow_int}

  -- As above. The increases are bounded, by maxIncrease or because the powers are.
  pub record ExponentialIsValid (e : ExponentialCalculator Float) : Type 0 where
    pub starts : pos 0 <ℤ e.start
    pub fits : e.start ≤ℤ e.total
    pub total_bounded : e.total <ℤ pos (2 ^ 62)
    pub increase_bounded :
        ((pos 0 <ℤ e.max_increase) × (e.max_increase ≤ℤ pos (2 ^ 62)))
        ⊎ ((n : ℤ) → mul64 (pow_int e.base n) e.start ≤ℤ pos (2 ^ 62))

  increase_by_max :
      (e : ExponentialCalculator Float) (n : ℤ)
      → pos 0 <ℤ e.max_increase
      → e.max_increase ≤ℤ pos (2 ^ 62)
      → (pos 0 <ℤ increase fl e n) × (increase fl e n ≤ℤ pos (2 ^ 62))
  unfolding increase
  increase_by_max e n h k = ground arith

  increase_by_power :
      (e : ExponentialCalculator Float) (n : ℤ)
      → ((m : ℤ) → mul64 (pow_int e.base m) e.start ≤ℤ pos (2 ^ 62))
      → (pos 0 <ℤ increase fl e n) × (increase fl e n ≤ℤ pos (2 ^ 62))
  unfolding increase
  increase_by_power e n h = ground (arith, h (sub64 n e.warmup), h n)

  increase_bounds :
      (e : ExponentialCalculator Float) (n : ℤ)
      → ExponentialIsValid e
      → (pos 0 <ℤ increase fl e n) × (increase fl e n ≤ℤ pos (2 ^ 62))
  increase_bounds e n v = elim v.increase_bounded [
    | inl m ↦ increase_by_max e n m.0 m.1
    | inr p ↦ increase_by_power e n p
  ]

  next_exponential-Moves :
      (e : ExponentialCalculator Float) (current : ℤ)
      → ExponentialIsValid e
      → pos 0 ≤ℤ current
      → Moves e.total current (next_exponential fl e current).1
  unfolding next_exponential
  next_exponential-Moves e current v h =
      let n = add64 e.step_no (pos 1) in
      let grow = increase_bounds e n v in
      ground (
        arith,
        v.starts,
        v.fits,
        v.total_bounded,
        cap_bounds current (increase fl e n) e.total,
        cap_bounds current e.start e.total,
        grow,
        cap_first e.start e.total,
        eq_of_parts current e.total,
      )

  -- Next changes the step counter alone.
  next_exponential_step_no :
      (e : ExponentialCalculator Float) (current : ℤ)
      → (next_exponential fl e current).0
        ≡ record e { step_no = (next_exponential fl e current).0.step_no }
  unfolding next_exponential
  next_exponential_step_no e current = ground arith

  next_exponential-IsValid :
      (e : ExponentialCalculator Float) (current : ℤ)
      → ExponentialIsValid e
      → ExponentialIsValid (next_exponential fl e current).0
        × ((next_exponential fl e current).0.total ≡ e.total)
  next_exponential-IsValid e current v =
      let kept = next_exponential_step_no e current in
      (
        subst ExponentialIsValid (sym kept) (record {
          starts = v.starts;
          fits = v.fits;
          total_bounded = v.total_bounded;
          increase_bounded = v.increase_bounded;
        }),
        ap (λ (x : ExponentialCalculator Float). x.total) kept,
      )

  abbrev pub total_of : Calculator Float → ℤ
  total_of (linear l) = l.total
  total_of (exponential e) = e.total

  abbrev pub IsValid : Calculator Float → Type 0
  IsValid (linear l) = LinearIsValid l
  IsValid (exponential e) = ExponentialIsValid e

  -- Every window of Next moves the run forward and stays within the total, or ends it there.
  pub next-Moves :
      (c : Calculator Float) (current : ℤ)
      → IsValid c
      → pos 0 ≤ℤ current
      → Moves (total_of c) current (next fl c current).1
  unfolding next
  next-Moves (linear l) current v h = next_linear-Moves l current v h
  next-Moves (exponential e) current v h = next_exponential-Moves e current v h

  pub next-IsValid :
      (c : Calculator Float) (current : ℤ)
      → IsValid c
      → IsValid (next fl c current).0 × (total_of (next fl c current).0 ≡ total_of c)
  unfolding next
  next-IsValid (linear l) current v = (v, refl)
  next-IsValid (exponential e) current v = next_exponential-IsValid e current v
