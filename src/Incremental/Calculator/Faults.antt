-- ===== src/Incremental/Calculator/Faults.antt =====
-- Configurations for which NewIterationCalculator does not do what its settings ask for.
use native.Mathlib.Decide.{dec_lt}
use kube_burner.Prelude.{
  ℕ, min, zero, suc, ◌+◌, ◌-◌, ◌*◌, ◌/◌, ◌^◌, ◌≤◌, ◌<◌, ◌≡◌, refl, true, false, inl, inr, arith,
  Option, none, some, List, [], ◌∷◌, length, Bool-cases, subst, ap, ◌∙◌, if◌then◌else◌, str_eq, ◌↔◌,
}
use kube_burner.Prelude.Int.{ℤ, pos, ◌<ℤ◌, sub64-eq, ltb_ℤ, add64-pos}
use kube_burner.Config.Types.{LinearLoadConfig}
use kube_burner.Incremental.Calculator.{
  Floats, Calculator, linear, Window, next, IncrementalLoad, ExponentialLoadConfig,
  exponential_pattern, linear_step, ceil_div, ceil_quot, new_iteration_calculator, start_of,
  target_of, with_linear, with_exponential, next_linear, cap_at, window,
}
use kube_burner.Incremental.Calculator.Steps.{new_positive}
use kube_burner.Incremental.Calculator.Drive.{drive, drive_stop, drive_step}

module _ (fl : Floats) where
  open fl use {Float}

  -- The settings of the pattern that the type names are missing.
  abbrev pub PatternIsNil : IncrementalLoad Float → Type 0
  PatternIsNil cfg =
      if str_eq cfg.pattern.type exponential_pattern
      then cfg.pattern.exponential ≡ none
      else (cfg.pattern.linear ≡ none)

  with_linear-none :
      (s t : ℤ) (o : Option LinearLoadConfig) → (with_linear fl s t o ≡ none) ↔ (o ≡ none)
  unfolding with_linear
  with_linear-none s t none = ((λ h. refl), (λ h. refl))
  with_linear-none s t (some l) = ((λ h. cc), (λ h. cc))

  with_exponential-none :
      (s t : ℤ) (o : Option (ExponentialLoadConfig Float))
      → (with_exponential fl s t o ≡ none) ↔ (o ≡ none)
  unfolding with_exponential
  with_exponential-none s t none = ((λ h. refl), (λ h. refl))
  with_exponential-none s t (some l) = ((λ h. cc), (λ h. cc))

  -- With a positive number of iterations, the constructor dereferences nil exactly when the
  -- settings of the chosen pattern are missing, a linear pattern without `linear` included.
  pub new_iteration_calculator-nil :
      (j : ℤ) (cfg : IncrementalLoad Float)
      → pos 0 <ℤ target_of fl j cfg
      → (new_iteration_calculator fl j cfg ≡ none) ↔ PatternIsNil cfg
  new_iteration_calculator-nil j cfg h =
      let made = new_positive fl j cfg h in
      elim (Bool-cases (str_eq cfg.pattern.type exponential_pattern)) [
        | inl e ↦ rw (made, e) (with_exponential-none _ _ cfg.pattern.exponential)
        | inr e ↦ rw (made, e) (with_linear-none _ _ cfg.pattern.linear)
      ]

  -- A linear calculator by steps of 2 that is at most 2 · k below its total ends within k steps.
  by_twos : ℤ → ℤ → Calculator Float
  by_twos start total = linear (record { start = start; total = total; step = pos 2 })

  twos_end :
      (start total : ℕ) → (next fl (by_twos (pos start) (pos total)) (pos total)).1.done ≡ true
  unfolding by_twos next next_linear
  twos_end start total = ground arith

  twos_window :
      (start total current : ℕ)
      → 0 < current
      → current < total
      → total < 2 ^ 62
      → (next fl (by_twos (pos start) (pos total)) (pos current)).1
        ≡ window (pos current) (pos (min (current + 2) total)) false
  unfolding by_twos next next_linear cap_at
  twos_window start total current p q b = ground (arith, add64-pos current 2)

  twos_same :
      (start total current : ℤ) → (next fl (by_twos start total) current).0 ≡ by_twos start total
  unfolding by_twos next
  twos_same start total current = refl

  abbrev Short : ℕ → ℕ → ℕ → ℕ → Type 0
  Short k start total current =
      (ends : List ℤ) × (drive fl (suc k) (by_twos (pos start) (pos total)) (pos current)
        ≡ some ends)
      × (length ends ≤ k)

  twos_stop : (k start total current : ℕ) → current ≡ total → Short k start total current
  twos_stop k start total current e =
      ([], drive_stop fl k _ _ (rw e (twos_end start total)), omega arith)

  twos-Short :
      (k start total current : ℕ)
      → 0 < current
      → current ≤ total
      → total < 2 ^ 62
      → total ≤ current + 2 * k
      → Short k start total current
  twos-Short zero start total current p q b h = twos_stop zero start total current (omega arith)
  twos-Short (suc k) start total current p q b h = elim (dec_lt current total) [
    | no stop ↦ twos_stop (suc k) start total current (omega arith)
    | yes go ↦
        let w = twos_window start total current p go b in
        let later = min (current + 2) total in
        let (ends, runs, short) =
          twos-Short k start total later (omega arith) (omega arith) b (omega arith) in
        (
          pos later ∷ ends,
          subst
              (λ (e : ℤ).
                drive fl (suc (suc k)) (by_twos (pos start) (pos total)) (pos current)
                ≡ some (e ∷ ends))
              (ap (λ (x : Window). x.end) w)
              (drive_step fl (suc k) _ _ ends (ap (λ (x : Window). x.done) w)
                (rw (twos_same (pos start) (pos total) (pos current), w) runs)),
          omega (arith, short),
        )
  ]

  -- ⌈(m + 1) / p⌉ < m and ⌈(m + 1) / m⌉ = 2.
  few_steps : (m p : ℕ) → 5 ≤ m → 2 ≤ p → (m + 1 + p - 1) / p < m
  few_steps m p h k = grind arith

  step_two : (m : ℕ) → 5 ≤ m → (m + 1 + m - 1) / m ≡ 2
  step_two m h = grind arith

  linear_step_two :
      (m s p : ℕ)
      → 5 ≤ m
      → 2 ≤ p
      → s + m + 1 < 2 ^ 62
      → linear_step fl (pos s) (pos (s + m + 1)) (record { min_steps = pos m; step_size = pos p })
        ≡ pos 2
  unfolding linear_step ceil_div ceil_quot
  linear_step_two m s p h k b = ground (
    arith,
    sub64-eq (pos (s + m + 1)) (pos s) (omega arith) (omega arith) (omega arith),
    few_steps m p h k,
    step_two m h,
  )

  twos_first :
      (s t : ℕ)
      → 0 < s
      → s < t
      → (next fl (by_twos (pos s) (pos t)) (pos 0)).1 ≡ window (pos 0) (pos s) false
  unfolding by_twos next next_linear cap_at
  twos_first s t h k = ground arith

  twos_run :
      (k s t : ℕ)
      → 0 < s
      → s < t
      → t < 2 ^ 62
      → t ≤ s + 2 * k
      → (ends : List ℤ) × (drive fl (suc (suc k)) (by_twos (pos s) (pos t)) (pos 0) ≡ some ends)
        × (length ends < suc (suc k))
  twos_run k s t p q b h =
      let w = twos_first s t p q in
      let (ends, runs, short) = twos-Short k s t s p (omega arith) b h in
      (
        pos s ∷ ends,
        subst
            (λ (e : ℤ). drive fl (suc (suc k)) (by_twos (pos s) (pos t)) (pos 0) ≡ some (e ∷ ends))
            (ap (λ (x : Window). x.end) w)
            (drive_step fl (suc k) _ _ ends (ap (λ (x : Window). x.done) w)
              (rw (twos_same (pos s) (pos t) (pos 0), w) runs)),
        omega (arith, short),
      )

  twos_run_of :
      (m s : ℕ)
      → 5 ≤ m
      → 0 < s
      → s + m + 1 < 2 ^ 62
      → (ends : List ℤ) × (drive fl m (by_twos (pos s) (pos (s + m + 1))) (pos 0) ≡ some ends)
        × (length ends < m)
  twos_run_of zero s h p b = absurd (omega arith)
  twos_run_of (suc zero) s h p b = absurd (omega arith)
  twos_run_of (suc (suc k)) s h p b =
      twos_run k s (s + suc (suc k) + 1) p (omega arith) b (omega arith)

  with_linear_twos :
      (m s p : ℕ)
      → 5 ≤ m
      → 2 ≤ p
      → s + m + 1 < 2 ^ 62
      → with_linear fl
          (pos s)
          (pos (s + m + 1))
          (some (record { min_steps = pos m; step_size = pos p }))
        ≡ some (by_twos (pos s) (pos (s + m + 1)))
  unfolding with_linear by_twos
  with_linear_twos m s p h k b = rw (linear_step_two m s p h k b)

  start_of-pos :
      (j : ℤ) (cfg : IncrementalLoad Float) (s : ℕ)
      → 0 < s
      → cfg.start_iterations ≡ pos s
      → start_of fl j cfg ≡ pos s
  start_of-pos j cfg s h e = ground arith

  target_of-pos :
      (j : ℤ) (cfg : IncrementalLoad Float) (s t : ℕ)
      → s ≤ t
      → start_of fl j cfg ≡ pos s
      → cfg.total_iterations ≡ pos t
      → target_of fl j cfg ≡ pos t
  target_of-pos j cfg s t h e k = rw (e, k) (not_below s t h)
    where
      not_below : (s t : ℕ) → s ≤ t → (if ltb_ℤ (pos t) (pos s) then pos s else pos t) ≡ pos t
      not_below s t h = ground arith

  -- pattern.linear.minSteps is no minimum: with m + 1 iterations to add and any step size from 2,
  -- minSteps m ≥ 5 is replaced by steps of 2, and the run ends in fewer than m windows. The conditions:
  -- the run starts above 0, and its total and the step size are below 2^53, where a float64 is exact.
  pub min_steps_missed :
      (m s p : ℕ) (j : ℤ) (cfg : IncrementalLoad Float)
      → 5 ≤ m
      → 0 < s
      → 2 ≤ p
      → s + m + 1 < 2 ^ 53
      → p < 2 ^ 53
      → cfg.start_iterations ≡ pos s
      → cfg.total_iterations ≡ pos (s + m + 1)
      → str_eq cfg.pattern.type exponential_pattern ≡ false
      → cfg.pattern.linear ≡ some (record { min_steps = pos m; step_size = pos p })
      → (c : Calculator Float) × (ends : List ℤ) × (new_iteration_calculator fl j cfg ≡ some c)
        × (drive fl m c (pos 0) ≡ some ends)
        × (length ends < m)
  min_steps_missed m s p j cfg h hs hp below exact e_start e_total e_type e_linear =
      let b : s + m + 1 < 2 ^ 62 = omega arith in
      let (ends, runs, short) = twos_run_of m s h hs b in
      let start = start_of-pos j cfg s hs e_start in
      let total = target_of-pos j cfg s (s + m + 1) (omega arith) start e_total in
      let positive : pos 0 <ℤ target_of fl j cfg = rw total (omega arith) in
      (
        by_twos (pos s) (pos (s + m + 1)),
        ends,
        new_positive fl j cfg positive
            ∙ rw (e_type, total, start, e_linear) (with_linear_twos m s p h hp b),
        runs,
        short,
      )
