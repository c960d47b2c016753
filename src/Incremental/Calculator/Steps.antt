-- ===== src/Incremental/Calculator/Steps.antt =====
-- NewIterationCalculator: which calculator a configuration gives, and how many steps it makes.
use mathlib.Core.Option.{some-injective}
use kube_burner.Prelude.{
  ℕ, ◌+◌, ◌-◌, ◌/◌, ◌^◌, ◌≤◌, ◌<◌, ◌≡◌, refl, false, inl, inr, arith, Option, none, some,
  Bool-cases, subst, sym, ◌∙◌, if◌then◌else◌, str_eq,
}
use kube_burner.Prelude.Int.{ℤ, pos, negsuc, ◌≤ℤ◌, ◌<ℤ◌, nonneg_parts, sub64, sub64-eq, leb_ℤ}
use kube_burner.Config.Types.{LinearLoadConfig}
use kube_burner.Incremental.Calculator.{
  Floats, Calculator, IncrementalLoad, ExponentialLoadConfig, exponential_pattern, linear_step,
  ceil_div, ceil_quot, exponential_of, new_iteration_calculator, start_of, target_of, with_linear,
  with_exponential,
}
use kube_burner.Incremental.Calculator.Progress.{IsValid, total_of}

ceil_le : (a b : ℕ) → 0 < b → (a + b - 1) / b ≤ a
ceil_le a b h = grind arith

pub positive_not_le : (a : ℤ) → pos 0 <ℤ a → leb_ℤ a (pos 0) ≡ false
positive_not_le a h = ground arith

module _ (fl : Floats) where
  open fl use {Float}

  -- A configuration in the ranges that it is meant for: no number wraps, and an exponential
  -- pattern has its maximum increase set.
  pub record IsSane (job_iterations : ℤ) (cfg : IncrementalLoad Float) : Type 0 where
    pub iterations : pos 0 <ℤ job_iterations
    pub iterations_bounded : job_iterations <ℤ pos (2 ^ 62)
    pub start_bounded : cfg.start_iterations <ℤ pos (2 ^ 62)
    pub total_bounded : cfg.total_iterations <ℤ pos (2 ^ 62)
    pub linear_bounded :
        (c : LinearLoadConfig) → cfg.pattern.linear ≡ some c → c.step_size ≤ℤ pos (2 ^ 62)
    pub exponential_capped :
        (c : ExponentialLoadConfig Float)
        → cfg.pattern.exponential ≡ some c
        → (pos 0 <ℤ c.max_increase) × (c.max_increase ≤ℤ pos (2 ^ 62))

  ceil_div_le : (a b : ℤ) → pos 0 ≤ℤ a → pos 0 <ℤ b → ceil_div fl a b ≤ℤ a
  unfolding ceil_div ceil_quot
  ceil_div_le (pos a) (pos b) h k = ground (arith, ceil_le a b)
  ceil_div_le (pos a) (negsuc b) h k = absurd (omega arith)
  ceil_div_le (negsuc a) b h k = absurd (omega arith)

  linear_step_bounds :
      (start total : ℤ) (c : LinearLoadConfig)
      → pos 0 <ℤ start
      → start ≤ℤ total
      → total <ℤ pos (2 ^ 62)
      → c.step_size ≤ℤ pos (2 ^ 62)
      → (pos 0 <ℤ linear_step fl start total c) × (linear_step fl start total c ≤ℤ pos (2 ^ 62))
  unfolding linear_step
  linear_step_bounds start total c h k b s = ground (
    arith,
    sub64-eq total start (omega arith) k b,
    nonneg_parts total,
    nonneg_parts start,
    ceil_div_le (sub64 total start) c.min_steps,
  )

  target_bounds :
      (j : ℤ) (cfg : IncrementalLoad Float)
      → IsSane j cfg
      → (pos 0 <ℤ start_of fl j cfg)
        × (start_of fl j cfg ≤ℤ target_of fl j cfg)
        × (target_of fl j cfg <ℤ pos (2 ^ 62))
  target_bounds j cfg v =
      ground (arith, v.iterations, v.iterations_bounded, v.start_bounded, v.total_bounded)

  with_linear-IsValid :
      (start total : ℤ) (o : Option LinearLoadConfig)
      → pos 0 <ℤ start
      → start ≤ℤ total
      → total <ℤ pos (2 ^ 62)
      → ((c : LinearLoadConfig) → o ≡ some c → c.step_size ≤ℤ pos (2 ^ 62))
      → (c : Calculator Float) → with_linear fl start total o ≡ some c
      → IsValid fl c × (total_of fl c ≡ total)
  unfolding with_linear
  with_linear-IsValid start total none h k b s c e = cc
  with_linear-IsValid start total (some l) h k b s c e =
      subst (λ c. IsValid fl c × (total_of fl c ≡ total)) (some-injective _ _ e)
        (
          record {
            starts = h;
            fits = k;
            total_bounded = b;
            step_positive = bounds.0;
            step_bounded = bounds.1;
          },
          refl,
        )
    where
      bounds :
          (pos 0 <ℤ linear_step fl start total l) × (linear_step fl start total l ≤ℤ pos (2 ^ 62))
      bounds = linear_step_bounds start total l h k b (s l refl)

  with_exponential-IsValid :
      (start total : ℤ) (o : Option (ExponentialLoadConfig Float))
      → pos 0 <ℤ start
      → start ≤ℤ total
      → total <ℤ pos (2 ^ 62)
      → ((c : ExponentialLoadConfig Float)
          → o ≡ some c
          → (pos 0 <ℤ c.max_increase) × (c.max_increase ≤ℤ pos (2 ^ 62)))
      → (c : Calculator Float) → with_exponential fl start total o ≡ some c
      → IsValid fl c × (total_of fl c ≡ total)
  unfolding with_exponential exponential_of
  with_exponential-IsValid start total none h k b s c e = cc
  with_exponential-IsValid start total (some l) h k b s c e =
      subst (λ c. IsValid fl c × (total_of fl c ≡ total)) (some-injective _ _ e)
        (
          record { starts = h; fits = k; total_bounded = b; increase_bounded = inl (s l refl) },
          refl,
        )

  pub new_positive :
      (j : ℤ) (cfg : IncrementalLoad Float)
      → pos 0 <ℤ target_of fl j cfg
      → new_iteration_calculator fl j cfg ≡ (
          if str_eq cfg.pattern.type exponential_pattern
          then with_exponential fl (start_of fl j cfg) (target_of fl j cfg) cfg.pattern.exponential
          else with_linear fl (start_of fl j cfg) (target_of fl j cfg) cfg.pattern.linear)
  unfolding new_iteration_calculator
  new_positive j cfg h =
      let not_le : leb_ℤ (target_of fl j cfg) (pos 0) ≡ false = positive_not_le _ h in rw not_le

  -- For a configuration in the ranges that it is meant for, the calculator is a valid one, whose
  -- total is totalIterations or, where that is larger, the number of iterations of the first step.
  pub new_iteration_calculator-IsValid :
      (j : ℤ) (cfg : IncrementalLoad Float) (c : Calculator Float)
      → IsSane j cfg
      → new_iteration_calculator fl j cfg ≡ some c
      → IsValid fl c × (total_of fl c ≡ target_of fl j cfg)
  new_iteration_calculator-IsValid j cfg c v e =
      let (h, k, b) = target_bounds j cfg v in
      let made = sym (new_positive j cfg (omega (arith, h, k))) ∙ e in
      elim (Bool-cases (str_eq cfg.pattern.type exponential_pattern)) [
        | inl yes_exponential ↦
            with_exponential-IsValid (start_of fl j cfg) (target_of fl j cfg)
              cfg.pattern.exponential h k b v.exponential_capped c (rw yes_exponential at made)
        | inr not_exponential ↦
            with_linear-IsValid (start_of fl j cfg) (target_of fl j cfg) cfg.pattern.linear h k b
              v.linear_bounded c (rw not_exponential at made)
      ]
