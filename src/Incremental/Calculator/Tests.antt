-- ===== src/Incremental/Calculator/Tests.antt =====
-- Tests of pkg/burner/incremental.go.
use kube_burner.Prelude.{ℕ, true, false, List, none, some, ◌≡◌, ◌↔◌, refl, length, ◌<◌, arith}
use kube_burner.Prelude.Int.{ℤ, pos, sub64, ◌-ℤ◌, wrap64}
use kube_burner.Incremental.Calculator.{
  Floats, with_linear, linear_step, ceil_div, ceil_quot, Calculator, linear, IncrementalLoad,
  new_iteration_calculator,
}
use kube_burner.Incremental.Calculator.Progress.{IsValid, total_of}
use kube_burner.Incremental.Calculator.Drive.{drive, ClimbsTo, drive_reaches_total}
use kube_burner.Incremental.Calculator.Steps.{IsSane, new_iteration_calculator-IsValid}
use kube_burner.Incremental.Calculator.Faults.{
  PatternIsNil, new_iteration_calculator-nil, min_steps_missed,
}

-- Floats that are whole numbers.
abbrev whole : Floats
whole = record {
  Float = ℕ;
  two = 2;
  is_positive = λ x. true;
  pow_int = λ b n. pos 1;
  inf_int = λ a. pos 0;
}

abbrev by_three : Calculator ℕ
by_three = linear (record { start = pos 2; total = pos 10; step = pos 3 })

abbrev by_three_load : IncrementalLoad ℕ
by_three_load = record {
  start_iterations = pos 2;
  total_iterations = pos 10;
  step_delay = pos 0;
  pattern = record {
    type = "linear";
    linear = some (record { min_steps = pos 0; step_size = pos 3 });
    exponential = none;
  };
  health_check_script = "";
  scrape_metrics_per_step = false;
}

-- A linear pattern with seven steps asked for.
abbrev seven_steps : IncrementalLoad ℕ
seven_steps = record by_three_load {
  pattern = record {
    type = "linear";
    linear = some (record { min_steps = pos 7; step_size = pos 3 });
    exponential = none;
  };
}

by_three-IsValid : IsValid whole by_three
by_three-IsValid = record {
  starts = omega arith;
  fits = omega arith;
  total_bounded = omega arith;
  step_positive = omega arith;
  step_bounded = omega arith;
}

by_three_load-IsSane : IsSane whole (pos 1) by_three_load
by_three_load-IsSane = record {
  iterations = omega arith;
  iterations_bounded = omega arith;
  start_bounded = omega arith;
  total_bounded = omega arith;
  linear_bounded = λ c e. ground (arith, e);
  exponential_capped = λ c e. cc;
}

drive_reaches_total_example :
    (ends : List ℤ) × (drive whole 11 by_three (pos 0) ≡ some ends)
    × ClimbsTo whole (pos 10) (pos 0) ends
drive_reaches_total_example = drive_reaches_total whole by_three by_three-IsValid (omega arith)

made : new_iteration_calculator whole (pos 1) by_three_load ≡ some by_three
unfolding new_iteration_calculator with_linear linear_step ceil_div ceil_quot sub64 ◌-ℤ◌ wrap64
made = refl

new_iteration_calculator-IsValid_example :
    IsValid whole by_three × (total_of whole by_three ≡ pos 10)
new_iteration_calculator-IsValid_example =
    new_iteration_calculator-IsValid whole (pos 1) by_three_load by_three by_three_load-IsSane made

new_iteration_calculator-nil_example :
    (new_iteration_calculator whole (pos 1) by_three_load ≡ none) ↔ PatternIsNil whole by_three_load
new_iteration_calculator-nil_example =
    new_iteration_calculator-nil whole (pos 1) by_three_load (omega arith)

min_steps_missed_example :
    (c : Calculator ℕ) × (ends : List ℤ) × (new_iteration_calculator whole (pos 1) seven_steps
      ≡ some c)
    × (drive whole 7 c (pos 0) ≡ some ends)
    × (length ends < 7)
min_steps_missed_example =
    min_steps_missed whole 7 2 3 (pos 1) seven_steps (omega arith) (omega arith) (omega arith)
      (omega arith) (omega arith) refl refl refl refl
