-- ===== src/Tests/Incremental.antt =====
-- Tests of RunIncrementalCreateJob.
use kube_burner.Prelude.{ℕ, true, arith}
use kube_burner.Prelude.Int.{pos}
use kube_burner.Incremental.Calculator.{Floats, Calculator, linear}
use kube_burner.Incremental.Calculator.Progress.{IsValid}
use kube_burner.Incremental.Run.{run_incremental_create_job}
use kube_burner.Incremental.Run.Outcome.{Sat}
use kube_burner.Incremental.Run.Reach.{
  ReturnsWithin, IsCreated, run_incremental_create_job-ReturnsWithin,
}
use kube_burner.Tests.Fixtures.{start_world, serving}

abbrev no_fractions : Floats
no_fractions = record {
  Float = ℕ;
  two = 2;
  is_positive = λ x. true;
  pow_int = λ b n. pos 1;
  inf_int = λ a. pos 0;
}

abbrev two_then_two : Calculator ℕ
two_then_two = linear (record { start = pos 2; total = pos 4; step = pos 2 })

two_then_two-IsValid : IsValid no_fractions two_then_two
two_then_two-IsValid = record {
  starts = omega arith;
  fits = omega arith;
  total_bounded = omega arith;
  step_positive = omega arith;
  step_bounded = omega arith;
}

run_incremental_create_job-ReturnsWithin_example :
    Sat (ReturnsWithin (IsCreated serving true "check.sh" (pos 1) start_world) (pos 4)) (
      run_incremental_create_job serving true "check.sh"
        (pos 1)
        no_fractions
        5
        two_then_two
        start_world)
run_incremental_create_job-ReturnsWithin_example =
    run_incremental_create_job-ReturnsWithin serving true "check.sh" (pos 1) no_fractions
      two_then_two start_world two_then_two-IsValid (omega arith)
