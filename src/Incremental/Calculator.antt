-- ===== src/Incremental/Calculator.antt =====
-- pkg/burner/incremental.go, lines 36 to 156: the iteration windows of an incremental run, and the
-- load configuration of pkg/config/types.go that they are computed from. A nil dereference is
-- `none`. Go's int is ℤ, and its sums, differences
-- and products wrap to 64 bits. Floats are a parameter, but for the quotient of two ints
-- that math.Ceil rounds up, which is exact below 2 ^ 53.
pub mod Progress
pub mod Drive
pub mod Steps
pub mod Faults
mod Tests
use kube_burner.Prelude.{
  ℕ, zero, suc, ◌+◌, ◌-◌, ◌*◌, ◌/◌, Bool, true, false, ◌&&◌, ◌||◌, String, Option, none, some,
  if◌then◌else◌, str_eq,
}
use kube_burner.Prelude.Int.{
  ℤ, pos, negsuc, add64, sub64, mul64, ◌+ℤ◌, ◌-ℤ◌, ◌*ℤ◌, ltb_ℤ, leb_ℤ, eqb_ℤ, pos_part, neg_part,
}
use kube_burner.Config.Types.{LinearLoadConfig}

-- The float operations of this file: `pow_int b n` is int(math.Pow(b, float64(n))), and `inf_int a`
-- is int(math.Ceil(float64(a) / 0)), which Go leaves to the implementation.
pub record Floats : Type 1 where
  pub Float : Type 0
  pub two : Float
  pub is_positive : Float → Bool
  pub pow_int : Float → ℤ → ℤ
  pub inf_int : ℤ → ℤ

pub record ExponentialLoadConfig (F : Type 0) : Type 0 where
  pub base : F
  pub max_increase : ℤ
  pub warmup_steps : ℤ

abbrev pub exponential_pattern : String
exponential_pattern = "exponential"

pub record LoadPattern (F : Type 0) : Type 0 where
  pub type : String
  pub linear : Option LinearLoadConfig
  pub exponential : Option (ExponentialLoadConfig F)

pub record IncrementalLoad (F : Type 0) : Type 0 where
  pub start_iterations : ℤ
  pub total_iterations : ℤ
  pub step_delay : ℤ
  pub pattern : LoadPattern F
  pub health_check_script : String
  pub scrape_metrics_per_step : Bool

pub record LinearCalculator : Type 0 where
  pub start : ℤ
  pub total : ℤ
  pub step : ℤ

pub record ExponentialCalculator (F : Type 0) : Type 0 where
  pub start : ℤ
  pub total : ℤ
  pub base : F
  pub max_increase : ℤ
  pub warmup : ℤ
  pub step_no : ℤ

-- The implementations of the interface IterationCalculator.
pub data Calculator (F : Type 0) : Type 0 where
  linear : LinearCalculator → Calculator F
  exponential : ExponentialCalculator F → Calculator F

-- The results of Next.
pub record Window : Type 0 where
  pub start : ℤ
  pub end : ℤ
  pub done : Bool

abbrev window : ℤ → ℤ → Bool → Window
window s e d = record { start = s; end = e; done = d }

-- if next > total { next = total }
cap_at : ℤ → ℤ → ℤ
cap_at next total = if ltb_ℤ total next then total else next

next_linear : LinearCalculator → ℤ → Window
next_linear l current =
    if leb_ℤ l.total (pos 0) || eqb_ℤ current l.total
    then window (pos 0) (pos 0) true
    else if eqb_ℤ current (pos 0)
    then window (pos 0) (cap_at l.start l.total) false
    else window current (cap_at (add64 current l.step) l.total) false

-- int(math.Ceil(float64(a) / float64(b))) for b other than 0. Numbers below 2^53 are float64s, and the
-- rounding of their quotient does not pass an integer: a quotient that is none lies at least 1 / b from
-- the next one, which is more than half the distance of two float64s there. From 2^53 on the float64
-- quotient differs.
ceil_quot : ℤ → ℤ → ℤ
ceil_quot (pos a) (pos b) = pos ((a + b - 1) / b)
ceil_quot (pos a) (negsuc b) = pos 0 -ℤ pos (a / suc b)
ceil_quot (negsuc a) (pos b) = pos 0 -ℤ pos (suc a / b)
ceil_quot (negsuc a) (negsuc b) = pos ((suc a + b) / suc b)

module _ (fl : Floats) where
  open fl use {Float, two, is_positive, pow_int, inf_int}

  ceil_div : ℤ → ℤ → ℤ
  ceil_div a b = if eqb_ℤ b (pos 0) then inf_int a else ceil_quot a b

  -- The increase of a step behind the warmup: at least 1, and at most maxIncrease if that is set.
  increase : ExponentialCalculator Float → ℤ → ℤ
  increase e step_no =
      let exp_power = if ltb_ℤ (pos 0) e.warmup then sub64 step_no e.warmup else step_no in
      let raw = mul64 (pow_int e.base exp_power) e.start in
      let grown = if leb_ℤ raw (pos 0) then pos 1 else raw in
      if ltb_ℤ (pos 0) e.max_increase && ltb_ℤ e.max_increase grown then e.max_increase else grown

  -- The pointer receiver keeps stepNo: the calculator is returned with the window.
  next_exponential : ExponentialCalculator Float → ℤ → ExponentialCalculator Float × Window
  next_exponential e current =
      let step_no = add64 e.step_no (pos 1) in
      let moved = record e { step_no = step_no } in
      if leb_ℤ e.total (pos 0) || eqb_ℤ current e.total
      then (e, window (pos 0) (pos 0) true)
      else if eqb_ℤ current (pos 0)
      then (record e { step_no = pos 1 }, window (pos 0) (cap_at e.start e.total) false)
      else if ltb_ℤ (pos 0) e.warmup && leb_ℤ step_no e.warmup
      then (moved, window current (cap_at (add64 current e.start) e.total) false)
      else (moved, window current (cap_at (add64 current (increase e step_no)) e.total) false)

  pub next : Calculator Float → ℤ → Calculator Float × Window
  next (linear l) current = (linear l, next_linear l current)
  next (exponential e) current = let (e', w) = next_exponential e current in (exponential e', w)

  -- The step of a linear pattern, from its two settings.
  linear_step : ℤ → ℤ → LinearLoadConfig → ℤ
  linear_step start total cfg =
      let remaining = sub64 total start in
      let total_steps = ceil_div remaining cfg.step_size in
      let step =
        if ltb_ℤ (pos 0) cfg.min_steps && ltb_ℤ total_steps cfg.min_steps
        then (if leb_ℤ remaining (pos 0) then total else ceil_div remaining cfg.min_steps)
        else cfg.step_size in
      if leb_ℤ step (pos 0) then pos 1 else step

  exponential_of : ℤ → ℤ → ExponentialLoadConfig Float → ExponentialCalculator Float
  exponential_of start total cfg = record {
    start = start;
    total = total;
    base = if is_positive cfg.base then cfg.base else two;
    max_increase = cfg.max_increase;
    warmup = cfg.warmup_steps;
    step_no = pos 0;
  }

  -- startIterations, or jobIterations in its place; and totalIterations, at least that.
  abbrev pub start_of : ℤ → IncrementalLoad Float → ℤ
  start_of job_iterations cfg =
      if leb_ℤ cfg.start_iterations (pos 0) then job_iterations else cfg.start_iterations

  abbrev pub target_of : ℤ → IncrementalLoad Float → ℤ
  target_of job_iterations cfg =
      if ltb_ℤ cfg.total_iterations (start_of job_iterations cfg)
      then start_of job_iterations cfg
      else cfg.total_iterations

  -- `pattern.exponential` and `pattern.linear` are dereferenced also when they are nil: the code
  -- tests the first for nil behind its use, and uses the second behind a test for nil.
  pub with_exponential : ℤ → ℤ → Option (ExponentialLoadConfig Float) → Option (Calculator Float)
  with_exponential start total none = none
  with_exponential start total (some c) = some (exponential (exponential_of start total c))

  pub with_linear : ℤ → ℤ → Option LinearLoadConfig → Option (Calculator Float)
  with_linear start total none = none
  with_linear start total (some c) =
      some (linear (record { start = start; total = total; step = linear_step start total c }))

  pub new_iteration_calculator : ℤ → IncrementalLoad Float → Option (Calculator Float)
  new_iteration_calculator job_iterations cfg =
      let start = start_of job_iterations cfg in
      let total = target_of job_iterations cfg in
      if leb_ℤ total (pos 0)
      then some (linear (record { start = pos 0; total = pos 0; step = pos 0 }))
      else if str_eq cfg.pattern.type exponential_pattern
      then with_exponential start total cfg.pattern.exponential
      else with_linear start total cfg.pattern.linear
