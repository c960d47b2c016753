-- ===== src/Incremental/Run/Reach.antt =====
-- The loop of RunIncrementalCreateJob ends, and its steps stay within the total.
use kube_burner.Prelude.{
  ℕ, zero, suc, ◌+◌, ◌<◌, String, Bool, true, false, not, ◌&&◌, List, [], ◌∷◌, ◌++◌, Option, none,
  some, if◌then◌else◌, ◌≡◌, refl, ◌∙◌, subst, ap, arith, All, All-append, inl, inr, ◌⊎◌,
}
use kube_burner.Prelude.Int.{ℤ, pos, pos_part, ◌≤ℤ◌, ◌<ℤ◌, ltb_ℤ, eq_of_parts, nonneg_parts}
use kube_burner.Config.Validate.{is_empty}
use kube_burner.Executor.{World, Cluster, M, pure, ◌>>=◌, emit, slept}
use kube_burner.Create.Run.{run_create_job}
use kube_burner.Gc.{gc}
use kube_burner.Verify.{verify}
use kube_burner.Incremental.Calculator.{Floats, Calculator, next}
use kube_burner.Incremental.Calculator.Progress.{IsValid, total_of, Moves, next-Moves, next-IsValid}
use kube_burner.Incremental.Run.Outcome.{Sat, bind-Sat, known-Sat, known-chain-Sat, if-Sat}
use kube_burner.Incremental.Run.{
  StepJob, RunEnd, out_of_fuel, returned, StepEnd, leaves, goes_on, Original, original_of,
  step_jobs, run_steps, run_step, verify_step, close_step, finish_step, after_step,
  stop_measurements, start_step, restore, health_check, run_incremental_create_job,
}

-- The worlds that the rounds of a run come to that starts in a world.
pub data Rounds (k : Cluster) (gc_metrics : Bool) (script : String) (step_delay : ℤ) (first : World)
    : World → Type 0 where
  begins : Rounds k gc_metrics script step_delay first first
  round :
      (end : ℤ) (errs more_errs : List String) (jobs more_jobs : List StepJob)
      (before after : World)
      → Rounds k gc_metrics script step_delay first before
      → run_step k gc_metrics script step_delay end errs jobs before
        ≡ some (goes_on more_errs more_jobs, after)
      → Rounds k gc_metrics script step_delay first after

-- A round of the run that starts in a world has called RunCreateJob for the iterations below a number,
-- and the call returned no error.
abbrev pub IsCreated : Cluster → Bool → String → ℤ → World → ℤ → Type 0
IsCreated k gc_metrics script step_delay first n =
    (before started after : World) × (run_id : String) × Rounds k gc_metrics script step_delay first
      before
    × (start_step k gc_metrics script step_delay n before ≡ some (run_id, started))
    × (run_create_job k 0 (pos_part n) started ≡ some ([], after))

-- A step job of a run that made from 1 to `total` iterations.
abbrev pub IsWithin : (ℤ → Type 0) → ℤ → StepJob → Type 0
IsWithin Made total j = (pos 0 <ℤ j.iterations) × (j.iterations ≤ℤ total) × Made j.iterations

abbrev StepsWithin : (ℤ → Type 0) → ℤ → StepEnd → Type 0
StepsWithin Made total (leaves errs jobs) = All (IsWithin Made total) jobs
StepsWithin Made total (goes_on errs jobs) = All (IsWithin Made total) jobs

-- The method has returned, with step jobs within the total.
abbrev pub ReturnsWithin : (ℤ → Type 0) → ℤ → RunEnd → Type 0
ReturnsWithin Made total out_of_fuel = ⊥
ReturnsWithin Made total (returned errs jobs) = All (IsWithin Made total) jobs

step_jobs-IsWithin :
    (Made : ℤ → Type 0) (total : ℤ) (gc_metrics : Bool) (end : ℤ) (run_id : String)
    → pos 0 <ℤ end
    → end ≤ℤ total
    → Made end
    → All (IsWithin Made total) (step_jobs gc_metrics end run_id)
unfolding step_jobs
step_jobs-IsWithin Made total true end run_id h p made = ((h, p, made), ((h, p, made), tt))
step_jobs-IsWithin Made total false end run_id h p made = ((h, p, made), tt)

module _ (Made : ℤ → Type 0) (k : Cluster) (gc_metrics : Bool) (script : String)
    (step_delay total end : ℤ) (up : pos 0 <ℤ end) (within : end ≤ℤ total) where
  finish_step-Within :
      (run_id : String) (errs : List String) (jobs : List StepJob) (failed : Option String)
      (w : World)
      → Made end
      → All (IsWithin Made total) jobs
      → Sat
          (StepsWithin Made total)
          (finish_step k gc_metrics script step_delay end run_id errs jobs failed w)
  unfolding finish_step
  finish_step-Within run_id errs jobs (some e) w made h =
      bind-Sat (StepsWithin Made total)
        (stop_measurements k gc_metrics script step_delay (errs ++ (e ∷ [])))
        (λ all_errs. pure (leaves all_errs jobs)) w (λ a after. h)
  finish_step-Within run_id errs jobs none w made h =
      bind-Sat (StepsWithin Made total) (stop_measurements k gc_metrics script step_delay errs) _ w
        (λ all_errs after. bind-Sat (StepsWithin Made total) (gc k) _ after (λ a later.
          bind-Sat (StepsWithin Made total)
            (if ltb_ℤ (pos 0) step_delay then emit (slept step_delay) else pure tt)
            (λ b. pure (goes_on all_errs (jobs ++ step_jobs gc_metrics end run_id))) later
            (λ b last. longer)))
    where
      longer : All (IsWithin Made total) (jobs ++ step_jobs gc_metrics end run_id)
      longer =
          All-append (IsWithin Made total) jobs (step_jobs gc_metrics end run_id)
            (step_jobs-IsWithin Made total gc_metrics end run_id up within made) h

  close_step-Within :
      (run_id : String) (errs : List String) (jobs : List StepJob) (w : World)
      → Made end
      → All (IsWithin Made total) jobs
      → Sat
          (StepsWithin Made total)
          (close_step k gc_metrics script step_delay end run_id errs jobs w)
  unfolding close_step
  close_step-Within run_id errs jobs w made h =
      bind-Sat (StepsWithin Made total) (health_check k gc_metrics script step_delay)
        (finish_step k gc_metrics script step_delay end run_id errs jobs) w
        (λ failed after. finish_step-Within run_id errs jobs failed after made h)

  verify_step-Within :
      (run_id : String) (errs : List String) (jobs : List StepJob) (w : World)
      → Made end
      → All (IsWithin Made total) jobs
      → Sat
          (StepsWithin Made total)
          (verify_step k gc_metrics script step_delay end run_id errs jobs w)
  unfolding verify_step
  verify_step-Within run_id errs jobs w made h =
      if-Sat (StepsWithin Made total)
        (w.executor.job.verify_objects && not (verify (k.listed w.clock) w.executor (some end)))
        (pure (
          leaves
            (if w.executor.job.error_on_verify
              then errs ++ ("object verification failed" ∷ [])
              else errs)
            jobs))
        (close_step k gc_metrics script step_delay end run_id errs jobs)
        (record w { clock = suc w.clock }) h
        (close_step-Within run_id errs jobs (record w { clock = suc w.clock }) made h)

  -- A step behind its creation.
  abbrev created_step : List String → List StepJob → String → List String → M StepEnd
  created_step errs jobs run_id create_errs =
      if not (is_empty create_errs)
      then (stop_measurements k gc_metrics script step_delay (errs ++ create_errs) >>= λ all_errs.
          pure (leaves all_errs jobs))
      else verify_step k gc_metrics script step_delay end run_id errs jobs

  created_step-Within :
      (errs : List String) (jobs : List StepJob) (run_id : String) (create_errs : List String)
      (before after : World)
      → run_create_job k 0 (pos_part end) before ≡ some (create_errs, after)
      → (run_create_job k 0 (pos_part end) before ≡ some ([], after) → Made end)
      → All (IsWithin Made total) jobs
      → Sat (StepsWithin Made total) (created_step errs jobs run_id create_errs after)
  created_step-Within errs jobs run_id [] before after made give h =
      verify_step-Within run_id errs jobs after (give made) h
  created_step-Within errs jobs run_id (e ∷ more) before after made give h =
      bind-Sat (StepsWithin Made total)
        (stop_measurements k gc_metrics script step_delay (errs ++ (e ∷ more))) _ after
        (λ a last. h)

  run_step-Within :
      (errs : List String) (jobs : List StepJob) (w : World)
      → ((started after : World) (run_id : String)
          → start_step k gc_metrics script step_delay end w ≡ some (run_id, started)
          → run_create_job k 0 (pos_part end) started ≡ some ([], after)
          → Made end)
      → All (IsWithin Made total) jobs
      → Sat (StepsWithin Made total) (run_step k gc_metrics script step_delay end errs jobs w)
  unfolding run_step
  run_step-Within errs jobs w give h =
      known-Sat (StepsWithin Made total) (start_step k gc_metrics script step_delay end) _ w
        (λ run_id started e0.
          known-Sat (StepsWithin Made total) (run_create_job k 0 (pos_part end))
            (created_step errs jobs run_id) started
            (λ create_errs after e.
              created_step-Within errs jobs run_id create_errs started after e
                (give started after run_id e0) h))

eq_or_lt : (a b : ℤ) → a ≤ℤ b → (a ≡ b) ⊎ (a <ℤ b)
eq_or_lt a b h = ground (arith, eq_of_parts a b)

module _ (k : Cluster) (gc_metrics : Bool) (script : String) (step_delay : ℤ) (fl : Floats)
    (first : World) where
  open fl use {Float}

  abbrev Made : ℤ → Type 0
  Made = IsCreated k gc_metrics script step_delay first

  run_steps-ReturnsWithin :
      (fuel : ℕ) (original : Original) (c : Calculator Float) (total current : ℤ)
      (errs : List String) (jobs : List StepJob) (w : World)
      → IsValid fl c
      → total_of fl c ≡ total
      → pos 0 ≤ℤ current
      → current ≤ℤ total
      → pos_part total < fuel + pos_part current
      → Rounds k gc_metrics script step_delay first w
      → All (IsWithin Made total) jobs
      → Sat
          (ReturnsWithin Made total)
          (run_steps k gc_metrics script step_delay fl fuel original c current errs jobs w)
  unfolding run_steps restore after_step
  run_steps-ReturnsWithin zero original c total current errs jobs w v e p q f here h =
      absurd (omega (arith, nonneg_parts current p, nonneg_parts total))
  run_steps-ReturnsWithin (suc fuel) original c total current errs jobs w v e p q f here h =
      elim (eq_or_lt current total q) [
        | inl stop ↦ rw (moves.stops stop) h
        | inr go ↦
            let win = (next fl c current).1 in
            let up = moves.forward go in
            let valid = next-IsValid fl c current v in
            rw (moves.goes_on go) (
              known-chain-Sat (StepsWithin Made total) (ReturnsWithin Made total)
                (run_step k gc_metrics script step_delay win.end errs jobs) _ w
                (run_step-Within Made k gc_metrics script step_delay total win.end
                  (omega (arith, up)) (moves.within go) errs jobs w
                  (λ started after run_id e0 e1. (w, started, after, run_id, here, e0, e1)) h)
                (λ ended after made held.
                  behind
                    (run_steps k gc_metrics script step_delay fl fuel original (next fl c current).0
                      win.end)
                    ended after held
                    (λ more_errs more_jobs same kept.
                      run_steps-ReturnsWithin fuel original (next fl c current).0 total win.end
                        more_errs more_jobs after valid.0 (valid.1 ∙ e) (omega (arith, up))
                        (moves.within go)
                        (omega (
                          arith,
                          up,
                          nonneg_parts current p,
                          nonneg_parts win.end (omega (arith, up)),
                        ))
                        (round win.end errs more_errs jobs more_jobs w after here
                          (made ∙ ap (λ x. some (x, after)) same))
                        kept)))
      ]
    where
      moves : Moves total current (next fl c current).1
      moves = subst (λ t. Moves t current (next fl c current).1) e (next-Moves fl c current v p)

      behind :
          (rest : List String → List StepJob → M RunEnd) (ended : StepEnd) (after : World)
          → StepsWithin Made total ended
          → ((more_errs : List String) (more_jobs : List StepJob)
              → ended ≡ goes_on more_errs more_jobs
              → All (IsWithin Made total) more_jobs
              → Sat (ReturnsWithin Made total) (rest more_errs more_jobs after))
          → Sat
              (ReturnsWithin Made total)
              (after_step k gc_metrics script step_delay rest ended after)
      behind rest (leaves more_errs more_jobs) after held go_on = held
      behind rest (goes_on more_errs more_jobs) after held go_on =
          go_on more_errs more_jobs refl held

-- RunIncrementalCreateJob ends, whatever the cluster answers: with fuel for one round more than the
-- total it returns, unless it panics. Each step that it reports states from 1 to the total number of
-- iterations, and a round of the run has called RunCreateJob for as many iterations, which returned
-- no error. The conditions: the calculator is valid, and its total is not negative.
pub run_incremental_create_job-ReturnsWithin :
    (k : Cluster) (gc_metrics : Bool) (script : String) (step_delay : ℤ) (fl : Floats)
    (c : Calculator (fl.Float)) (w : World)
    → IsValid fl c
    → pos 0 ≤ℤ total_of fl c
    → Sat (ReturnsWithin (IsCreated k gc_metrics script step_delay w) (total_of fl c)) (
        run_incremental_create_job k gc_metrics script step_delay fl
          (suc (pos_part (total_of fl c)))
          c
          w)
unfolding run_incremental_create_job
run_incremental_create_job-ReturnsWithin k gc_metrics script step_delay fl c w v h =
    run_steps-ReturnsWithin k gc_metrics script step_delay fl w (suc (pos_part (total_of fl c)))
      (original_of w.executor) c (total_of fl c) (pos 0) [] [] w v refl (omega arith) h
      (omega arith) begins tt
