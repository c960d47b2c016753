-- ===== src/Incremental/Run.antt =====
-- pkg/burner/incremental.go: RunIncrementalCreateJob. Its endless loop has fuel, and what the fuel
-- does not suffice for is `out_of_fuel`. The indexing and scraping of a step, and the health check
-- where no script is given, which logs only, are left out.
pub mod Outcome
pub mod Reach
use kube_burner.Prelude.{
  ℕ, zero, suc, String, Bool, true, false, not, ◌&&◌, List, [], ◌∷◌, ◌++◌, Option, none, some,
  if◌then◌else◌, str_eq,
}
use kube_burner.Prelude.Int.{ℤ, pos, pos_part, ltb_ℤ}
use kube_burner.Config.Validate.{is_empty}
use kube_burner.Executor.{
  JobExecutor, Cluster, measurements_started, measurements_stopped, slept, M, pure, ◌>>=◌, ◌>>◌,
  get_executor, set_executor, emit, ask,
}
use kube_burner.Create.Run.{run_create_job}
use kube_burner.Verify.{verify}
use kube_burner.Gc.{gc}
use kube_burner.Incremental.Calculator.{Floats, Calculator, IncrementalLoad, next}

-- prometheus.Job, as far as a step sets it.
pub record StepJob : Type 0 where
  pub iterations : ℤ
  pub incremental_uuid : String
  pub is_gc : Bool

-- What the method returns: allErrs and stepJobs.
pub data RunEnd : Type 0 where
  out_of_fuel : RunEnd
  returned : List String → List StepJob → RunEnd

-- What a step ends with: the method returns, or goes on to the next window.
pub data StepEnd : Type 0 where
  leaves : List String → List StepJob → StepEnd
  goes_on : List String → List StepJob → StepEnd

-- The fields of the executor that each step overwrites.
pub record Original : Type 0 where
  pub uuid : String
  pub runid : String
  pub job_iterations : ℤ

original_of : JobExecutor → Original
original_of ex = record { uuid = ex.uuid; runid = ex.runid; job_iterations = ex.job.job_iterations }

restore : Original → M (Unit {0})
restore o = do
  ex ← get_executor
  set_executor (record ex {
    uuid = o.uuid;
    runid = o.runid;
    job = record ex.job { job_iterations = o.job_iterations };
  })

add_error : Option String → List String → List String
add_error none errs = errs
add_error (some e) errs = errs ++ (e ∷ [])

step_jobs : Bool → ℤ → String → List StepJob
step_jobs gc_metrics end run_id =
    record { iterations = end; incremental_uuid = run_id; is_gc = false }
    ∷ (if gc_metrics
        then record { iterations = end; incremental_uuid = run_id; is_gc = true } ∷ []
        else [])

module _ (k : Cluster) (gc_metrics : Bool) (script : String) (step_delay : ℤ) where
  -- msInstance.Stop, with its error appended.
  stop_measurements : List String → M (List String)
  stop_measurements errs = do
    err ← ask k.stop_err
    emit measurements_stopped
    pure (add_error err errs)

  -- Whether the health check fails.
  health_check : M (Option String)
  health_check = if not (str_eq script "") then ask k.script_err else pure none

  -- A step behind its health check.
  finish_step : ℤ → String → List String → List StepJob → Option String → M StepEnd
  finish_step end run_id errs jobs (some e) = do
    all_errs ← stop_measurements (errs ++ (e ∷ []))
    pure (leaves all_errs jobs)
  finish_step end run_id errs jobs none = do
    all_errs ← stop_measurements errs
    gc k
    if ltb_ℤ (pos 0) step_delay then emit (slept step_delay) else pure tt
    pure (goes_on all_errs (jobs ++ step_jobs gc_metrics end run_id))

  -- A step behind its verification.
  close_step : ℤ → String → List String → List StepJob → M StepEnd
  close_step end run_id errs jobs = do
    failed ← health_check
    finish_step end run_id errs jobs failed

  verify_step : ℤ → String → List String → List StepJob → M StepEnd
  verify_step end run_id errs jobs = do
    ex ← get_executor
    verified ← ask (λ n. verify (k.listed n) ex (some end))
    if ex.job.verify_objects && not verified
        then pure (
            leaves
              (if ex.job.error_on_verify then errs ++ ("object verification failed" ∷ []) else errs)
              jobs)
        else close_step end run_id errs jobs

  pub start_step : ℤ → M String
  start_step end = do
    run_id ← ask k.uuid
    ex ← get_executor
    set_executor (record ex { runid = run_id; job = record ex.job { job_iterations = end } })
    emit (measurements_started run_id)
    pure run_id

  pub run_step : ℤ → List String → List StepJob → M StepEnd
  run_step end errs jobs = do
    run_id ← start_step end
    create_errs ← run_create_job k 0 (pos_part end)
    if not (is_empty create_errs)
        then (do all_errs ← stop_measurements (errs ++ create_errs); pure (leaves all_errs jobs))
        else verify_step end run_id errs jobs

  -- What the loop does behind a step, with its next round.
  after_step : (List String → List StepJob → M RunEnd) → StepEnd → M RunEnd
  after_step rest (leaves errs jobs) = pure (returned errs jobs)
  after_step rest (goes_on errs jobs) = rest errs jobs

  module _ (fl : Floats) where
    open fl use {Float}

    run_steps : ℕ → Original → Calculator Float → ℤ → List String → List StepJob → M RunEnd
    run_steps zero original c current errs jobs = pure out_of_fuel
    run_steps (suc fuel) original c current errs jobs =
        let (c', w) = next fl c current in
        let rest = run_steps fuel original c' w.end in
        if w.done
        then (do restore original; pure (returned errs jobs))
        else do ended ← run_step w.end errs jobs; after_step rest ended

    pub run_incremental_create_job : ℕ → Calculator Float → M RunEnd
    run_incremental_create_job fuel c = do
      ex ← get_executor
      run_steps fuel (original_of ex) c (pos 0) [] []
