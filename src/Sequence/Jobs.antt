-- ===== src/Sequence/Jobs.antt =====
-- pkg/burner/job.go: the loop of Run over the jobs, with what comes before it (the global hooks,
-- handlePreloadImages, the clean up of previous runs) and runWaitList behind it.
pub mod Executed
use kube_burner.Prelude.{
  ℕ, String, Bool, true, false, ◌&&◌, List, [], ◌∷◌, Option, none, some, if◌then◌else◌, str_eq,
}
use kube_burner.Prelude.Int.{pos}
use kube_burner.Config.Types.{
  GlobalConfig, JobStage, before_gc, after_gc, before_all_jobs, creation_job,
}
use kube_burner.Config.Validate.{is_empty}
use kube_burner.Executor.{JobExecutor, World, emit, hooks, set_executor}
use kube_burner.Waiters.{wait_for_objects}
use kube_burner.Gc.{gc}
use kube_burner.Sequence.{
  RunState, Session, Creation, R, done, ◌>>=◌, ◌>>◌, of_job, get_state, asks, add_errs, set_rc,
  when,
}
use kube_burner.Sequence.Job.{shared}
use kube_burner.Sequence.Job.{execute_hooks_for_job_stage, run_job}

-- A job's executor, what creates its objects, and whether it has incremental load.
pub record RunJob : Type 0 where
  pub executor : JobExecutor
  pub creation : Creation
  pub is_incremental : Bool

-- Run's goroutine returns without a result, or goes on with the executors.
pub data JobsEnd : Type 0 where
  abandoned : JobsEnd
  ended : List JobExecutor → JobsEnd

abbrev pub with_executor : JobExecutor → JobsEnd → JobsEnd
with_executor ex abandoned = abandoned
with_executor ex (ended executors) = ended (ex ∷ executors)

module _ (se : Session) where
  pub run_global_hooks : GlobalConfig → JobStage → R (Unit {0})
  run_global_hooks g stage = when (not_empty g) (do
    of_job (emit (hooks stage))
    failed ← asks (λ n. se.hook_err n stage)
    elim failed [ none ↦ done tt | some e ↦ do add_errs (e ∷ []); set_rc (pos 1) ])
    where
      not_empty : GlobalConfig → Bool
      not_empty c = if is_empty c.hooks then false else true

  -- The error of the first job whose images cannot be loaded.
  pub handle_preload_images : List RunJob → R (Option String)
  handle_preload_images [] = done none
  handle_preload_images (j ∷ jobs) =
      if j.executor.job.pre_load_images && str_eq j.executor.job.job_type creation_job
      then (do
        failed ← asks (λ n. se.preload_err n j.executor)
        elim failed [ some e ↦ done (some e) | none ↦ handle_preload_images jobs ])
      else handle_preload_images jobs

  clean_job : JobExecutor → R (Unit {0})
  clean_job ex = when (str_eq ex.job.job_type creation_job && ex.job.cleanup) (do
    of_job (set_executor ex)
    execute_hooks_for_job_stage se before_gc
    of_job (gc se.cluster)
    execute_hooks_for_job_stage se after_gc)

  pub clean_previous : List RunJob → R (Unit {0})
  clean_previous [] = done tt
  clean_previous (j ∷ jobs) = clean_job j.executor >> clean_previous jobs

  pub run_jobs : ℕ → List RunJob → R JobsEnd
  run_jobs fuel [] = done (ended [])
  run_jobs fuel (j ∷ jobs) = do
    ran ← run_job se fuel j.executor j.creation j.is_incremental
    elim ran [
      | false ↦ done abandoned
      | true ↦ do
        s ← get_state
        rest ← run_jobs fuel jobs
        done (with_executor (shared j.executor s.world) rest)
    ]

  wait_all_namespaces : List (String × Bool) → R (Unit {0})
  wait_all_namespaces [] = done tt
  wait_all_namespaces ((ns, made) ∷ namespaces) = do
    failed ← of_job (wait_for_objects se.cluster ns none)
    wait_all_namespaces namespaces

  -- The errors of runWaitList are not used.
  pub run_wait_list : List JobExecutor → R (Unit {0})
  run_wait_list [] = done tt
  run_wait_list (ex ∷ executors) = do
    of_job (set_executor ex)
    wait_all_namespaces ex.created_namespaces
    run_wait_list executors

  -- Up to the end of the loop over the jobs.
  pub begin_run : ℕ → GlobalConfig → List RunJob → R JobsEnd
  begin_run fuel g jobs = do
    run_global_hooks g before_all_jobs
    failed ← handle_preload_images jobs
    elim failed [ some e ↦ done abandoned | none ↦ do clean_previous jobs; run_jobs fuel jobs ]
