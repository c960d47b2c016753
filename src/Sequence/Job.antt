-- ===== src/Sequence/Job.antt =====
-- pkg/burner/job.go: the body of the loop of Run over the jobs, executeHooksForJobStage,
-- runCreateOrIncremental, and newScrapeJob of pkg/burner/executor.go.
pub mod Names
use mathlib.Core.Bool.{not}
use kube_burner.Prelude.{
  ℕ, zero, suc, String, Bool, true, false, ◌&&◌, List, [], ◌∷◌, ◌++◌, Option, none, some,
  if◌then◌else◌, str_eq, length, is_some,
}
use kube_burner.Prelude.Int.{ℤ, pos, pos_part, ltb_ℤ}
use kube_burner.Config.Types.{
  GroupWindow, JobStage, before_gc, after_gc, before_job_execution, after_job_execution,
  before_cleanup, after_cleanup, on_each_iteration, creation_job, after_job, after_job_pause,
  after_measurements,
}
use kube_burner.Config.Validate.{is_empty, is_churn_enabled, is_grouped_enabled}
use kube_burner.Executor.{
  JobExecutor, World, Cluster, M, pure, emit, hooks, stage_notified, slept, set_executor,
  measurements_started, measurements_stopped, Event,
}
use kube_burner.Create.Run.{run_create_job}
use kube_burner.Create.Churn.Run.{run_create_job_with_churn}
use kube_burner.Gc.{gc}
use kube_burner.Verify.{verify}
use kube_burner.Jobs.Parallel.{run}
use kube_burner.Prometheus.{PrometheusJob}
use kube_burner.Sequence.{
  RunState, Session, Creation, R, done, ◌>>=◌, ◌>>◌, of_job, get_state, asks, add_errs, set_rc,
  append_job, change_job, at_now, when, rc_measurement, zero_time,
}

-- The windows behind the pointer of a job's configuration; without one no metric is tagged.
abbrev or_no_windows : Option (List GroupWindow) → List GroupWindow
or_no_windows none = []
or_no_windows (some windows) = windows

-- newScrapeJob without options.
pub new_scrape_job : JobExecutor → ℤ → PrometheusJob
new_scrape_job ex start = record {
  start = start;
  end = zero_time;
  name = ex.job.name;
  skip_indexing = ex.job.skip_indexing;
  metrics_closing = ex.job.metrics_closing;
  churn_start = none;
  churn_end = none;
  group_windows = or_no_windows ex.group_windows;
  uuid = ex.uuid;
  incremental_load_uuid = "";
  metrics_scraped = false;
}

abbrev pub with_end : ℤ → PrometheusJob → PrometheusJob
with_end end job = record job { end = end }

-- The maps, objects and trackers that an executor shares with a copy of it; what else the copy's methods
-- set is lost.
abbrev pub shared : JobExecutor → World → JobExecutor
shared ex w = record ex {
  created_namespaces = w.executor.created_namespaces;
  objects = w.executor.objects;
  mid_point = w.executor.mid_point;
  group_windows = w.executor.group_windows;
}

abbrev pub without_steps :
    Option (List String × World) → Option ((List String × List PrometheusJob) × World)
without_steps none = none
without_steps (some (errs, after)) = some ((errs, []), after)

-- RunCreateJob of a job without incremental load.
pub create_once : Cluster → JobExecutor → Creation
create_once k ex = record {
  create_or_incremental =
      λ w. without_steps (run_create_job k 0 (pos_part ex.job.job_iterations) w);
}

with_windows : ℕ → List GroupWindow → List PrometheusJob → List PrometheusJob
with_windows index windows [] = []
with_windows zero windows (job ∷ jobs) =
    record job { group_windows = windows } ∷ with_windows zero windows jobs
with_windows (suc index) windows (job ∷ jobs) = job ∷ with_windows index windows jobs

module _ (se : Session) where
  notify_stage : JobStage → R (Unit {0})
  notify_stage stage = do
    s ← get_state
    when (s.world.executor.has_notifier && not (str_eq stage on_each_iteration))
        (of_job (emit (stage_notified stage)))

  -- An error ends the stage: no measurement is notified of it.
  pub execute_hooks_for_job_stage : JobStage → R (Unit {0})
  execute_hooks_for_job_stage stage = do
    of_job (emit (hooks stage))
    failed ← asks (λ n. se.hook_err n stage)
    elim failed [ some e ↦ do add_errs (e ∷ []); set_rc (pos 1) | none ↦ notify_stage stage ]

  pub collect_background_errs : JobExecutor → R (Unit {0})
  collect_background_errs ex = elim (ex.job.hooks) [
    | [] ↦ done tt
    | hook ∷ more ↦ do
      ended ← asks se.background_errs
      elim ended [ [] ↦ done tt | e ∷ errs ↦ do add_errs (e ∷ errs); set_rc (pos 1) ]
  ]

  -- The measurements that a first job starts, and the notifier of its stages.
  start_measurements : JobExecutor → Bool → R (Unit {0})
  start_measurements ex is_incremental s = elim (s.measuring) [
    | some name ↦ (of_job (set_executor (record s.world.executor { has_notifier = true }))) s
    | none ↦
        if is_incremental
        then (of_job (set_executor (record s.world.executor { has_notifier = false }))) s
        else (do
          of_job (emit (measurements_started ex.job.name))
          of_job (set_executor (record s.world.executor { has_notifier = true })))
            (record s { measuring = some ex.job.name })
  ]

  -- Up to the trigger of the job; the index is that of its entry among the executed jobs.
  pub start_job : JobExecutor → Bool → R (Unit {0})
  start_job ex is_incremental = do
    let grouped = str_eq ex.job.job_type creation_job && is_grouped_enabled ex.job
    of_job (set_executor (record ex { group_windows = if grouped then some [] else none }))
    at_now se (λ now. append_job (new_scrape_job ex now))
    failed ← asks se.watcher_errs
    add_errs failed
    start_measurements ex is_incremental

  first_start : List PrometheusJob → ℤ
  first_start [] = zero_time
  first_start (job ∷ jobs) = job.start

  last_end : List PrometheusJob → ℤ
  last_end [] = zero_time
  last_end (job ∷ []) = job.end
  last_end (job ∷ next ∷ jobs) = last_end (next ∷ jobs)

  append_jobs : List PrometheusJob → R (Unit {0})
  append_jobs jobs s = some (tt, record s { executed_jobs = s.executed_jobs ++ jobs })

  -- The steps of an incremental job are executed jobs of their own, and the job goes on in an entry
  -- behind them. The result is the index of the job's entry.
  pub record_creation : JobExecutor → ℕ → List String × List PrometheusJob → R ℕ
  record_creation ex index (e ∷ errs, steps) = do add_errs (e ∷ errs); set_rc (pos 1); done index
  record_creation ex index ([], []) = done index
  record_creation ex index ([], step ∷ steps) = do
    append_jobs (step ∷ steps)
    change_job index (with_end (first_start (step ∷ steps)))
    s ← get_state
    append_job (new_scrape_job ex (last_end (step ∷ steps)))
    done (length s.executed_jobs)

  -- The entries of a job, from the first one on, share the pointer to its windows.
  share_windows : ℕ → R (Unit {0})
  share_windows index s = some (
    tt,
    record s {
      executed_jobs =
          with_windows index (or_no_windows s.world.executor.group_windows) s.executed_jobs;
    },
  )

  churn_job : ℕ → ℕ → R (Unit {0})
  churn_job fuel index = do
    at_now se (λ now. change_job index (λ job. record job { churn_start = some now }))
    ended ← of_job (run_create_job_with_churn se.cluster fuel)
    at_now se (λ now. change_job index (λ job. record job { churn_end = some now }))

  verify_job : JobExecutor → R (Unit {0})
  verify_job ex = do
    s ← get_state
    found ← asks (λ n. verify (se.cluster.listed n) s.world.executor none)
    when (ex.job.verify_objects && not found && ex.job.error_on_verify)
        (do set_rc (pos 1); add_errs ("object verification failed" ∷ []))

  -- A job that creates, by a copy of its executor; no index where the context is done, on which Run's goroutine returns.
  pub create_phase : ℕ → JobExecutor → Creation → Bool → ℕ → R (Option ℕ)
  create_phase fuel ex creation is_incremental index = do
    execute_hooks_for_job_stage before_job_execution
    before ← get_state
    created ← of_job creation.create_or_incremental
    after ← get_state
    of_job (set_executor (shared before.world.executor after.world))
    place ← record_creation ex index created
    share_windows index
    execute_hooks_for_job_stage after_job_execution
    cancelled ← asks se.cluster.ctx_err
    elim cancelled [
      | some e ↦ done none
      | none ↦ do
        when (is_churn_enabled ex.job) (churn_job fuel place)
        share_windows index
        when (not is_incremental) (verify_job ex)
        done (some place)
    ]

  pub other_phase : ℕ → R (Option ℕ)
  other_phase index = do
    execute_hooks_for_job_stage before_job_execution
    failed ← of_job (run se.cluster)
    when (not (is_empty failed)) (do add_errs failed; set_rc (pos 1))
    execute_hooks_for_job_stage after_job_execution
    cancelled ← asks se.cluster.ctx_err
    done (elim cancelled [ some e ↦ none | none ↦ some index ])

  stop_error : Option String → R (Unit {0})
  stop_error none = done tt
  stop_error (some e) = do add_errs (e ∷ []); set_rc rc_measurement

  index_measurements : JobExecutor → String → R (Unit {0})
  index_measurements ex name s = some (
    tt,
    record s {
      measuring = none;
      indexed =
          if not ex.job.skip_indexing && se.has_indexers
          then s.indexed ++ (name ∷ [])
          else s.indexed;
    },
  )

  pub stop_job_measurements : JobExecutor → ℕ → R (Unit {0})
  stop_job_measurements ex index = do
    s ← get_state
    elim (s.measuring) [
      | none ↦ done tt
      | some name ↦ do
        of_job (set_executor (record s.world.executor { has_notifier = false }))
        of_job (emit measurements_stopped)
        failed ← asks se.measurement_stop_err
        stop_error failed
        when (str_eq ex.job.metrics_closing after_measurements)
            (at_now se (λ now. change_job index (with_end now)))
        index_measurements ex name
    ]

  pub close_job : JobExecutor → ℕ → R (Unit {0})
  close_job ex index = do
    execute_hooks_for_job_stage before_cleanup
    at_now se
        (λ end. when (str_eq ex.job.metrics_closing after_job) (change_job index (with_end end)))
    when (ltb_ℤ (pos 0) ex.job.job_pause) (of_job (emit (slept ex.job.job_pause)))
    when (str_eq ex.job.metrics_closing after_job_pause)
        (at_now se (λ now. change_job index (with_end now)))
    when (not ex.job.metrics_aggregate) (stop_job_measurements ex index)
    failed ← asks se.watcher_stop_errs
    add_errs failed
    when ex.job.gc (do of_job (gc se.cluster); execute_hooks_for_job_stage after_cleanup)
    collect_background_errs ex

  -- The body of the loop; false where Run's goroutine returns.
  pub run_job : ℕ → JobExecutor → Creation → Bool → R Bool
  run_job fuel ex creation is_incremental = do
    s ← get_state
    start_job ex is_incremental
    let index = length s.executed_jobs
    place ←
        (if str_eq ex.job.job_type creation_job
          then create_phase fuel ex creation is_incremental index
          else other_phase index)
    elim place [ none ↦ done false | some i ↦ do close_job ex i; done true ]
