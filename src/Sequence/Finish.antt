-- ===== src/Sequence/Finish.antt =====
-- pkg/burner/job.go: what Run does behind the loop over the jobs: the garbage collection, the alerts,
-- indexMetrics with its summaries, the last hooks, and the result of Run.
pub mod Summaries
use mathlib.Core.Bool.{not}
use kube_burner.Prelude.{
  ℕ, String, Bool, true, false, ◌&&◌, List, [], ◌∷◌, ◌++◌, Option, none, some, if◌then◌else◌,
  is_some,
}
use kube_burner.Prelude.Int.{ℤ, pos, eqb_ℤ, ◌-ℤ◌}
use kube_burner.Prelude.Maps.{lookup, insert}
use kube_burner.Config.Types.{GlobalConfig, after_cleanup, after_all_jobs}
use kube_burner.Config.Validate.{is_empty}
use kube_burner.Executor.{JobExecutor, set_executor}
use kube_burner.Gc.{gc}
use kube_burner.Prometheus.{PrometheusJob}
use kube_burner.Sequence.{
  RunState, Session, R, done, ◌>>=◌, ◌>>◌, of_job, get_state, asks, add_errs, set_rc, append_job,
  when, rc_alert, rc_timeout, zero_time,
}
use kube_burner.Sequence.Job.{
  execute_hooks_for_job_stage, collect_background_errs, new_scrape_job, with_end,
}
use kube_burner.Sequence.Jobs.{
  RunJob, JobsEnd, abandoned, ended, run_global_hooks, run_wait_list, begin_run,
}

pub record ReturnPair : Type 0 where
  pub inner_rc : ℤ
  pub execution_errors : List String

-- The fields of a JobSummary that depend on the run.
pub record JobSummary : Type 0 where
  pub name : String
  pub timestamp : ℤ
  pub end_timestamp : ℤ
  pub passed : Bool
  pub execution_errors : List String

abbrev pub summary_of : PrometheusJob → Bool → List String → JobSummary
summary_of job passed errors = record {
  name = job.name;
  timestamp = job.start;
  end_timestamp = job.end;
  passed = passed;
  execution_errors = errors;
}

abbrev pub is_summarised : PrometheusJob → Bool
is_summarised job = not job.skip_indexing && not job.metrics_scraped

-- What a job passed, and its errors: those of its name, or those that are there.
pub outcome_of : Option ReturnPair → Bool → List String → Bool × List String
outcome_of none passed errors = (passed, errors)
outcome_of (some pair) passed errors = (eqb_ℤ pair.inner_rc (pos 0), pair.execution_errors)

-- The loop of indexMetrics over the executed jobs; what a job passed and its errors stay for the
-- next job, where that has no entry of its own.
pub job_summaries :
    List (String × ReturnPair) → Bool → List PrometheusJob → Bool → List String → List JobSummary
job_summaries return_map is_timeout [] passed errors = []
job_summaries return_map is_timeout (job ∷ jobs) passed errors = elim (is_summarised job) [
  | false ↦ job_summaries return_map is_timeout jobs passed errors
  | true ↦
      let now =
        outcome_of (if is_timeout then none else lookup job.name return_map) passed errors in
      summary_of job now.0 now.1 ∷ job_summaries return_map is_timeout jobs now.0 now.1
]

module _ (se : Session) where
  -- The alerts of each executed job; the result code stays for the jobs behind.
  pub evaluate_alerts :
      List PrometheusJob → List (String × ReturnPair) → R (List (String × ReturnPair))
  evaluate_alerts [] return_map = done return_map
  evaluate_alerts (job ∷ jobs) return_map = do
    alerts ← asks (λ n. se.alert_errs n job)
    add_errs alerts
    when (not (is_empty alerts)) (set_rc rc_alert)
    s ← get_state
    evaluate_alerts jobs
        (insert job.name (record { inner_rc = s.inner_rc; execution_errors = alerts }) return_map)

  collect_all : List JobExecutor → R (Unit {0})
  collect_all [] = done tt
  collect_all (ex ∷ executors) = do
    of_job (set_executor ex)
    execute_hooks_for_job_stage se after_cleanup
    collect_background_errs se ex
    collect_all executors

  gc_all : List JobExecutor → R (Unit {0})
  gc_all [] = done tt
  gc_all (ex ∷ executors) = do of_job (set_executor ex); of_job (gc se.cluster); gc_all executors

  -- WithEnd and WithGCJob.
  gc_job : JobExecutor → ℤ → ℤ → PrometheusJob
  gc_job ex start end = record (with_end end (new_scrape_job ex start)) {
    name = "garbage-collection";
    skip_indexing = false;
    metrics_closing = "";
  }

  append_gc_job : List JobExecutor → ℤ → R (Unit {0})
  append_gc_job [] start = done tt
  append_gc_job (ex ∷ executors) start = do
    now ← asks se.cluster.now
    append_job (gc_job ex start now)

  pub collect_garbage : GlobalConfig → List JobExecutor → R (Unit {0})
  collect_garbage g executors = when g.gc (do
    start ← asks se.cluster.now
    gc_all executors
    when g.gc_metrics (do collect_all executors; append_gc_job executors start))

  -- The goroutine of Run: no result where it returns early.
  pub run_goroutine : ℕ → GlobalConfig → List RunJob → R (Option (ℤ × List JobSummary))
  run_goroutine fuel g jobs = do
    looped ← begin_run se fuel g jobs
    elim looped [
      | abandoned ↦ done none
      | ended executors ↦ do
        when g.wait_when_finished (run_wait_list se executors)
        collect_garbage g executors
        s ← get_state
        return_map ← evaluate_alerts s.executed_jobs []
        let summaries = job_summaries return_map false s.executed_jobs true []
        run_global_hooks se g after_all_jobs
        last ← get_state
        done (some (last.inner_rc, summaries))
    ]

  close_last : ℤ → List PrometheusJob → List PrometheusJob
  close_last now [] = []
  close_last now (job ∷ []) = with_end now job ∷ []
  close_last now (job ∷ next ∷ jobs) = job ∷ close_last now (next ∷ jobs)

  -- Where the timeout comes first, or the goroutine has returned without a result.
  pub run_timeout : R (ℤ × List JobSummary)
  run_timeout = do
    now ← asks se.cluster.now
    s ← get_state
    add_errs ("timeout reached" ∷ [])
    after ← get_state
    let summaries = job_summaries [] true (close_last now s.executed_jobs) false after.errs
    done (rc_timeout, summaries)

  -- Run, whose goroutine is done before the timeout unless it returns early: the result code, and
  -- the summaries.
  pub run_all : ℕ → GlobalConfig → List RunJob → R (ℤ × List JobSummary)
  run_all fuel g jobs = do
    finished ← run_goroutine fuel g jobs
    elim finished [ none ↦ run_timeout | some result ↦ done result ]
