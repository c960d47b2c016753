-- ===== src/Tests/Sequence.antt =====
-- Tests of Run of pkg/burner/job.go.
use kube_burner.Prelude.{String, true, false, List, [], ◌∷◌, none, some, map, ◌≡◌, refl}
use kube_burner.Prelude.Int.{pos}
use kube_burner.Prelude.Maps.{lookup}
use kube_burner.Config.Types.{after_job}
use kube_burner.Executor.{JobExecutor}
use kube_burner.Prometheus.{PrometheusJob}
use kube_burner.Sequence.{Session, RunState}
use kube_burner.Sequence.Jobs.{run_jobs}
use kube_burner.Sequence.Jobs.Executed.{ExecutesAt, once, run_jobs-ExecutesAt}
use kube_burner.Sequence.Finish.{ReturnPair, job_summaries, evaluate_alerts}
use kube_burner.Sequence.Finish.Summaries.{
  AllFail, evaluate_alerts-AllFail, own_summaries, job_summaries-own,
}
use kube_burner.Tests.Fixtures.{pods_executor, pods_job, start_world, serving}

abbrev session : Session
session = record {
  cluster = serving;
  hook_err = λ n stage. none;
  background_errs = λ n. [];
  watcher_errs = λ n. [];
  watcher_stop_errs = λ n. [];
  measurement_stop_err = λ n. none;
  preload_err = λ n ex. none;
  alert_errs = λ n job. [];
  has_indexers = true;
}

abbrev before_jobs : RunState
before_jobs = record {
  world = start_world;
  executed_jobs = [];
  errs = [];
  inner_rc = pos 0;
  measuring = none;
  indexed = [];
}

abbrev two_executors : List JobExecutor
two_executors =
    pods_executor ∷ record pods_executor { job = record pods_job { name = "more" } } ∷ []

run_jobs-ExecutesAt_example :
    ExecutesAt
      (map (λ ex. ex.job.name) two_executors)
      before_jobs
      (run_jobs session 4 (map (once session) two_executors) before_jobs)
run_jobs-ExecutesAt_example = run_jobs-ExecutesAt session 4 two_executors before_jobs

abbrev executed : PrometheusJob
executed = record {
  start = pos 1;
  end = pos 5;
  name = "pods";
  skip_indexing = false;
  metrics_closing = after_job;
  churn_start = none;
  churn_end = none;
  group_windows = [];
  uuid = "u";
  incremental_load_uuid = "";
  metrics_scraped = false;
}

evaluate_alerts-AllFail_example :
    AllFail
      (executed ∷ [])
      (evaluate_alerts session (executed ∷ []) [] (record before_jobs { inner_rc = pos 1 }))
evaluate_alerts-AllFail_example =
    evaluate_alerts-AllFail session (executed ∷ []) [] (record before_jobs { inner_rc = pos 1 })
      refl

abbrev passed_pair : ReturnPair
passed_pair = record { inner_rc = pos 0; execution_errors = [] }

abbrev entries : List (String × ReturnPair)
entries = ("pods", passed_pair) ∷ []

pods_entry : lookup "pods" entries ≡ some passed_pair
unfolding lookup
pods_entry = refl

job_summaries-own_example :
    job_summaries entries false (executed ∷ []) false ("old" ∷ [])
    ≡ own_summaries entries (executed ∷ [])
job_summaries-own_example =
    job_summaries-own entries (executed ∷ []) false ("old" ∷ []) ((passed_pair, pods_entry), tt)
