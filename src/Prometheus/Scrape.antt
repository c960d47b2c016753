-- ===== src/Prometheus/Scrape.antt =====
-- pkg/prometheus/prometheus.go: ScrapeJobsMetrics. The buffer `renderedQuery`, which all metrics
-- share, is a field of the state; the queries that were asked and the documents that were indexed
-- are kept in order. No state is the panic of a remainder by 0.
pub mod Queries
use kube_burner.Prelude.{
  String, Bool, true, false, not, List, [], ◌∷◌, ◌++◌, Option, none, some, if◌then◌else◌,
}
use kube_burner.Prelude.Int.{ℤ, pos, ◌-ℤ◌, eqb_ℤ, ◌*ℤ◌}
use kube_burner.Prelude.Maps.{lookup, insert}
use kube_burner.Prelude.Text.{append}
use kube_burner.Create.Namespaces.{quot_ℤ}
use kube_burner.Prometheus.{
  PrometheusJob, MetricDefinition, MetricProfile, Metric, Server, Prometheus, run_instant_query,
  run_range_query,
}

pub data Query : Type 0 where
  instant_query : String → ℤ → Query
  range_query : String → ℤ → ℤ → Query

pub record ScrapeState (Float : Type 0) : Type 0 where
  pub rendered_query : String
  pub asked : List Query
  pub indexed : List (List (String × List (Metric Float)))

-- Go's % of integers.
unfoldable pub rem_ℤ : ℤ → ℤ → ℤ
rem_ℤ a b = a -ℤ (quot_ℤ a b *ℤ b)

-- Duration.Milliseconds
unfoldable pub milliseconds : ℤ → ℤ
milliseconds d = quot_ℤ d (pos 1000000)

abbrev pub duration_of : PrometheusJob → ℤ
duration_of job = job.end -ℤ job.start

-- Whether a range query misses the end of the job.
unfoldable pub requires_instant : Prometheus → PrometheusJob → Bool
requires_instant p job =
    not (eqb_ℤ (rem_ℤ (milliseconds (duration_of job)) (milliseconds p.step)) (pos 0))

module _ (s : Server) where
  open s use {Float}

  -- docs[name] = append(docs[name], more...)
  pub add_docs :
      String
      → List (Metric Float)
      → List (String × List (Metric Float))
      → List (String × List (Metric Float))
  add_docs name more docs = elim (lookup name docs) [
    | none ↦ insert name more docs
    | some old ↦ insert name (old ++ more) docs
  ]

  -- A metric whose query is rendered, with the buffer empty again.
  pub instant_metric :
      Prometheus → PrometheusJob → MetricDefinition → String → ScrapeState Float → ScrapeState Float
  instant_metric p job m query st =
      let at_end = run_instant_query s p query m.metric_name job.end job in
      let start_name = append m.metric_name "-start" in
      let at_start = run_instant_query s p query start_name job.start job in
      if m.capture_start
      then record st {
        asked = st.asked ++ (instant_query query job.start ∷ instant_query query job.end ∷ []);
        indexed =
            st.indexed ++ (add_docs m.metric_name at_end (add_docs start_name at_start []) ∷ []);
      }
      else record st {
        asked = st.asked ++ (instant_query query job.end ∷ []);
        indexed = st.indexed ++ (add_docs m.metric_name at_end [] ∷ []);
      }

  pub range_metric :
      Prometheus → PrometheusJob → MetricDefinition → String → ScrapeState Float → ScrapeState Float
  range_metric p job m query st =
      let in_range = run_range_query s p query m.metric_name job in
      let at_end = run_instant_query s p query m.metric_name job.end job in
      if requires_instant p job
      then record st {
        asked =
            st.asked ++ (range_query query job.start job.end ∷ instant_query query job.end ∷ []);
        indexed =
            st.indexed ++ (add_docs m.metric_name at_end (add_docs m.metric_name in_range []) ∷ []);
      }
      else record st {
        asked = st.asked ++ (range_query query job.start job.end ∷ []);
        indexed = st.indexed ++ (add_docs m.metric_name in_range [] ∷ []);
      }

  -- The body of the loop over the metrics. The buffer is not reset where the template fails.
  pub scrape_metric :
      Prometheus → PrometheusJob → MetricDefinition → ScrapeState Float → Option (ScrapeState Float)
  scrape_metric p job m st =
      let written = s.execute m.query (duration_of job) in
      let query = append st.rendered_query written.0 in
      if written.1
      then some (record st { rendered_query = query })
      else (let reset = record st { rendered_query = "" } in
          if m.instant
          then some (instant_metric p job m query reset)
          else if eqb_ℤ (milliseconds p.step) (pos 0)
          then none
          else some (range_metric p job m query reset))

  pub scrape_metrics :
      Prometheus
      → PrometheusJob
      → List MetricDefinition
      → ScrapeState Float
      → Option (ScrapeState Float)
  scrape_metrics p job [] st = some st
  scrape_metrics p job (m ∷ metrics) st = elim (scrape_metric p job m st) [
    | none ↦ none
    | some after ↦ scrape_metrics p job metrics after
  ]

  pub scrape_profiles :
      Prometheus
      → PrometheusJob
      → List MetricProfile
      → ScrapeState Float
      → Option (ScrapeState Float)
  scrape_profiles p job [] st = some st
  scrape_profiles p job (profile ∷ profiles) st = elim (scrape_metrics p job profile.metrics st) [
    | none ↦ none
    | some after ↦ scrape_profiles p job profiles after
  ]

  pub scrape_jobs : Prometheus → List PrometheusJob → ScrapeState Float → Option (ScrapeState Float)
  scrape_jobs p [] st = some st
  scrape_jobs p (job ∷ jobs) st = elim (job.skip_indexing) [
    | true ↦ scrape_jobs p jobs st
    | false ↦ elim (scrape_profiles p job p.metric_profiles st) [
      | none ↦ none
      | some after ↦ scrape_jobs p jobs after
    ]
  ]

  unfoldable pub scrape_jobs_metrics : Prometheus → List PrometheusJob → Option (ScrapeState Float)
  unfolding scrape_jobs
  scrape_jobs_metrics p jobs =
      let empty : ScrapeState Float = record { rendered_query = ""; asked = []; indexed = [] } in
      if p.has_indexer then scrape_jobs p jobs empty else some empty
