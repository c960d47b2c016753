-- ===== src/Prometheus.antt =====
-- pkg/prometheus: the scraping of metrics (ScrapeJobsMetrics) and the documents that it makes
-- (createMetric). Times and durations are nanoseconds. A Server stands for the Prometheus client,
-- for text/template and for floats. The documents that go to the indexer are kept in order, as an
-- association list for each metric of a job; the order in which a Go map gives its keys is left out.
pub mod Metrics
pub mod Scrape
use kube_burner.Config.Types.{GroupWindow}
use kube_burner.Prelude.{
  String, str_eq, Bool, true, false, not, ◌&&◌, List, [], ◌∷◌, ◌++◌, Option, none, some,
  if◌then◌else◌,
}
use kube_burner.Prelude.Int.{ℤ, pos, ◌-ℤ◌, ltb_ℤ, leb_ℤ, eqb_ℤ, ◌*ℤ◌}
use kube_burner.Prelude.Maps.{lookup, insert, copy}
use kube_burner.Config.Types.{Labels, MetricsClosing}
use kube_burner.Create.Namespaces.{quot_ℤ}

-- prometheus.Job, with the fields of its JobConfig that are read: its name, skipIndexing,
-- metricsClosing, the times of the churn and the windows of the groups.
pub record PrometheusJob : Type 0 where
  pub start : ℤ
  pub end : ℤ
  pub name : String
  pub skip_indexing : Bool
  pub metrics_closing : MetricsClosing
  pub churn_start : Option ℤ
  pub churn_end : Option ℤ
  pub group_windows : List GroupWindow
  pub uuid : String
  pub incremental_load_uuid : String
  pub metrics_scraped : Bool

pub record MetricDefinition : Type 0 where
  pub query : String
  pub metric_name : String
  pub instant : Bool
  pub capture_start : Bool

pub record MetricProfile : Type 0 where
  pub name : String
  pub metrics : List MetricDefinition

-- A value of the metadata, which are a map[string]any.
pub data Any : Type 0 where
  text : String → Any
  number : ℤ → Any

-- The struct `metric`.
pub record Metric (Float : Type 0) : Type 0 where
  pub timestamp : ℤ
  pub labels : Labels
  pub value : Float
  pub uuid : String
  pub query : String
  pub churn_metric : Bool
  pub metric_name : String
  pub job_name : String
  pub metadata : List (String × Any)

-- A sample of a vector, and a series of a matrix.
pub record Sample (Float : Type 0) : Type 0 where
  pub labels : Labels
  pub value : Float
  pub timestamp : ℤ

pub record Series (Float : Type 0) : Type 0 where
  pub labels : Labels
  pub values : List (Float × ℤ)

-- model.Value: a vector, a matrix, or a value of another type.
pub data ModelValue (Float : Type 0) : Type 0 where
  vector : List (Sample Float) → ModelValue Float
  matrix : List (Series Float) → ModelValue Float
  other : ModelValue Float

pub record Server : Type 1 where
  pub Float : Type 0
  pub float_zero : Float
  pub is_nan : Float → Bool
  -- the text that a template writes for `elapsed`, and whether its execution fails behind it
  pub execute : String → ℤ → String × Bool
  -- Query and QueryRange; `none` is an error
  pub query : String → ℤ → Option (ModelValue Float)
  pub query_range : String → ℤ → ℤ → ℤ → Option (ModelValue Float)

pub record Prometheus : Type 0 where
  pub metric_profiles : List MetricProfile
  pub step : ℤ
  pub uuid : String
  pub metadata : List (String × Any)
  pub has_indexer : Bool

-- time.After and time.Before, for a window that may be missing.
unfoldable pub is_within : Option ℤ → Option ℤ → ℤ → Bool
is_within (some start) (some end) time = ltb_ℤ start time && ltb_ℤ time end
is_within (some start) none time = false
is_within none end time = false

-- The metadata of the first window that holds a time.
pub tag_group : List GroupWindow → ℤ → List (String × Any) → List (String × Any)
tag_group [] time metadata = metadata
tag_group (w ∷ windows) time metadata =
    let later = tag_group windows time metadata in
    if leb_ℤ w.start time && leb_ℤ time w.end
    then insert "groupId" (number w.id) metadata
    else later

-- The labels, without the name of the metric.
pub strip_name : Labels → Labels → Labels
strip_name [] kept = kept
strip_name ((key, val) ∷ labels) kept =
    if str_eq key "__name__"
    then strip_name labels kept
    else strip_name labels (insert key val kept)

module _ (s : Server) where
  open s use {Float}

  unfoldable pub create_metric :
      Prometheus → String → String → PrometheusJob → Labels → Float → ℤ → Bool → Metric Float
  create_metric p query metric_name job labels value timestamp is_instant =
      let copied = copy [] p.metadata in
      let metadata =
        if str_eq job.incremental_load_uuid ""
        then copied
        else insert "incrementalLoadUUID" (text job.incremental_load_uuid) copied in
      record {
        timestamp = timestamp;
        labels = strip_name labels [];
        value = if s.is_nan value then s.float_zero else value;
        uuid = p.uuid;
        query = query;
        churn_metric = not is_instant && is_within job.churn_start job.churn_end timestamp;
        metric_name = metric_name;
        job_name = job.name;
        metadata = if is_instant then metadata else tag_group job.group_windows timestamp metadata;
      }

  -- parseVector and parseMatrix; a value of the wrong type is logged and gives nothing.
  pub parse_vector :
      Prometheus → String → String → PrometheusJob → List (Sample Float) → List (Metric Float)
  parse_vector p query name job [] = []
  parse_vector p query name job (v ∷ data_left) =
      create_metric p query name job v.labels v.value v.timestamp true
      ∷ parse_vector p query name job data_left

  pub parse_values :
      Prometheus → String → String → PrometheusJob → Labels → List (Float × ℤ) → List (Metric Float)
  parse_values p query name job labels [] = []
  parse_values p query name job labels ((value, time) ∷ values) =
      create_metric p query name job labels value time false
      ∷ parse_values p query name job labels values

  pub parse_matrix :
      Prometheus → String → String → PrometheusJob → List (Series Float) → List (Metric Float)
  parse_matrix p query name job [] = []
  parse_matrix p query name job (series ∷ data_left) =
      parse_values p query name job series.labels series.values
      ++ parse_matrix p query name job data_left

  pub run_instant_query : Prometheus → String → String → ℤ → PrometheusJob → List (Metric Float)
  run_instant_query p query name time job = elim (s.query query time) [
    | some (vector samples) ↦ parse_vector p query name job samples
    | _ ↦ []
  ]

  pub run_range_query : Prometheus → String → String → PrometheusJob → List (Metric Float)
  run_range_query p query name job = elim (s.query_range query job.start job.end p.step) [
    | some (matrix series) ↦ parse_matrix p query name job series
    | _ ↦ []
  ]
