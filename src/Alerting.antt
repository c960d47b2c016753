-- ===== src/Alerting.antt =====
-- pkg/alerting/alert_manager.go: the evaluation of an alert profile. A Renderer stands for
-- text/template, for the rounding of floats and for the text of an error. No result is os.Exit,
-- which a critical alert calls.
pub mod Outcome
use kube_burner.Prelude.{
  String, str_eq, Bool, true, false, List, [], ◌∷◌, ◌++◌, Option, none, some, if◌then◌else◌,
}
use kube_burner.Prelude.Int.{ℤ}
use kube_burner.Config.Types.{Labels}
use kube_burner.Prometheus.{
  Any, Series, ModelValue, vector, matrix, other, PrometheusJob, is_within,
}

abbrev pub SeverityLevel : Type 0
SeverityLevel = String

abbrev pub sev_warn : SeverityLevel
sev_warn = "warning"

abbrev pub sev_error : SeverityLevel
sev_error = "error"

abbrev pub sev_critical : SeverityLevel
sev_critical = "critical"

-- An element of alertProfile.
pub record AlertRule : Type 0 where
  pub expr : String
  pub description : String
  pub severity : SeverityLevel

pub record Alert : Type 0 where
  pub timestamp : ℤ
  pub uuid : String
  pub severity : SeverityLevel
  pub description : String
  pub metric_name : String
  pub churn_metric : Bool
  pub metadata : List (String × Any)

pub record Renderer (Float : Type 0) : Type 0 where
  -- the text of a description for labels and a value, and the error of its execution
  pub render : String → Labels → Float → String × Option String
  -- math.Round(v * 1000) / 1000
  pub three_decimals : Float → Float
  -- the error that tells of an alert
  pub message : ℤ → String → String
  -- the query of an expression over a job; `none` is an error
  pub query_range : String → PrometheusJob → Option (ModelValue Float)
  -- the errors for a value that is no matrix
  pub unsupported : String

pub record AlertManager : Type 0 where
  pub alert_profile : List AlertRule
  pub uuid : String
  pub metadata : List (String × Any)
  pub has_indexer : Bool

abbrev pub index_alerts :
    AlertManager
    → Option (List Alert × List (List String))
    → Option (List Alert × List (List String))
index_alerts a none = none
index_alerts a (some (alerts, errs)) = some ((if a.has_indexer then alerts else []), errs)

module _ {Float : Type 0} (r : Renderer Float) where
  pub alert_of : AlertManager → AlertRule → PrometheusJob → Labels → Float × ℤ → Alert
  alert_of a rule job labels (value, time) = record {
    timestamp = time;
    uuid = a.uuid;
    severity = rule.severity;
    description = (r.render rule.description labels (r.three_decimals value)).0;
    metric_name = "alert";
    churn_metric = is_within job.churn_start job.churn_end time;
    metadata = a.metadata;
  }

  -- The errors that the first value of a series adds: of the rendering, and of the severity.
  pub alert_errors : AlertRule → Labels → Float × ℤ → List String
  alert_errors rule labels (value, time) =
      let (told, err) = r.render rule.description labels (r.three_decimals value) in
      let rendering : List String = elim err [ none ↦ [] | some e ↦ e ∷ [] ] in
      if str_eq rule.severity sev_error then rendering ++ (r.message time told ∷ []) else rendering

  -- The loop over the series, whose inner loop breaks behind the first value.
  pub parse_series :
      AlertManager
      → AlertRule
      → PrometheusJob
      → List (Series Float)
      → List Alert
      → List String
      → Option (List Alert × List String)
  parse_series a rule job [] alerts errs = some (alerts, errs)
  parse_series a rule job (series ∷ data_left) alerts errs = elim (series.values) [
    | [] ↦ parse_series a rule job data_left alerts errs
    | first ∷ values ↦ elim (str_eq rule.severity sev_critical) [
      | true ↦ none
      | false ↦
          parse_series a rule job data_left
            (alerts ++ (alert_of a rule job series.labels first ∷ []))
            (errs ++ alert_errors rule series.labels first)
    ]
  ]

  -- parseMatrix; the errors are those of the aggregate.
  pub parse_alerts :
      AlertManager
      → AlertRule
      → PrometheusJob
      → ModelValue Float
      → Option (List Alert × List String)
  parse_alerts a rule job (matrix data_points) = parse_series a rule job data_points [] []
  parse_alerts a rule job (vector samples) = some ([], r.unsupported ∷ [])
  parse_alerts a rule job other = some ([], r.unsupported ∷ [])

  -- The loop of Evaluate: a query that fails is skipped. The errors of the rules that have some.
  pub evaluate_rules :
      AlertManager
      → PrometheusJob
      → List AlertRule
      → List Alert
      → List (List String)
      → Option (List Alert × List (List String))
  evaluate_rules a job [] alerts errs = some (alerts, errs)
  evaluate_rules a job (rule ∷ rules) alerts errs = elim (r.query_range rule.expr job) [
    | none ↦ evaluate_rules a job rules alerts errs
    | some value ↦ elim (parse_alerts a rule job value) [
      | none ↦ none
      | some (found, []) ↦ evaluate_rules a job rules (alerts ++ found) errs
      | some (found, e ∷ more) ↦
          evaluate_rules a job rules (alerts ++ found) (errs ++ ((e ∷ more) ∷ []))
    ]
  ]

  -- Evaluate: the alerts that are indexed, and the errors that are returned.
  unfoldable pub evaluate : AlertManager → PrometheusJob → Option (List Alert × List (List String))
  unfolding evaluate_rules
  evaluate a job = index_alerts a (evaluate_rules a job a.alert_profile [] [])
