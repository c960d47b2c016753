-- ===== src/Tests/Metrics.antt =====
-- Tests of pkg/prometheus and pkg/alerting.
use kube_burner.Prelude.{
  ℕ, true, false, [], ◌∷◌, none, some, ◌≡◌, ◌↔◌, refl, if◌then◌else◌, any, str_eq,
}
use kube_burner.Prelude.Int.{pos, eqb_ℤ}
use kube_burner.Prelude.Maps.{lookup, copy}
use kube_burner.Prelude.Text.{append}
use kube_burner.Config.Types.{after_job}
use kube_burner.Create.Namespaces.{quot_ℤ}
use kube_burner.Prometheus.{
  PrometheusJob, MetricDefinition, Server, Prometheus, matrix, vector, create_metric,
}
use kube_burner.Prometheus.Metrics.{IsChurning, window_of, create_metric_lem}
use kube_burner.Prometheus.Scrape.{milliseconds, instant_query, scrape_metrics, scrape_jobs_metrics}
use kube_burner.Prometheus.Scrape.Queries.{
  Asks, concat_map, job_plan, scrape_jobs_metrics-Asks, scrape_metrics-stale,
}
use kube_burner.Alerting.{sev_error, sev_warn, Renderer, AlertManager, evaluate}
use kube_burner.Alerting.Outcome.{is_fatal, all_alerts, all_errors, evaluate_lem}

-- Floats are numbers here; a template writes itself, and fails where it is "{{.x}}".
abbrev server : Server
server = record {
  Float = ℕ;
  float_zero = 0;
  is_nan = λ x. false;
  execute = λ template elapsed. (template, false);
  query = λ query time. some (vector (record { labels = []; value = 7; timestamp = time } ∷ []));
  query_range =
      λ query start end step. some (matrix (record { labels = []; values = (7, start) ∷ [] } ∷ []));
}

abbrev load : PrometheusJob
load = record {
  start = pos 0;
  end = pos 90000000000;
  name = "load";
  skip_indexing = false;
  metrics_closing = after_job;
  churn_start = some (pos 1);
  churn_end = some (pos 60000000000);
  group_windows = record { id = pos 2; start = pos 0; end = pos 60000000000 } ∷ [];
  uuid = "u";
  incremental_load_uuid = "step";
  metrics_scraped = false;
}

abbrev cpu : MetricDefinition
cpu = record { query = "cpu"; metric_name = "cpu"; instant = false; capture_start = false }

abbrev client : Prometheus
client = record {
  metric_profiles = record { name = "metrics.yml"; metrics = cpu ∷ [] } ∷ [];
  step = pos 30000000000;
  uuid = "u";
  metadata = [];
  has_indexer = true;
}

client_ticks : eqb_ℤ (milliseconds client.step) (pos 0) ≡ false
unfolding milliseconds quot_ℤ
client_ticks = refl

scrape_jobs_metrics-Asks_example :
    Asks
      (record { rendered_query = ""; asked = []; indexed = [] })
      (concat_map (job_plan server client) (load ∷ []))
      (scrape_jobs_metrics server client (load ∷ []))
scrape_jobs_metrics-Asks_example =
    scrape_jobs_metrics-Asks server client (λ template elapsed. refl) client_ticks (load ∷ []) refl

-- The template of a metric that is rendered up to a missing name.
abbrev failing : Server
failing = record server {
  execute =
      λ template elapsed. if str_eq template "rate(" then ("rate(", true) else (template, false);
}

abbrev at_end : MetricDefinition
at_end = record { query = "up"; metric_name = "up"; instant = true; capture_start = false }

scrape_metrics-stale_example :
    Asks
      (record { rendered_query = ""; asked = []; indexed = [] })
      (instant_query (append "rate(" "up") (pos 90000000000) ∷ [])
      (scrape_metrics failing client load
        (record cpu { query = "rate(" } ∷ at_end ∷ [])
        (record { rendered_query = ""; asked = []; indexed = [] }))
scrape_metrics-stale_example =
    scrape_metrics-stale failing client load (record cpu { query = "rate(" }) at_end "rate(" "up"
      refl refl refl refl

no_group : lookup "groupId" (copy [] client.metadata) ≡ none
unfolding lookup copy
no_group = refl

create_metric_lem_example :
    (lookup "__name__"
        (create_metric server client "q" "m" load (("__name__", "cpu") ∷ []) 7 (pos 5) false).labels
      ≡ none)
    × (((create_metric server client "q" "m" load
            (("__name__", "cpu") ∷ [])
            7
            (pos 5)
            false).churn_metric
          ≡ true)
        ↔ IsChurning load (pos 5))
    × ((create_metric server client "q" "m" load
          (("__name__", "cpu") ∷ [])
          7
          (pos 5)
          true).churn_metric
        ≡ false)
    × (lookup "groupId"
          (create_metric server client "q" "m" load
            (("__name__", "cpu") ∷ [])
            7
            (pos 5)
            false).metadata
        ≡ window_of load.group_windows (pos 5))
    × (lookup "groupId"
          (create_metric server client "q" "m" load
            (("__name__", "cpu") ∷ [])
            7
            (pos 5)
            true).metadata
        ≡ none)
    × ((create_metric server client "q" "m" load (("__name__", "cpu") ∷ []) 7 (pos 5) false).value
        ≡ (if server.is_nan 7 then server.float_zero else 7))
create_metric_lem_example =
    create_metric_lem server client "q" "m" load (("__name__", "cpu") ∷ []) 7 (pos 5) no_group

abbrev renderer : Renderer ℕ
renderer = record {
  render = λ description labels value. (description, none);
  three_decimals = λ x. x;
  message = λ time description. description;
  query_range = λ expr job.
      some (matrix (record { labels = []; values = (7, job.start) ∷ (8, job.end) ∷ [] } ∷ []));
  unsupported = "unsupported result format";
}

abbrev alerts : AlertManager
alerts = record {
  alert_profile =
      record { expr = "up"; description = "down"; severity = sev_error }
      ∷ record { expr = "up"; description = "slow"; severity = sev_warn }
      ∷ [];
  uuid = "u";
  metadata = [];
  has_indexer = true;
}

evaluate_lem_example : evaluate renderer alerts load ≡ (
    if any (is_fatal renderer alerts load) alerts.alert_profile
    then none
    else some (
      (if alerts.has_indexer then all_alerts renderer alerts load alerts.alert_profile else []),
      all_errors renderer alerts load alerts.alert_profile,
    ))
evaluate_lem_example = evaluate_lem renderer alerts load
