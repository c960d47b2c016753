-- ===== src/Prometheus/Scrape/Queries.antt =====
-- The queries that ScrapeJobsMetrics asks.
use text.Mathlib.TextLemmas.{nil-append}
use kube_burner.Prelude.{
  String, true, false, List, [], ◌∷◌, ◌++◌, Option, none, some, if◌then◌else◌, ◌≡◌, refl, ap, ◌∙◌,
  sym, append_assoc, append-nil, Bool-cases, inl, inr,
}
use kube_burner.Prelude.Int.{ℤ, pos, eqb_ℤ}
use kube_burner.Prelude.Text.{append}
use kube_burner.Prometheus.{PrometheusJob, MetricDefinition, MetricProfile, Server, Prometheus}
use kube_burner.Prometheus.Scrape.{
  Query, instant_query, range_query, ScrapeState, milliseconds, duration_of, requires_instant,
  instant_metric, range_metric, scrape_metric, scrape_metrics, scrape_profiles, scrape_jobs,
  scrape_jobs_metrics,
}

-- The queries of one metric, with the text that its own template gives.
abbrev pub metric_plan : Server → Prometheus → PrometheusJob → MetricDefinition → List Query
metric_plan s p job m =
    let query = (s.execute m.query (duration_of job)).0 in
    if m.instant
    then (if m.capture_start
        then instant_query query job.start ∷ instant_query query job.end ∷ []
        else instant_query query job.end ∷ [])
    else (if requires_instant p job
        then range_query query job.start job.end ∷ instant_query query job.end ∷ []
        else range_query query job.start job.end ∷ [])

abbrev pub concat_map {ℓ} : {A : Type ℓ} → (A → List Query) → List A → List Query
concat_map f [] = []
concat_map f (x ∷ xs) = f x ++ concat_map f xs

abbrev pub profile_plan : Server → Prometheus → PrometheusJob → MetricProfile → List Query
profile_plan s p job profile = concat_map (metric_plan s p job) profile.metrics

abbrev pub job_plan : Server → Prometheus → PrometheusJob → List Query
job_plan s p job =
    if job.skip_indexing then [] else concat_map (profile_plan s p job) p.metric_profiles

-- A program that begins with an empty buffer ends with one, and has asked the queries of a plan.
abbrev pub Asks :
    {Float : Type 0} → ScrapeState Float → List Query → Option (ScrapeState Float) → Type 0
Asks before plan none = ⊥
Asks before plan (some after) = (after.asked ≡ before.asked ++ plan) × (after.rendered_query ≡ "")

module _ {Float : Type 0} where
  chain-Asks :
      (before : ScrapeState Float) (first second : List Query) (step : Option (ScrapeState Float))
      (rest : ScrapeState Float → Option (ScrapeState Float))
      → Asks before first step
      → ((after : ScrapeState Float) → after.rendered_query ≡ "" → Asks after second (rest after))
      → Asks before (first ++ second) (elim step [ none ↦ none | some after ↦ rest after ])
  chain-Asks before first second none rest asks h = asks
  chain-Asks before first second (some after) rest (told, clean) h =
      longer (rest after) (h after clean)
    where
      longer :
          (last : Option (ScrapeState Float))
          → Asks after second last
          → Asks before (first ++ second) last
      longer none never = never
      longer (some end) (more, still) =
          (more ∙ ap (λ l. l ++ second) told ∙ append_assoc before.asked first second, still)

  -- A loop asks the plans of its elements, one behind the other.
  loop-Asks {ℓ} :
      {A : Type ℓ} (plan : A → List Query)
      (body : A → ScrapeState Float → Option (ScrapeState Float))
      (loop : List A → ScrapeState Float → Option (ScrapeState Float))
      → ((st : ScrapeState Float) → loop [] st ≡ some st)
      → ((x : A) (xs : List A) (st : ScrapeState Float)
          → loop (x ∷ xs) st ≡ elim (body x st) [ none ↦ none | some after ↦ loop xs after ])
      → ((x : A) (st : ScrapeState Float) → st.rendered_query ≡ "" → Asks st (plan x) (body x st))
      → (xs : List A) (st : ScrapeState Float) → st.rendered_query ≡ ""
      → Asks st (concat_map plan xs) (loop xs st)
  loop-Asks plan body loop at_nil at_cons each [] st clean =
      rw (at_nil st) (sym (append-nil st.asked), clean)
  loop-Asks plan body loop at_nil at_cons each (x ∷ xs) st clean = rw (at_cons x xs st) (
      chain-Asks st (plan x) (concat_map plan xs) (body x st) (loop xs) (each x st clean)
        (loop-Asks plan body loop at_nil at_cons each xs))

module _ (s : Server) (p : Prometheus)
    (renders : (template : String) (elapsed : ℤ) → (s.execute template elapsed).1 ≡ false)
    (ticks : eqb_ℤ (milliseconds p.step) (pos 0) ≡ false) where
  open s use {Float}

  instant_metric-Asks :
      (job : PrometheusJob) (m : MetricDefinition) (query : String) (st : ScrapeState Float)
      → st.rendered_query ≡ ""
      → Asks st
          (if m.capture_start
            then instant_query query job.start ∷ instant_query query job.end ∷ []
            else instant_query query job.end ∷ [])
          (some (instant_metric s p job m query st))
  unfolding instant_metric
  instant_metric-Asks job m query st clean = elim (Bool-cases m.capture_start) [
    | inl e ↦ rw (e, instant_metric) (refl, clean)
    | inr e ↦ rw (e, instant_metric) (refl, clean)
  ]

  range_metric-Asks :
      (job : PrometheusJob) (m : MetricDefinition) (query : String) (st : ScrapeState Float)
      → st.rendered_query ≡ ""
      → Asks st
          (if requires_instant p job
            then range_query query job.start job.end ∷ instant_query query job.end ∷ []
            else range_query query job.start job.end ∷ [])
          (some (range_metric s p job m query st))
  unfolding range_metric
  range_metric-Asks job m query st clean = elim (Bool-cases (requires_instant p job)) [
    | inl e ↦ rw (e, range_metric) (refl, clean)
    | inr e ↦ rw (e, range_metric) (refl, clean)
  ]

  scrape_metric-Asks :
      (job : PrometheusJob) (m : MetricDefinition) (st : ScrapeState Float)
      → st.rendered_query ≡ ""
      → Asks st (metric_plan s p job m) (scrape_metric s p job m st)
  unfolding scrape_metric instant_metric range_metric
  scrape_metric-Asks job m st clean =
      let query = (s.execute m.query (duration_of job)).0 in
      let reset : ScrapeState Float = record st { rendered_query = "" } in
      rw (renders m.query (duration_of job), ticks, clean, nil-append query)
        (elim (Bool-cases m.instant) [
          | inl e ↦ rw e (instant_metric-Asks job m query reset refl)
          | inr e ↦ rw e (range_metric-Asks job m query reset refl)
        ])

  scrape_profile-Asks :
      (job : PrometheusJob) (metrics : List MetricDefinition) (st : ScrapeState Float)
      → st.rendered_query ≡ ""
      → Asks st (concat_map (metric_plan s p job) metrics) (scrape_metrics s p job metrics st)
  unfolding scrape_metrics
  scrape_profile-Asks job =
      loop-Asks (metric_plan s p job) (scrape_metric s p job) (scrape_metrics s p job) (λ st. refl)
        (λ m metrics st. refl) (scrape_metric-Asks job)

  scrape_profiles-Asks :
      (job : PrometheusJob) (profiles : List MetricProfile) (st : ScrapeState Float)
      → st.rendered_query ≡ ""
      → Asks st (concat_map (profile_plan s p job) profiles) (scrape_profiles s p job profiles st)
  unfolding scrape_profiles
  scrape_profiles-Asks job =
      loop-Asks (profile_plan s p job) (λ profile. scrape_metrics s p job profile.metrics)
        (scrape_profiles s p job) (λ st. refl) (λ profile profiles st. refl)
        (λ profile st clean. scrape_profile-Asks job profile.metrics st clean)

  scrape_jobs-Asks :
      (jobs : List PrometheusJob) (st : ScrapeState Float)
      → st.rendered_query ≡ ""
      → Asks st (concat_map (job_plan s p) jobs) (scrape_jobs s p jobs st)
  unfolding scrape_jobs
  scrape_jobs-Asks [] st clean = (sym (append-nil st.asked), clean)
  scrape_jobs-Asks (job ∷ jobs) st clean = elim (Bool-cases job.skip_indexing) [
    | inl e ↦ rw (e, scrape_jobs, concat_map) (scrape_jobs-Asks jobs st clean)
    | inr e ↦
        rw (e, scrape_jobs, concat_map)
          (chain-Asks st (concat_map (profile_plan s p job) p.metric_profiles)
            (concat_map (job_plan s p) jobs) (scrape_profiles s p job p.metric_profiles st)
            (scrape_jobs s p jobs) (scrape_profiles-Asks job p.metric_profiles st clean)
            (scrape_jobs-Asks jobs))
  ]

  -- ScrapeJobsMetrics does not panic, and it asks for each job that is indexed, for each metric of
  -- each profile, in this order, exactly the queries that the metric's own template gives: at the end
  -- of the job, and where it is captured at the start, for an instant metric; over the job, and at
  -- its end where the step does not divide the job's duration, for another one. The conditions: an
  -- indexer is there, no template fails, and the step is at least a millisecond.
  pub scrape_jobs_metrics-Asks :
      (jobs : List PrometheusJob)
      → p.has_indexer ≡ true
      → Asks
          (record { rendered_query = ""; asked = []; indexed = [] })
          (concat_map (job_plan s p) jobs)
          (scrape_jobs_metrics s p jobs)
  unfolding scrape_jobs_metrics
  scrape_jobs_metrics-Asks jobs e =
      simp e (scrape_jobs-Asks jobs (record { rendered_query = ""; asked = []; indexed = [] }) refl)

-- Where the template of a metric fails behind the text `part`, the query of the next metric, an
-- instant one that is not captured at the start, is asked with `part` in front of its own text. The
-- failing metric itself is skipped.
pub scrape_metrics-stale :
    (s : Server) (p : Prometheus) (job : PrometheusJob) (m next : MetricDefinition)
    (part written : String)
    → s.execute m.query (duration_of job) ≡ (part, true)
    → s.execute next.query (duration_of job) ≡ (written, false)
    → next.instant ≡ true
    → next.capture_start ≡ false
    → Asks
        (record { rendered_query = ""; asked = []; indexed = [] })
        (instant_query (append part written) job.end ∷ [])
        (scrape_metrics s p job
          (m ∷ next ∷ [])
          (record { rendered_query = ""; asked = []; indexed = [] }))
unfolding scrape_metrics scrape_metric instant_metric
scrape_metrics-stale s p job m next part written e f g h =
    simp (e, f, g, h, scrape_metrics, scrape_metric, instant_metric, nil-append part) (refl, refl)
