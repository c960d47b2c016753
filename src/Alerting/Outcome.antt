-- ===== src/Alerting/Outcome.antt =====
-- How the evaluation of an alert profile ends.
use kube_burner.Prelude.{
  String, str_eq, Bool, true, false, ◌&&◌, ◌||◌, List, [], ◌∷◌, ◌++◌, Option, none, some, any,
  if◌then◌else◌, ◌≡◌, refl, sym, ap, ◌∙◌, append_assoc, append-nil, Option-cases, inl, inr, ◌⊎◌,
}
use kube_burner.Config.Types.{Labels}
use kube_burner.Prelude.Int.{ℤ}
use kube_burner.Prometheus.{Series, ModelValue, vector, matrix, other, PrometheusJob}
use kube_burner.Alerting.{
  AlertRule, Alert, Renderer, AlertManager, sev_critical, alert_of, alert_errors, parse_series,
  parse_alerts, evaluate_rules, evaluate, index_alerts,
}

List-cases {ℓ} :
    {A : Type ℓ} (xs : List A) → (xs ≡ []) ⊎ ((first : A) × (rest : List A) × (xs ≡ first ∷ rest))
List-cases [] = inl refl
List-cases (first ∷ rest) = inr (first, rest, refl)

abbrev pub fires : {Float : Type 0} → Series Float → Bool
fires series = elim (series.values) [ [] ↦ false | first ∷ values ↦ true ]

module _ {Float : Type 0} (r : Renderer Float) (a : AlertManager) (job : PrometheusJob) where
  -- One alert for each series that has a value, of its first one.
  abbrev pub series_alerts : AlertRule → List (Series Float) → List Alert
  series_alerts rule [] = []
  series_alerts rule (series ∷ data_left) =
      let later = series_alerts rule data_left in
      elim (series.values) [
        | [] ↦ later
        | first ∷ values ↦ alert_of r a rule job series.labels first ∷ later
      ]

  -- The error of the rendering, where there is one, and then the message of an alert of the
  -- severity error.
  abbrev pub told_errors : AlertRule → Labels → Float × ℤ → List String
  told_errors rule labels (value, time) =
      let told = r.render rule.description labels (r.three_decimals value) in
      (elim (told.1) [ none ↦ [] | some e ↦ e ∷ [] ])
      ++ (if str_eq rule.severity "error" then r.message time told.0 ∷ [] else [])

  alert_errors-told :
      (rule : AlertRule) (labels : Labels) (sample : Float × ℤ)
      → alert_errors r rule labels sample ≡ told_errors rule labels sample
  unfolding alert_errors
  alert_errors-told rule labels (value, time) =
      with_message (str_eq rule.severity "error")
        (elim ((r.render rule.description labels (r.three_decimals value)).1) [
          | none ↦ []
          | some e ↦ e ∷ []
        ])
    where
      with_message :
          (is_error : Bool) (errs : List String)
          → (if is_error
              then errs
                ++ (r.message time (r.render rule.description labels (r.three_decimals value)).0
                    ∷ [])
              else errs)
            ≡ errs
              ++ (if is_error
                  then r.message time (r.render rule.description labels (r.three_decimals value)).0
                    ∷ []
                  else [])
      with_message true errs = refl
      with_message false errs = sym (append-nil errs)

  abbrev pub series_errors : AlertRule → List (Series Float) → List String
  series_errors rule [] = []
  series_errors rule (series ∷ data_left) =
      let later = series_errors rule data_left in
      elim (series.values) [
        | [] ↦ later
        | first ∷ values ↦ told_errors rule series.labels first ++ later
      ]

  -- A critical rule whose query has a series with a value.
  abbrev pub is_fatal : AlertRule → Bool
  is_fatal rule = str_eq rule.severity sev_critical && (elim (r.query_range rule.expr job) [
    | some (matrix data_points) ↦ any fires data_points
    | _ ↦ false
  ])

  abbrev pub rule_alerts : AlertRule → List Alert
  rule_alerts rule = elim (r.query_range rule.expr job) [
    | some (matrix data_points) ↦ series_alerts rule data_points
    | _ ↦ []
  ]

  abbrev pub rule_errors : AlertRule → List String
  rule_errors rule = elim (r.query_range rule.expr job) [
    | none ↦ []
    | some (matrix data_points) ↦ series_errors rule data_points
    | _ ↦ r.unsupported ∷ []
  ]

  abbrev pub all_alerts : List AlertRule → List Alert
  all_alerts [] = []
  all_alerts (rule ∷ rules) = rule_alerts rule ++ all_alerts rules

  -- The errors of the rules that have some.
  abbrev pub all_errors : List AlertRule → List (List String)
  all_errors [] = []
  all_errors (rule ∷ rules) =
      let later = all_errors rules in
      elim (rule_errors rule) [ [] ↦ later | e ∷ more ↦ (e ∷ more) ∷ later ]

  cut :
      (critical fired : Bool) (alerts found more : List Alert) (errs told after : List String)
      (rest : Option (List Alert × List String))
      → rest ≡ (
          if critical && fired
          then none
          else some ((alerts ++ found) ++ more, (errs ++ told) ++ after))
      → rest ≡ (
          if critical && fired
          then none
          else some (alerts ++ (found ++ more), errs ++ (told ++ after)))
  cut critical fired alerts found more errs told after rest h =
      h ∙ rw (append_assoc alerts found more, append_assoc errs told after) refl

  parse_series_lem :
      (rule : AlertRule) (critical : Bool)
      → str_eq rule.severity sev_critical ≡ critical
      → (data_points : List (Series Float)) (alerts : List Alert) (errs : List String)
      → parse_series r a rule job data_points alerts errs ≡ (
          if critical && any fires data_points
          then none
          else some
              (alerts ++ series_alerts rule data_points, errs ++ series_errors rule data_points))
  unfolding parse_series
  parse_series_lem rule true c [] alerts errs = rw (append-nil alerts, append-nil errs) refl
  parse_series_lem rule false c [] alerts errs = rw (append-nil alerts, append-nil errs) refl
  parse_series_lem rule true c (series ∷ data_left) alerts errs = elim (List-cases series.values) [
    | inl e ↦ simp (e, c, fires, any) (parse_series_lem rule true c data_left alerts errs)
    | inr (first, values, e) ↦ simp (e, c, fires, any) refl
  ]
  parse_series_lem rule false c (series ∷ data_left) alerts errs = elim (List-cases series.values) [
    | inl e ↦ simp (e, c, fires, any) (parse_series_lem rule false c data_left alerts errs)
    | inr (first, values, e) ↦
        simp (e, c, fires, any, sym (alert_errors-told rule series.labels first))
          (cut false true alerts (alert_of r a rule job series.labels first ∷ [])
            (series_alerts rule data_left) errs (alert_errors r rule series.labels first)
            (series_errors rule data_left) (parse_series r a rule job data_left _ _)
            (parse_series_lem rule false c data_left
              (alerts ++ (alert_of r a rule job series.labels first ∷ []))
              (errs ++ alert_errors r rule series.labels first)))
  ]

  and-false : (b : Bool) → (b && false) ≡ false
  and-false true = refl
  and-false false = refl

  -- parseMatrix on the answer of a rule's query.
  parse_alerts_lem :
      (rule : AlertRule) (value : ModelValue Float)
      → r.query_range rule.expr job ≡ some value
      → parse_alerts r a rule job value
        ≡ (if is_fatal rule then none else some (rule_alerts rule, rule_errors rule))
  unfolding parse_alerts
  parse_alerts_lem rule (matrix data_points) e =
      rw (is_fatal, rule_alerts, rule_errors, e)
        (parse_series_lem rule (str_eq rule.severity sev_critical) refl data_points [] [])
  parse_alerts_lem rule (vector samples) e =
      rw (is_fatal, rule_alerts, rule_errors, e, and-false (str_eq rule.severity sev_critical)) refl
  parse_alerts_lem rule other e =
      rw (is_fatal, rule_alerts, rule_errors, e, and-false (str_eq rule.severity sev_critical)) refl

  -- What the loop of Evaluate does with the result of parseMatrix.
  abbrev after_parse :
      List AlertRule
      → List Alert
      → List (List String)
      → Option (List Alert × List String)
      → Option (List Alert × List (List String))
  after_parse rules alerts errs none = none
  after_parse rules alerts errs (some (found, [])) =
      evaluate_rules r a job rules (alerts ++ found) errs
  after_parse rules alerts errs (some (found, e ∷ more)) =
      evaluate_rules r a job rules (alerts ++ found) (errs ++ ((e ∷ more) ∷ []))

  after_parse_lem :
      (rules : List AlertRule) (alerts : List Alert) (errs : List (List String)) (fatal : Bool)
      (found : List Alert) (told : List String)
      → ((more : List Alert) (all : List (List String))
          → evaluate_rules r a job rules more all ≡ (
              if any is_fatal rules
              then none
              else some (more ++ all_alerts rules, all ++ all_errors rules)))
      → after_parse rules alerts errs (if fatal then none else some (found, told)) ≡ (
          if fatal || any is_fatal rules
          then none
          else some (
            alerts ++ (found ++ all_alerts rules),
            errs
                ++ (elim told [ [] ↦ all_errors rules | e ∷ more ↦ (e ∷ more) ∷ all_errors rules ]),
          ))
  after_parse_lem rules alerts errs true found told h = refl
  after_parse_lem rules alerts errs false found [] h =
      h (alerts ++ found) errs ∙ rw (append_assoc alerts found (all_alerts rules)) refl
  after_parse_lem rules alerts errs false found (e ∷ more) h =
      h (alerts ++ found) (errs ++ ((e ∷ more) ∷ []))
      ∙ rw
          (
            append_assoc alerts found (all_alerts rules),
            append_assoc errs ((e ∷ more) ∷ []) (all_errors rules),
          )
          refl

  evaluate_rules_lem :
      (rules : List AlertRule) (alerts : List Alert) (errs : List (List String))
      → evaluate_rules r a job rules alerts errs ≡ (
          if any is_fatal rules
          then none
          else some (alerts ++ all_alerts rules, errs ++ all_errors rules))
  unfolding evaluate_rules
  evaluate_rules_lem [] alerts errs = rw (append-nil alerts, append-nil errs) refl
  evaluate_rules_lem (rule ∷ rules) alerts errs =
      elim (Option-cases (r.query_range rule.expr job)) [
        | inl e ↦
            rw
              (
                evaluate_rules,
                any,
                all_alerts,
                all_errors,
                rule_alerts,
                rule_errors,
                e,
                and-false (str_eq rule.severity sev_critical),
              )
              (evaluate_rules_lem rules alerts errs)
        | inr (value, e) ↦
            answered value e
            ∙ ap (after_parse rules alerts errs) (parse_alerts_lem rule value e)
            ∙ after_parse_lem rules alerts errs (is_fatal rule) (rule_alerts rule)
                (rule_errors rule) (evaluate_rules_lem rules)
      ]
    where
      answered :
          (value : ModelValue Float)
          → r.query_range rule.expr job ≡ some value
          → evaluate_rules r a job (rule ∷ rules) alerts errs
            ≡ after_parse rules alerts errs (parse_alerts r a rule job value)
      answered value e = rw (evaluate_rules, e) refl

  -- Evaluate exits exactly where a critical rule's query has a series with a value. Otherwise the
  -- alerts, in the order of the rules and of the series, are one for each series that has a value,
  -- and its errors are those of the rules that have some: an answer that is no matrix, a description
  -- that is not rendered, or an alert of the severity error. A query that fails adds nothing.
  pub evaluate_lem : evaluate r a job ≡ (
      if any is_fatal a.alert_profile
      then none
      else some
          ((if a.has_indexer then all_alerts a.alert_profile else []), all_errors a.alert_profile))
  unfolding evaluate
  evaluate_lem =
      rw (evaluate, evaluate_rules_lem a.alert_profile [] [])
        (by_exit (any is_fatal a.alert_profile))
    where
      by_exit :
          (exits : Bool)
          → index_alerts a (
              if exits then none else some (all_alerts a.alert_profile, all_errors a.alert_profile))
            ≡ (if exits
                then none
                else some (
                  (if a.has_indexer then all_alerts a.alert_profile else []),
                  all_errors a.alert_profile,
                ))
      by_exit true = refl
      by_exit false = refl
