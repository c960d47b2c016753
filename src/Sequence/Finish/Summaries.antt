-- ===== src/Sequence/Finish/Summaries.antt =====
-- What the summaries of a run report.
use mathlib.Core.Bool.{not}
use kube_burner.Prelude.{
  String, str_eq, Bool, true, false, List, [], ◌∷◌, Option, none, some, ◌≡◌, refl, sym, ap, ◌∙◌,
  inl, inr, All, Bool-cases,
}
use kube_burner.Prelude.Int.{pos, eqb_ℤ}
use kube_burner.Prelude.Maps.{lookup, insert, lookup-insert, lookup-insert_self}
use kube_burner.Config.Validate.{is_empty}
use kube_burner.Prometheus.{PrometheusJob}
use kube_burner.Sequence.{RunState, Session, asks, add_errs, set_rc, done, get_state, when}
use kube_burner.Sequence.Finish.{
  ReturnPair, JobSummary, summary_of, is_summarised, outcome_of, job_summaries, evaluate_alerts,
}

-- A name has an entry whose result code is not 0.
abbrev pub IsFailed : List (String × ReturnPair) → String → Type 0
IsFailed return_map name =
    (pair : ReturnPair) × (lookup name return_map ≡ some pair)
    × (eqb_ℤ pair.inner_rc (pos 0) ≡ false)

-- The program returns, with a failed entry for each job, and its result code is not 0.
abbrev pub AllFail : List PrometheusJob → Option (List (String × ReturnPair) × RunState) → Type 0
AllFail jobs none = ⊥
AllFail jobs (some (return_map, s)) =
    All (λ job. IsFailed return_map job.name) jobs × (eqb_ℤ s.inner_rc (pos 0) ≡ false)

abbrev StillFails : String → Option (List (String × ReturnPair) × RunState) → Type 0
StillFails name none = ⊥
StillFails name (some (return_map, s)) = IsFailed return_map name

insert-IsFailed :
    (name other : String) (pair : ReturnPair) (return_map : List (String × ReturnPair))
    → eqb_ℤ pair.inner_rc (pos 0) ≡ false
    → IsFailed return_map other
    → IsFailed (insert name pair return_map) other
insert-IsFailed name other pair return_map h (old, found, failed) =
    elim (Bool-cases (str_eq name other)) [
      | inl e ↦ (pair, sym (lookup-insert name other pair return_map) ∙ rw e refl, h)
      | inr e ↦ (old, sym (lookup-insert name other pair return_map) ∙ rw e found, failed)
    ]

insert-IsFailed_self :
    (name : String) (pair : ReturnPair) (return_map : List (String × ReturnPair))
    → eqb_ℤ pair.inner_rc (pos 0) ≡ false
    → IsFailed (insert name pair return_map) name
insert-IsFailed_self name pair return_map h = (pair, lookup-insert_self name pair return_map, h)

module _ (se : Session) where
  -- An entry that failed stays, as the result code stays.
  evaluate_alerts-StillFails :
      (name : String) (jobs : List PrometheusJob) (return_map : List (String × ReturnPair))
      (s : RunState)
      → eqb_ℤ s.inner_rc (pos 0) ≡ false
      → IsFailed return_map name
      → StillFails name (evaluate_alerts se jobs return_map s)
  unfolding evaluate_alerts asks add_errs set_rc done get_state when
  evaluate_alerts-StillFails name [] return_map s h failed = failed
  evaluate_alerts-StillFails name (job ∷ jobs) return_map s h failed =
      elim (Bool-cases (not (is_empty (se.alert_errs s.world.clock job)))) [
        | inl e ↦
            rw (e, evaluate_alerts)
              (evaluate_alerts-StillFails name jobs _ _ refl
                (insert-IsFailed job.name name _ return_map refl failed))
        | inr e ↦
            rw (e, evaluate_alerts)
              (evaluate_alerts-StillFails name jobs _ _ h
                (insert-IsFailed job.name name _ return_map h failed))
      ]

  both :
      (job : PrometheusJob) (jobs : List PrometheusJob)
      (outcome : Option (List (String × ReturnPair) × RunState))
      → StillFails job.name outcome
      → AllFail jobs outcome
      → AllFail (job ∷ jobs) outcome
  both job jobs none still all = all
  both job jobs (some (return_map, s)) still (all, rc) = ((still, all), rc)

  -- The alerts of the executed jobs always give a result, and where the run's result code is not 0
  -- when they are evaluated, it is not 0 behind them, and every executed job has an entry with a
  -- result code that is not 0, with or without alerts of its own.
  pub evaluate_alerts-AllFail :
      (jobs : List PrometheusJob) (return_map : List (String × ReturnPair)) (s : RunState)
      → eqb_ℤ s.inner_rc (pos 0) ≡ false
      → AllFail jobs (evaluate_alerts se jobs return_map s)
  unfolding evaluate_alerts asks add_errs set_rc done get_state when
  evaluate_alerts-AllFail [] return_map s h = (tt, h)
  evaluate_alerts-AllFail (job ∷ jobs) return_map s h =
      elim (Bool-cases (not (is_empty (se.alert_errs s.world.clock job)))) [
        | inl e ↦
            rw (e, evaluate_alerts)
              (both job jobs _
                (evaluate_alerts-StillFails job.name jobs _ _ refl
                  (insert-IsFailed_self job.name _ return_map refl))
                (evaluate_alerts-AllFail jobs _ _ refl))
        | inr e ↦
            rw (e, evaluate_alerts)
              (both job jobs _
                (evaluate_alerts-StillFails job.name jobs _ _ h
                  (insert-IsFailed_self job.name _ return_map h))
                (evaluate_alerts-AllFail jobs _ _ h))
      ]

-- The summaries by each job's own entry.
abbrev pub own_summaries : List (String × ReturnPair) → List PrometheusJob → List JobSummary
own_summaries return_map [] = []
own_summaries return_map (job ∷ jobs) =
    let later = own_summaries return_map jobs in
    elim (is_summarised job) [
      | false ↦ later
      | true ↦ elim (lookup job.name return_map) [
        | none ↦ later
        | some pair ↦ summary_of job (eqb_ℤ pair.inner_rc (pos 0)) pair.execution_errors ∷ later
      ]
    ]

abbrev pub HasEntry : List (String × ReturnPair) → PrometheusJob → Type 0
HasEntry return_map job = (pair : ReturnPair) × (lookup job.name return_map ≡ some pair)

-- Where every executed job has an entry, the summaries of a run that did not time out are those of
-- the jobs whose indexing is not skipped and whose metrics are not scraped yet, in order, each with
-- the result and the errors of its own entry: what the loop carries from job to job has no effect.
pub job_summaries-own :
    (return_map : List (String × ReturnPair)) (jobs : List PrometheusJob) (passed : Bool)
    (errors : List String)
    → All (HasEntry return_map) jobs
    → job_summaries return_map false jobs passed errors ≡ own_summaries return_map jobs
unfolding job_summaries outcome_of
job_summaries-own return_map [] passed errors h = refl
job_summaries-own return_map (job ∷ jobs) passed errors ((pair, found), rest) =
    elim (Bool-cases (is_summarised job)) [
      | inr e ↦
          simp (e, job_summaries, own_summaries)
            (job_summaries-own return_map jobs passed errors rest)
      | inl e ↦
          simp (e, found, job_summaries, own_summaries, outcome_of)
            (ap
              (λ later. summary_of job (eqb_ℤ pair.inner_rc (pos 0)) pair.execution_errors ∷ later)
              (job_summaries-own return_map jobs _ _ rest))
    ]
