-- ===== src/Prometheus/Metrics.antt =====
-- What the documents of createMetric hold.
use mathlib.Core.Option.{some-injective}
use kube_burner.Config.Types.{GroupWindow}
use kube_burner.Prelude.{
  String, str_eq, true, false, ◌&&◌, List, [], ◌∷◌, Option, none, some, if◌then◌else◌, ◌≡◌, ◌↔◌,
  refl, ◌∙◌, sym, subst, arith, Bool-cases, inl, inr,
}
use kube_burner.Prelude.Int.{ℤ, ltb_ℤ, leb_ℤ, ◌<ℤ◌}
use kube_burner.Prelude.Maps.{lookup, insert, copy, lookup-insert, lookup-insert_self}
use kube_burner.Config.Types.{Labels}
use kube_burner.Prometheus.{
  PrometheusJob, Any, text, number, Server, Prometheus, is_within, tag_group, strip_name,
  create_metric,
}

-- The window that a time is tagged with: the first one that holds it.
abbrev pub window_of : List GroupWindow → ℤ → Option Any
window_of [] time = none
window_of (w ∷ windows) time =
    let later = window_of windows time in
    if leb_ℤ w.start time && leb_ℤ time w.end then some (number w.id) else later

-- The two times of the churn are known, and the time is strictly between them.
abbrev pub IsChurning : PrometheusJob → ℤ → Type 0
IsChurning job time =
    (start : ℤ) × (end : ℤ) × (job.churn_start ≡ some start)
    × (job.churn_end ≡ some end)
    × (start <ℤ time)
    × (time <ℤ end)

strip_name-lookup :
    (labels kept : Labels)
    → lookup "__name__" kept ≡ none
    → lookup "__name__" (strip_name labels kept) ≡ none
unfolding strip_name
strip_name-lookup [] kept h = h
strip_name-lookup ((key, val) ∷ labels) kept h = elim (Bool-cases (str_eq key "__name__")) [
  | inl e ↦ rw (e, strip_name) (strip_name-lookup labels kept h)
  | inr e ↦
      rw (e, strip_name)
        (strip_name-lookup labels (insert key val kept)
          (sym (lookup-insert key "__name__" val kept) ∙ rw e h))
]

within_iff :
    (from to : Option ℤ) (time : ℤ)
    → (is_within from to time ≡ true) ↔ (
        (start : ℤ) × (end : ℤ) × (from ≡ some start)
        × (to ≡ some end)
        × (start <ℤ time)
        × (time <ℤ end))
unfolding is_within
within_iff none to time = ((λ h. cc), (λ (a, b, e, f, g, l). cc))
within_iff (some start) none time = ((λ h. cc), (λ (a, b, e, f, g, l). cc))
within_iff (some start) (some end) time = (
  (λ h. (start, end, refl, refl, ground arith, ground arith)),
  (λ (a, b, e, f, g, l).
      let same = some-injective start a e in
      let also = some-injective end b f in
      between (subst (λ x. x <ℤ time) (sym same) g) (subst (λ x. time <ℤ x) (sym also) l)),
)
  where
    between : start <ℤ time → time <ℤ end → (ltb_ℤ start time && ltb_ℤ time end) ≡ true
    between g l = ground arith

tag_group-lookup :
    (windows : List GroupWindow) (time : ℤ) (metadata : List (String × Any))
    → lookup "groupId" metadata ≡ none
    → lookup "groupId" (tag_group windows time metadata) ≡ window_of windows time
unfolding tag_group
tag_group-lookup [] time metadata h = h
tag_group-lookup (w ∷ windows) time metadata h =
    elim (Bool-cases (leb_ℤ w.start time && leb_ℤ time w.end)) [
      | inl e ↦ rw (e, tag_group, window_of) (lookup-insert_self "groupId" (number w.id) metadata)
      | inr e ↦ rw (e, tag_group, window_of) (tag_group-lookup windows time metadata h)
    ]

-- A document does not hold the name of the metric among its labels. It is tagged with the churn
-- exactly when it is of a range query and its time is strictly between the times of the churn, and
-- with the group of the first window that holds its time where it is of a range query. A value that
-- is no number is 0. The endpoint's own metadata has no groupId.
pub create_metric_lem :
    (s : Server) (p : Prometheus) (query name : String) (job : PrometheusJob) (labels : Labels)
    (value : s.Float) (time : ℤ)
    → lookup "groupId" (copy [] p.metadata) ≡ none
    → (lookup "__name__" (create_metric s p query name job labels value time false).labels ≡ none)
      × (((create_metric s p query name job labels value time false).churn_metric ≡ true)
          ↔ IsChurning job time)
      × ((create_metric s p query name job labels value time true).churn_metric ≡ false)
      × (lookup "groupId" (create_metric s p query name job labels value time false).metadata
          ≡ window_of job.group_windows time)
      × (lookup "groupId" (create_metric s p query name job labels value time true).metadata ≡ none)
      × ((create_metric s p query name job labels value time false).value
          ≡ (if s.is_nan value then s.float_zero else value))
unfolding create_metric lookup
create_metric_lem s p query name job labels value time h = (
  strip_name-lookup labels [] refl,
  within_iff job.churn_start job.churn_end time,
  refl,
  tag_group-lookup job.group_windows time _ untagged,
  untagged,
  refl,
)
  where
    untagged :
        lookup "groupId" (
          if str_eq job.incremental_load_uuid ""
          then copy [] p.metadata
          else insert "incrementalLoadUUID" (text job.incremental_load_uuid) (copy [] p.metadata))
        ≡ none
    untagged = elim (Bool-cases (str_eq job.incremental_load_uuid "")) [
      | inl e ↦ rw e h
      | inr e ↦ rw e (
          sym (
            lookup-insert "incrementalLoadUUID" "groupId" (text job.incremental_load_uuid)
              (copy [] p.metadata))
          ∙ h)
    ]
