-- ===== src/Config/Validate/Names.antt =====
-- Which job names jobIsDuped of pkg/config/config.go accepts.
use kube_burner.Prelude.{
  ℕ, zero, suc, String, List, [], ◌∷◌, none, eq_iff, All, ◌≡◌, ◌≢◌, ◌↔◌, ◌⊎◌, inl, inr, refl, arith,
}
use kube_burner.Prelude.Maps.{lookup, insert, lookup-insert}
use kube_burner.Config.Types.{Job, Spec}
use kube_burner.Config.Validate.{job_is_duped_from, job_is_duped, count_of}

-- No two jobs of the list have the same name.
abbrev pub DistinctNames : List Job → Type 0
DistinctNames [] = Unit
DistinctNames (job ∷ jobs) = All (λ other. other.name ≢ job.name) jobs × DistinctNames jobs

abbrev Unseen : List (String × ℕ) → Job → Type 0
Unseen m job = count_of job.name m ≡ 0

Unseen-insert :
    (m : List (String × ℕ)) (job other : Job)
    → Unseen (insert job.name 1 m) other ↔ ((other.name ≢ job.name) × Unseen m other)
unfolding count_of
Unseen-insert m job other = (
  (λ h. ground (arith, lookup-insert job.name other.name 1 m, eq_iff job.name other.name)),
  (λ h. ground (arith, lookup-insert job.name other.name 1 m, eq_iff job.name other.name)),
)

All-Unseen-insert :
    (m : List (String × ℕ)) (job : Job) (jobs : List Job)
    → All (Unseen (insert job.name 1 m)) jobs
      ↔ (All (λ other. other.name ≢ job.name) jobs × All (Unseen m) jobs)
All-Unseen-insert m job [] = ((λ h. (tt, tt)), (λ h. tt))
All-Unseen-insert m job (other ∷ jobs) =
    let here = Unseen-insert m job other in
    let rest = All-Unseen-insert m job jobs in
    (
      (λ h. (((here.0 h.0).0, (rest.0 h.1).0), ((here.0 h.0).1, (rest.0 h.1).1))),
      (λ h. (here.1 (h.0.0, h.1.0), rest.1 (h.0.1, h.1.1))),
    )

zero_or_suc : (n : ℕ) → (n ≡ 0) ⊎ ((k : ℕ) × (n ≡ suc k))
zero_or_suc zero = inl refl
zero_or_suc (suc k) = inr (k, refl)

duped_from_iff :
    (m : List (String × ℕ)) (jobs : List Job)
    → (job_is_duped_from m jobs ≡ none) ↔ (All (Unseen m) jobs × DistinctNames jobs)
unfolding job_is_duped_from
duped_from_iff m [] = ((λ h. (tt, tt)), (λ h. refl))
duped_from_iff m (job ∷ jobs) = elim (zero_or_suc (count_of job.name m)) [
  | inl e ↦
      let rest = duped_from_iff (insert job.name 1 m) jobs in
      let split = All-Unseen-insert m job jobs in
      rw (e, job_is_duped_from)
        (
          (λ h. ((refl, (split.0 (rest.0 h).0).1), ((split.0 (rest.0 h).0).0, (rest.0 h).1))),
          (λ h. rest.1 (split.1 (h.1.0, h.0.1), h.1.1)),
        )
  | inr (n, e) ↦ ((λ h. absurd (repeated n e h)), (λ h. absurd (omega (arith, e, h.0.0))))
]
  where
    repeated : (n : ℕ) → count_of job.name m ≡ suc n → job_is_duped_from m (job ∷ jobs) ≢ none
    repeated n e h = ground (arith, e)

All-Unseen-nil : (jobs : List Job) → All (Unseen []) jobs
unfolding count_of lookup
All-Unseen-nil [] = tt
All-Unseen-nil (job ∷ jobs) = (refl, All-Unseen-nil jobs)

-- jobIsDuped accepts a configuration exactly when no two of its jobs have the same name.
pub job_is_duped_iff : (spec : Spec) → (job_is_duped spec ≡ none) ↔ DistinctNames spec.jobs
unfolding job_is_duped
job_is_duped_iff spec =
    let iff = duped_from_iff [] spec.jobs in
    ((λ h. (iff.0 h).1), (λ h. iff.1 (All-Unseen-nil spec.jobs, h)))
