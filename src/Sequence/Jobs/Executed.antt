-- ===== src/Sequence/Jobs/Executed.antt =====
-- The executed jobs of the loop of Run.
use kube_burner.Prelude.{
  ℕ, String, Bool, true, false, List, [], ◌∷◌, ◌++◌, Option, none, some, map, ◌≡◌, refl, sym, ap,
  ◌∙◌, append_assoc, append-nil,
}
use kube_burner.Executor.{JobExecutor}
use kube_burner.Sequence.{RunState, Session, R, done, ◌>>=◌, get_state}
use kube_burner.Sequence.Job.{create_once, run_job}
use kube_burner.Sequence.Job.Names.{names_of, AddsAt, run_job-Adds}
use kube_burner.Sequence.Jobs.{RunJob, JobsEnd, abandoned, ended, with_executor, run_jobs}
use kube_burner.Sequence.Job.{shared}

-- The jobs without incremental load.
abbrev pub once : Session → JobExecutor → RunJob
once se ex = record { executor = ex; creation = create_once se.cluster ex; is_incremental = false }

-- The executed jobs are, behind those that were there, all of the jobs with these names, or the first
-- ones of them where the loop was abandoned.
abbrev pub ExecutesAt : List String → RunState → Option (JobsEnd × RunState) → Type 0
ExecutesAt names before none = Unit
ExecutesAt names before (some (ended executors, after)) = names_of after ≡ names_of before ++ names
ExecutesAt names before (some (abandoned, after)) =
    (first : List String) × (rest : List String) × (names ≡ first ++ rest)
    × (names_of after ≡ names_of before ++ first)

module _ (se : Session) where
  with_executor-ExecutesAt :
      (name : String) (names : List String) (before : RunState) (ex : JobExecutor)
      (middle : RunState) (o : Option (JobsEnd × RunState))
      → names_of middle ≡ names_of before ++ (name ∷ [])
      → ExecutesAt names middle o
      → ExecutesAt
          (name ∷ names)
          before
          (((λ s. o) >>= λ rest. done (with_executor (shared ex middle.world) rest)) middle)
  unfolding done
  with_executor-ExecutesAt name names before ex middle none e h = tt
  with_executor-ExecutesAt name names before ex middle (some (ended executors, after)) e h =
      h ∙ ap (λ l. l ++ names) e ∙ append_assoc (names_of before) (name ∷ []) names
  with_executor-ExecutesAt name names before ex middle (some (abandoned, after)) e
        (first, rest, same, told) =
      (
        name ∷ first,
        rest,
        ap (λ l. name ∷ l) same,
        told ∙ ap (λ l. l ++ first) e ∙ append_assoc (names_of before) (name ∷ []) first,
      )

  -- The loop of Run adds one executed job for each job, in their order: for all of them, or where it
  -- is abandoned for the first ones. The jobs have no incremental load.
  pub run_jobs-ExecutesAt :
      (fuel : ℕ) (executors : List JobExecutor) (s : RunState)
      → ExecutesAt
          (map (λ ex. ex.job.name) executors)
          s
          (run_jobs se fuel (map (once se) executors) s)
  unfolding run_jobs done get_state
  run_jobs-ExecutesAt fuel [] s = sym (append-nil (names_of s))
  run_jobs-ExecutesAt fuel (ex ∷ executors) s =
      by_job (run_job se fuel ex (create_once se.cluster ex) false s) (run_job-Adds se fuel ex s)
        (run_jobs-ExecutesAt fuel executors)
    where
      names : List String
      names = map (λ x. x.job.name) executors

      rest_of : Bool → R JobsEnd
      rest_of ran = elim ran [
        | false ↦ done abandoned
        | true ↦ get_state >>= λ w. run_jobs se fuel (map (once se) executors) >>= λ rest.
            done (with_executor (shared ex w.world) rest)
      ]

      by_job :
          (o : Option (Bool × RunState))
          → AddsAt (ex.job.name ∷ []) s o
          → ((after : RunState)
              → ExecutesAt names after (run_jobs se fuel (map (once se) executors) after))
          → ExecutesAt (ex.job.name ∷ names) s (((λ t. o) >>= rest_of) s)
      by_job none e rec = tt
      by_job (some (false, after)) e rec = (ex.job.name ∷ [], names, refl, e)
      by_job (some (true, after)) e rec =
          with_executor-ExecutesAt ex.job.name names s ex after
            (run_jobs se fuel (map (once se) executors) after) e (rec after)
