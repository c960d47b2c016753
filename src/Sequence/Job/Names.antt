-- ===== src/Sequence/Job/Names.antt =====
-- The names of the executed jobs, through the body of the loop of Run.
use mathlib.Core.Bool.{not}
use mathlib.Core.Option.{some-injective}
use kube_burner.Prelude.{
  ℕ, zero, suc, String, Bool, true, false, List, [], ◌∷◌, ◌++◌, Option, none, some, map,
  if◌then◌else◌, str_eq, length, set, get_elem?, ◌≡◌, refl, sym, ap, ◌∙◌, append_assoc, append-nil,
}
use kube_burner.Prelude.Int.{ℤ, pos, pos_part}
use kube_burner.Config.Types.{
  GroupWindow, JobStage, Hook, before_job_execution, after_job_execution, before_cleanup,
  after_cleanup, creation_job, after_measurements,
}
use kube_burner.Config.Validate.{is_churn_enabled}
use kube_burner.Executor.{
  JobExecutor, World, M, set_executor, emit, measurements_started, measurements_stopped,
}
use kube_burner.Create.Run.{run_create_job}
use kube_burner.Prometheus.{PrometheusJob}
use kube_burner.Sequence.{
  RunState, Session, R, done, ◌>>=◌, ◌>>◌, of_job, get_state, asks, add_errs, set_rc, append_job,
  change_job, at_now, when,
}
use kube_burner.Sequence.Job.{
  notify_stage, execute_hooks_for_job_stage, collect_background_errs, start_measurements, start_job,
  record_creation, churn_job, share_windows, with_windows, verify_job, create_phase, other_phase,
  stop_error, index_measurements, stop_job_measurements, close_job, run_job, create_once,
  without_steps, new_scrape_job, with_end,
}

abbrev pub names_of : RunState → List String
names_of s = map (λ job. job.name) s.executed_jobs

-- A program adds names to those of the executed jobs, where it returns.
abbrev pub AddsAt : {A : Type 0} → List String → RunState → Option (A × RunState) → Type 0
AddsAt names before none = Unit
AddsAt names before (some (a, after)) = names_of after ≡ names_of before ++ names

abbrev pub Adds : {A : Type 0} → List String → R A → Type 0
Adds names m = (s : RunState) → AddsAt names s (m s)

module _ {A : Type 0} where
  none_added :
      (before : RunState) (a : A) (after : RunState)
      → names_of after ≡ names_of before
      → AddsAt [] before (some (a, after))
  none_added before a after e = e ∙ sym (append-nil (names_of before))

  pub done-Adds : (a : A) → Adds [] (done a)
  unfolding done
  done-Adds a s = none_added s a s refl

  pub of_job-Adds : (m : M A) → Adds [] (of_job m)
  unfolding of_job
  of_job-Adds m s = through (m s.world)
    where
      through :
          (o : Option (A × World))
          → AddsAt [] s (elim o [ none ↦ none | some (a, w) ↦ some (a, record s { world = w }) ])
      through none = tt
      through (some (a, w)) = none_added s a (record s { world = w }) refl

  pub asks-Adds : (f : ℕ → A) → Adds [] (asks f)
  unfolding asks
  asks-Adds f s =
      none_added s (f s.world.clock)
        (record s { world = record s.world { clock = suc s.world.clock } }) refl

  pub bind-Adds :
      {B : Type 0} (first second : List String) (m : R A) (f : A → R B)
      → Adds first m
      → ((a : A) → Adds second (f a))
      → Adds (first ++ second) (m >>= f)
  bind-Adds {B} first second m f h j s = through (m s) (h s)
    where
      longer :
          (middle : RunState) (o : Option (B × RunState))
          → names_of middle ≡ names_of s ++ first
          → AddsAt second middle o
          → AddsAt (first ++ second) s o
      longer middle none e k = tt
      longer middle (some (b, after)) e k =
          k ∙ ap (λ l. l ++ second) e ∙ append_assoc (names_of s) first second

      through :
          (o : Option (A × RunState))
          → AddsAt first s o
          → AddsAt (first ++ second) s (elim o [ none ↦ none | some (a, after) ↦ f a after ])
      through none e = tt
      through (some (a, after)) e = longer after (f a after) e (j a after)

pub two-Adds : {B : Type 0} (m : R (Unit {0})) (n : R B) → Adds [] m → Adds [] n → Adds [] (m >> n)
two-Adds m n h k = bind-Adds [] [] m (λ t. n) h (λ t. k)

pub get-Adds : Adds [] get_state
unfolding get_state
get-Adds s = none_added s s s refl

pub add_errs-Adds : (errs : List String) → Adds [] (add_errs errs)
unfolding add_errs
add_errs-Adds errs s = none_added s tt (record s { errs = s.errs ++ errs }) refl

pub set_rc-Adds : (rc : ℤ) → Adds [] (set_rc rc)
unfolding set_rc
set_rc-Adds rc s = none_added s tt (record s { inner_rc = rc }) refl

pub when-Adds : (b : Bool) (m : R (Unit {0})) → Adds [] m → Adds [] (when b m)
unfolding when
when-Adds true m h = h
when-Adds false m h = done-Adds tt

map-append :
    (front back : List PrometheusJob)
    → map (λ job. job.name) (front ++ back)
      ≡ map (λ job. job.name) front ++ map (λ job. job.name) back
map-append [] back = refl
map-append (job ∷ front) back = ap (λ l. job.name ∷ l) (map-append front back)

append_job-Adds : (job : PrometheusJob) → Adds (job.name ∷ []) (append_job job)
unfolding append_job
append_job-Adds job s = map-append s.executed_jobs (job ∷ [])

set-names :
    (jobs : List PrometheusJob) (i : ℕ) (old new : PrometheusJob)
    → get_elem? jobs i ≡ some old
    → new.name ≡ old.name
    → map (λ job. job.name) (set jobs i new) ≡ map (λ job. job.name) jobs
set-names [] i old new found e = refl
set-names (job ∷ jobs) zero old new found e =
    ap (λ n. n ∷ map (λ j. j.name) jobs) (e ∙ sym (ap (λ j. j.name) (some-injective job old found)))
set-names (job ∷ jobs) (suc i) old new found e =
    ap (λ l. job.name ∷ l) (set-names jobs i old new found e)

with_windows-names :
    (index : ℕ) (windows : List GroupWindow) (jobs : List PrometheusJob)
    → map (λ job. job.name) (with_windows index windows jobs) ≡ map (λ job. job.name) jobs
unfolding with_windows
with_windows-names index windows [] = refl
with_windows-names zero windows (job ∷ jobs) =
    ap (λ l. job.name ∷ l) (with_windows-names zero windows jobs)
with_windows-names (suc index) windows (job ∷ jobs) =
    ap (λ l. job.name ∷ l) (with_windows-names index windows jobs)

pub change_job-Adds :
    (i : ℕ) (f : PrometheusJob → PrometheusJob)
    → ((job : PrometheusJob) → (f job).name ≡ job.name)
    → Adds [] (change_job i f)
unfolding change_job
change_job-Adds i f h s = by_job (get_elem? s.executed_jobs i) refl
  where
    by_job :
        (found : Option PrometheusJob)
        → get_elem? s.executed_jobs i ≡ found
        → AddsAt [] s (elim found [
          | none ↦ none
          | some job ↦ some (tt, record s { executed_jobs = set s.executed_jobs i (f job) })
        ])
    by_job none e = tt
    by_job (some job) e =
        set-names s.executed_jobs i job (f job) e (h job) ∙ sym (append-nil (names_of s))

module _ (se : Session) where
  notify_stage-Adds : (stage : JobStage) → Adds [] (notify_stage se stage)
  unfolding notify_stage
  notify_stage-Adds stage =
      bind-Adds [] [] get_state _ get-Adds (λ s. when-Adds _ _ (of_job-Adds _))

  pub execute_hooks-Adds : (stage : JobStage) → Adds [] (execute_hooks_for_job_stage se stage)
  unfolding execute_hooks_for_job_stage
  execute_hooks-Adds stage =
      bind-Adds [] [] _ _ (of_job-Adds _) (λ t. bind-Adds [] [] _ _ (asks-Adds _) by_error)
    where
      by_error :
          (failed : Option String)
          → Adds [] (elim failed [
            | some e ↦ do add_errs (e ∷ []); set_rc (pos 1)
            | none ↦ notify_stage se stage
          ])
      by_error none = notify_stage-Adds stage
      by_error (some e) = bind-Adds [] [] _ _ (add_errs-Adds _) (λ t. set_rc-Adds _)

  collect-Adds : (ex : JobExecutor) → Adds [] (collect_background_errs se ex)
  unfolding collect_background_errs
  collect-Adds ex = by_hooks ex.job.hooks
    where
      by_ended :
          (ended : List String)
          → Adds []
              (elim ended [ [] ↦ done tt | e ∷ errs ↦ do add_errs (e ∷ errs); set_rc (pos 1) ])
      by_ended [] = done-Adds tt
      by_ended (e ∷ errs) = two-Adds _ _ (add_errs-Adds _) (set_rc-Adds _)

      by_hooks :
          (given : List Hook)
          → Adds [] (elim given [
            | [] ↦ done tt
            | hook ∷ more ↦ do
              ended ← asks se.background_errs
              elim ended [ [] ↦ done tt | e ∷ errs ↦ do add_errs (e ∷ errs); set_rc (pos 1) ]
          ])
      by_hooks [] = done-Adds tt
      by_hooks (hook ∷ more) = bind-Adds [] [] _ _ (asks-Adds _) by_ended

  start_measurements-Adds :
      (ex : JobExecutor) (is_incremental : Bool) → Adds [] (start_measurements se ex is_incremental)
  unfolding start_measurements
  start_measurements-Adds ex is_incremental s = by_measuring s.measuring is_incremental
    where
      by_measuring :
          (o : Option String) (incremental : Bool)
          → AddsAt [] s (elim o [
            | some name ↦
                (of_job (set_executor (record s.world.executor { has_notifier = true }))) s
            | none ↦
                if incremental
                then (of_job (set_executor (record s.world.executor { has_notifier = false }))) s
                else (do
                  of_job (emit (measurements_started ex.job.name))
                  of_job (set_executor (record s.world.executor { has_notifier = true })))
                    (record s { measuring = some ex.job.name })
          ])
      by_measuring (some name) incremental = of_job-Adds _ s
      by_measuring none true = of_job-Adds _ s
      by_measuring none false =
          two-Adds (of_job (emit (measurements_started ex.job.name)))
            (of_job (set_executor (record s.world.executor { has_notifier = true })))
            (of_job-Adds _) (of_job-Adds _) (record s { measuring = some ex.job.name })

  at_now-Adds : (f : ℤ → R (Unit {0})) → ((now : ℤ) → Adds [] (f now)) → Adds [] (at_now se f)
  unfolding at_now
  at_now-Adds f h = bind-Adds [] [] _ _ (asks-Adds _) h

  share_windows-Adds : (index : ℕ) → Adds [] (share_windows se index)
  unfolding share_windows
  share_windows-Adds index s =
      with_windows-names index _ s.executed_jobs ∙ sym (append-nil (names_of s))

  churn-Adds : (fuel index : ℕ) → Adds [] (churn_job se fuel index)
  unfolding churn_job
  churn-Adds fuel index =
      two-Adds _ _ (at_now-Adds _ (λ now. change_job-Adds index _ (λ job. refl))) (
        bind-Adds [] [] _ _ (of_job-Adds _)
          (λ ended. at_now-Adds _ (λ now. change_job-Adds index _ (λ job. refl))))

  verify_job-Adds : (ex : JobExecutor) → Adds [] (verify_job se ex)
  unfolding verify_job
  verify_job-Adds ex = bind-Adds [] [] _ _ get-Adds (λ s.
      bind-Adds [] [] _ _ (asks-Adds _)
        (λ found. when-Adds _ _ (two-Adds _ _ (set_rc-Adds _) (add_errs-Adds _))))

  stop_error-Adds : (failed : Option String) → Adds [] (stop_error se failed)
  unfolding stop_error
  stop_error-Adds none = done-Adds tt
  stop_error-Adds (some e) = two-Adds _ _ (add_errs-Adds _) (set_rc-Adds _)

  index_measurements-Adds :
      (ex : JobExecutor) (name : String) → Adds [] (index_measurements se ex name)
  unfolding index_measurements
  index_measurements-Adds ex name s = sym (append-nil (names_of s))

  stop_measurements-Adds :
      (ex : JobExecutor) (index : ℕ) → Adds [] (stop_job_measurements se ex index)
  unfolding stop_job_measurements
  stop_measurements-Adds ex index = bind-Adds [] [] _ _ get-Adds (λ s. by_name s s.measuring)
    where
      by_name :
          (s : RunState) (o : Option String)
          → Adds [] (elim o [
            | none ↦ done tt
            | some name ↦ do
              of_job (set_executor (record s.world.executor { has_notifier = false }))
              of_job (emit measurements_stopped)
              failed ← asks se.measurement_stop_err
              stop_error se failed
              when
                  (str_eq ex.job.metrics_closing after_measurements)
                  (at_now se (λ now. change_job index (with_end now)))
              index_measurements se ex name
          ])
      by_name s none = done-Adds tt
      by_name s (some name) = two-Adds _ _ (of_job-Adds _) (
          two-Adds _ _ (of_job-Adds _) (
            bind-Adds [] [] _ _ (asks-Adds _) (λ failed. two-Adds _ _ (stop_error-Adds failed) (
              two-Adds _ _
                (when-Adds _ _ (at_now-Adds _ (λ now. change_job-Adds index _ (λ job. refl))))
                (index_measurements-Adds ex name)))))

  close_job-Adds : (ex : JobExecutor) (index : ℕ) → Adds [] (close_job se ex index)
  unfolding close_job
  close_job-Adds ex index = two-Adds _ _ (execute_hooks-Adds before_cleanup) (
      two-Adds _ _ (at_now-Adds _ (λ end. when-Adds _ _ (change_job-Adds index _ (λ job. refl)))) (
        two-Adds _ _ (when-Adds _ _ (of_job-Adds _)) (
          two-Adds _ _
            (when-Adds _ _ (at_now-Adds _ (λ now. change_job-Adds index _ (λ job. refl))))
            (two-Adds _ _ (when-Adds _ _ (stop_measurements-Adds ex index)) (
              bind-Adds [] [] _ _ (asks-Adds _) (λ failed. two-Adds _ _ (add_errs-Adds _) (
                two-Adds _ _
                  (when-Adds _ _ (two-Adds _ _ (of_job-Adds _) (execute_hooks-Adds after_cleanup)))
                  (collect-Adds ex))))))))

  start_job-Adds :
      (ex : JobExecutor) (is_incremental : Bool)
      → Adds (ex.job.name ∷ []) (start_job se ex is_incremental)
  unfolding start_job at_now new_scrape_job
  start_job-Adds ex is_incremental = bind-Adds [] (ex.job.name ∷ []) _ _ (of_job-Adds _) (λ t.
      bind-Adds (ex.job.name ∷ []) [] _ _
        (bind-Adds [] (ex.job.name ∷ []) _ _ (asks-Adds _) (λ now. append_job-Adds _))
        (λ t.
          bind-Adds [] [] _ _ (asks-Adds _)
            (λ failed. two-Adds _ _ (add_errs-Adds _) (start_measurements-Adds ex is_incremental))))

  other_phase-Adds : (index : ℕ) → Adds [] (other_phase se index)
  unfolding other_phase
  other_phase-Adds index = two-Adds _ _ (execute_hooks-Adds before_job_execution) (
      bind-Adds [] [] _ _ (of_job-Adds _) (λ failed.
        two-Adds _ _ (when-Adds _ _ (two-Adds _ _ (add_errs-Adds _) (set_rc-Adds _))) (
          two-Adds _ _ (execute_hooks-Adds after_job_execution)
            (bind-Adds [] [] _ _ (asks-Adds _) (λ cancelled. done-Adds _)))))

  record_creation-Adds :
      (ex : JobExecutor) (index : ℕ) (errs : List String)
      → Adds [] (record_creation se ex index (errs, []))
  unfolding record_creation
  record_creation-Adds ex index [] = done-Adds index
  record_creation-Adds ex index (e ∷ errs) =
      two-Adds _ _ (add_errs-Adds _) (two-Adds _ _ (set_rc-Adds _) (done-Adds index))

  created-Adds :
      {B : Type 0} (ex : JobExecutor) (f : List String × List PrometheusJob → R B)
      → ((errs : List String) → Adds [] (f (errs, [])))
      → Adds [] (of_job ((create_once se.cluster ex).create_or_incremental) >>= f)
  unfolding of_job create_once
  created-Adds {B} ex f h s =
      through (run_create_job se.cluster 0 (pos_part ex.job.job_iterations) s.world)
    where
      through :
          (o : Option (List String × World)) → AddsAt [] s ((of_job (λ w. without_steps o) >>= f) s)
      through none = tt
      through (some (errs, w)) = h errs (record s { world = w })

  create_phase-Adds :
      (fuel : ℕ) (ex : JobExecutor) (index : ℕ)
      → Adds [] (create_phase se fuel ex (create_once se.cluster ex) false index)
  unfolding create_phase
  create_phase-Adds fuel ex index = two-Adds _ _ (execute_hooks-Adds before_job_execution) (
      bind-Adds [] [] _ _ get-Adds (λ before. created-Adds ex _ (λ errs.
        bind-Adds [] [] _ _ get-Adds (λ after. two-Adds _ _ (of_job-Adds _) (
          bind-Adds [] [] _ _ (record_creation-Adds ex index errs) (λ place.
            two-Adds _ _ (share_windows-Adds index) (
              two-Adds _ _ (execute_hooks-Adds after_job_execution)
                (bind-Adds [] [] _ _ (asks-Adds _) (by_context place)))))))))
    where
      by_context :
          (place : ℕ) (cancelled : Option String)
          → Adds [] (elim cancelled [
            | some e ↦ done none
            | none ↦ do
              when (is_churn_enabled ex.job) (churn_job se fuel place)
              share_windows se index
              when (not false) (verify_job se ex)
              done (some place)
          ])
      by_context place (some e) = done-Adds _
      by_context place none = two-Adds _ _ (when-Adds _ _ (churn-Adds fuel place)) (
          two-Adds _ _ (share_windows-Adds index)
            (two-Adds _ _ (when-Adds _ _ (verify_job-Adds ex)) (done-Adds _)))

  -- The body of the loop adds the job's name to those of the executed jobs.
  pub run_job-Adds :
      (fuel : ℕ) (ex : JobExecutor)
      → Adds (ex.job.name ∷ []) (run_job se fuel ex (create_once se.cluster ex) false)
  unfolding run_job
  run_job-Adds fuel ex = bind-Adds [] (ex.job.name ∷ []) _ _ get-Adds (λ s.
      bind-Adds (ex.job.name ∷ []) [] _ _ (start_job-Adds ex false)
        (λ t. bind-Adds [] [] _ _ (by_type (str_eq ex.job.job_type creation_job) s) by_place))
    where
      by_type :
          (creates : Bool) (s : RunState)
          → Adds [] (
              if creates
              then create_phase se fuel ex
                  (create_once se.cluster ex)
                  false
                  (length s.executed_jobs)
              else other_phase se (length s.executed_jobs))
      by_type true s = create_phase-Adds fuel ex (length s.executed_jobs)
      by_type false s = other_phase-Adds (length s.executed_jobs)

      by_place :
          (place : Option ℕ)
          → Adds [] (elim place [ none ↦ done false | some i ↦ do close_job se ex i; done true ])
      by_place none = done-Adds false
      by_place (some i) = two-Adds _ _ (close_job-Adds ex i) (done-Adds true)
