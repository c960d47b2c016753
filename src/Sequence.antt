-- ===== src/Sequence.antt =====
-- pkg/burner/job.go: Run, which runs the jobs one after the other. A RunState holds the variables of
-- its goroutine and the world of the job that runs; a Session gives the answers of the clock, of the
-- hooks, of watchers, measurements and alerts, by the count of questions. Times are nanoseconds from
-- the zero time of Go. No result is a panic or a log.Fatal.
pub mod Job
pub mod Jobs
pub mod Finish
use kube_burner.Prelude.{
  ℕ, suc, String, Bool, true, false, List, [], ◌∷◌, ◌++◌, Option, none, some, set, get_elem?,
  if◌then◌else◌,
}
use kube_burner.Prelude.Int.{ℤ, pos}
use kube_burner.Config.Types.{JobStage}
use kube_burner.Prometheus.{PrometheusJob}
use kube_burner.Executor.{World, JobExecutor, Cluster, M}

abbrev pub rc_timeout : ℤ
rc_timeout = pos 2

abbrev pub rc_alert : ℤ
rc_alert = pos 3

abbrev pub rc_measurement : ℤ
rc_measurement = pos 4

abbrev pub zero_time : ℤ
zero_time = pos 0

-- The variables of the goroutine of Run. `measuring` is the job's name of measurementsInstance,
-- where that is not nil; `indexed` are the names under which measurements were indexed.
pub record RunState : Type 0 where
  pub world : World
  pub executed_jobs : List PrometheusJob
  pub errs : List String
  pub inner_rc : ℤ
  pub measuring : Option String
  pub indexed : List String

pub record Session : Type 0 where
  pub cluster : Cluster
  -- the error of executeHooks, and those that the background hooks end with
  pub hook_err : ℕ → JobStage → Option String
  pub background_errs : ℕ → List String
  -- the errors of starting and of stopping the watchers of a job
  pub watcher_errs : ℕ → List String
  pub watcher_stop_errs : ℕ → List String
  pub measurement_stop_err : ℕ → Option String
  -- the error of preLoadImages for a job
  pub preload_err : ℕ → JobExecutor → Option String
  -- the errors that the alert managers give for an executed job
  pub alert_errs : ℕ → PrometheusJob → List String
  -- whether the list of indexers is not empty
  pub has_indexers : Bool

-- runCreateOrIncremental: the errors, and the jobs of the steps. The implementation of a job without
-- incremental load is `Sequence.Job.create_once`.
pub record Creation : Type 0 where
  pub create_or_incremental : M (List String × List PrometheusJob)

abbrev pub R : Type 0 → Type 0
R A = RunState → Option (A × RunState)

unfoldable pub done : {A : Type 0} → A → R A
done a s = some (a, s)

infixl 5 ◌>>◌ ◌>>=◌
abbrev pub ◌>>=◌ : {A B : Type 0} → R A → (A → R B) → R B
◌>>=◌ step next before = elim (step before) [ none ↦ none | some (value, after) ↦ next value after ]

abbrev pub ◌>>◌ : {B : Type 0} → R (Unit {0}) → R B → R B
◌>>◌ step next = step >>= (λ ended. next)

-- A program of a job's executor.
unfoldable pub of_job : {A : Type 0} → M A → R A
of_job m s = elim (m s.world) [ none ↦ none | some (a, w) ↦ some (a, record s { world = w }) ]

unfoldable pub get_state : R RunState
get_state s = some (s, s)

unfoldable pub asks : {A : Type 0} → (ℕ → A) → R A
asks f s = some (f s.world.clock, record s { world = record s.world { clock = suc s.world.clock } })

unfoldable pub add_errs : List String → R (Unit {0})
add_errs more s = some (tt, record s { errs = s.errs ++ more })

unfoldable pub set_rc : ℤ → R (Unit {0})
set_rc rc s = some (tt, record s { inner_rc = rc })

unfoldable pub append_job : PrometheusJob → R (Unit {0})
append_job job s = some (tt, record s { executed_jobs = s.executed_jobs ++ (job ∷ []) })

-- executedJobs[i] is changed; an index out of range panics.
unfoldable pub change_job : ℕ → (PrometheusJob → PrometheusJob) → R (Unit {0})
change_job i f s = elim (get_elem? s.executed_jobs i) [
  | none ↦ none
  | some job ↦ some (tt, record s { executed_jobs = set s.executed_jobs i (f job) })
]

unfoldable pub at_now : Session → (ℤ → R (Unit {0})) → R (Unit {0})
at_now se f = asks se.cluster.now >>= f

unfoldable pub when : Bool → R (Unit {0}) → R (Unit {0})
when b step = if b then step else done tt
