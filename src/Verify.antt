-- ===== src/Verify.antt =====
-- pkg/burner/utils.go: Verify, which compares the number of objects in the cluster with the number
-- that the job is to create.
pub mod Expected
pub mod Counts
use kube_burner.Prelude.{
  ℕ, zero, suc, ◌+◌, ◌-◌, String, Bool, true, false, not, ◌&&◌, ◌||◌, List, [], ◌∷◌, ◌++◌, Option,
  none, some, if◌then◌else◌,
}
use kube_burner.Prelude.Int.{ℤ, pos, negsuc, ◌-ℤ◌, ltb_ℤ, eqb_ℤ, add64, sub64, mul64}
use kube_burner.Prelude.Text.{itoa_nat}
use kube_burner.Config.Types.{Object, Labels}
use kube_burner.Executor.{JobExecutor, ManagedObject}
use kube_burner.Create.Namespaces.{quot_ℤ}

-- The selector of an object's replicas.
pub verify_selector : JobExecutor → ℕ → Labels
verify_selector ex index =
    ("kube-burner.io/uuid", ex.uuid)
    ∷ ("kube-burner.io/runid", ex.runid)
    ∷ ("kube-burner.io/job", ex.job.name)
    ∷ ("kube-burner.io/index", itoa_nat index)
    ∷ []

-- The iterations in which an object is created, of `iterations`; repeatEveryNIterations is above 1
-- where it divides.
effective_iterations : Object → ℤ → ℤ
effective_iterations obj iterations =
    if ltb_ℤ (pos 1) obj.repeat_every_n_iterations
    then quot_ℤ (sub64 (add64 iterations obj.repeat_every_n_iterations) (pos 1))
        obj.repeat_every_n_iterations
    else iterations

pub objects_expected : Object → ℤ → ℤ
objects_expected obj iterations =
    if obj.run_once then obj.replicas else mul64 obj.replicas (effective_iterations obj iterations)

-- `listed` is the number of objects that the paginated List finds for a selector within its
-- retries; `none` when these fail.
module _ (listed : Labels → Option ℕ) where
  verify_object : JobExecutor → ℤ → ℕ → ManagedObject → Bool
  verify_object ex iterations index obj =
      if obj.group.gc then true else elim (listed (verify_selector ex index)) [
        | none ↦ false
        | some replicas ↦ eqb_ℤ (pos replicas) (objects_expected obj.object iterations)
      ]

  -- Every object is looked at; one that differs makes the result false.
  verify_from : JobExecutor → ℤ → ℕ → List ManagedObject → Bool
  verify_from ex iterations index [] = true
  verify_from ex iterations index (obj ∷ objs) =
      verify_object ex iterations index obj && verify_from ex iterations (suc index) objs

  -- The iterations are the job's, unless some are given.
  pub verify : JobExecutor → Option ℤ → Bool
  verify ex none = verify_from ex ex.job.job_iterations 0 ex.objects
  verify ex (some expected) = verify_from ex expected 0 ex.objects
