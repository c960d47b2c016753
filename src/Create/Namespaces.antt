-- ===== src/Create/Namespaces.antt =====
-- pkg/burner/create.go: the namespaces of a creation job.
pub mod Once
use kube_burner.Prelude.{
  ℕ, suc, ◌+◌, ◌-◌, ◌/◌, String, Bool, true, false, not, ◌&&◌, List, [], ◌∷◌, Option, none, some,
  zero, if◌then◌else◌, range_from, str_eq,
}
use kube_burner.Prelude.Int.{ℤ, pos, negsuc, ◌-ℤ◌, eqb_ℤ}
use kube_burner.Prelude.Maps.{flag, insert}
use kube_burner.Prelude.Text.{itoa, append}
use kube_burner.Config.Types.{Labels}
use kube_burner.Executor.{
  JobExecutor, World, Cluster, Event, namespace_created, namespace_not_created, NamespaceAnswer,
  namespace_made, namespace_exists, namespace_terminates, namespace_forbidden, namespace_fails, M,
  pure, ◌>>=◌, ◌>>◌, fatal, get_executor, set_executor, emit, ask, for_each,
}

-- Go's a / b on ints, truncated towards 0, for b other than 0.
unfoldable pub quot_ℤ : ℤ → ℤ → ℤ
quot_ℤ (pos a) (pos b) = pos (a / b)
quot_ℤ (pos a) (negsuc b) = pos 0 -ℤ pos (a / suc b)
quot_ℤ (negsuc a) (pos b) = pos 0 -ℤ pos (suc a / b)
quot_ℤ (negsuc a) (negsuc b) = pos (suc a / suc b)

-- iteration / k, which is truncated towards 0 and panics at 0.
quot : ℕ → ℤ → Option ℤ
quot n k = if eqb_ℤ k (pos 0) then none else some (quot_ℤ (pos n) k)

numbered : String → ℤ → String
numbered name n = append name (append "-" (itoa n))

pub generate_namespace : JobExecutor → ℕ → Option String
generate_namespace ex iteration = elim (quot iteration ex.job.iterations_per_namespace) [
  | none ↦ none
  | some n ↦ some (numbered ex.job.namespace n)
]

-- The same in the executor's effect.
pub namespace_of : ℕ → M String
namespace_of iteration = do
  ex ← get_executor
  elim (generate_namespace ex iteration) [ none ↦ fatal | some ns ↦ pure ns ]

-- RetryWithExponentialBackOff with 5 seconds, the factor 3 and 5 hours: ⌈log₃ (18000 / 5)⌉.
abbrev pub namespace_steps : ℕ
namespace_steps = 8

module _ (k : Cluster) where
  -- util.CreateNamespace: whether it is there within the calls of the backoff.
  unfoldable pub try_namespace : ℕ → String → Labels → Labels → M Bool
  try_namespace zero ns labels annotations = pure false
  try_namespace (suc steps) ns labels annotations =
      let retry = try_namespace steps ns labels annotations in
      do
        answer ← ask (λ n. k.create_namespace n ns)
        elim answer [
          | namespace_made ↦ emit (namespace_created ns labels annotations) >> pure true
          | namespace_exists ↦ emit (namespace_not_created ns) >> pure true
          | namespace_terminates ↦ emit (namespace_not_created ns) >> retry
          | namespace_forbidden ↦ fatal
          | namespace_fails ↦ emit (namespace_not_created ns) >> retry
        ]

  -- An error of util.CreateNamespace is logged, and the namespace is marked as created all the same.
  unfoldable pub create_namespace : String → Labels → Labels → M String
  create_namespace ns labels annotations = do
    ex ← get_executor
    if flag ns ex.created_namespaces then pure ns else do
      _ ← try_namespace namespace_steps ns labels annotations
      set_executor (record ex { created_namespaces = insert ns true ex.created_namespaces })
      pure ns

  -- for i := start; i < end; i++ { ex.createNamespace(ex.generateNamespace(i), …) }
  pub create_iterations : List ℕ → Labels → Labels → M (Unit {0})
  create_iterations [] labels annotations = pure tt
  create_iterations (i ∷ is) labels annotations = do
    ns ← namespace_of i
    _ ← create_namespace ns labels annotations
    create_iterations is labels annotations

  pub pre_create_namespaces : ℕ → ℕ → Labels → Labels → M (Unit {0})
  pre_create_namespaces start end labels annotations = do
    ex ← get_executor
    if ex.job.namespaced_iterations
        then create_iterations (range_from start (end - start)) labels annotations
        else do _ ← create_namespace ex.job.namespace labels annotations; pure tt

-- The namespace that an iteration of the job works in.
pub iteration_namespace : JobExecutor → ℕ → M String
iteration_namespace ex i =
    if ex.job.namespaced_iterations then namespace_of i else pure ex.job.namespace

-- The namespace of an iteration of a group, and the group's namespaces with it marked.
pub resolve_group_iteration_namespace : ℕ → List (String × Bool) → M (String × List (String × Bool))
resolve_group_iteration_namespace i group_created = do
  ex ← get_executor
  if not ex.ns_required
      then pure ("", group_created)
      else do ns ← iteration_namespace ex i; pure (ns, insert ns true group_created)
