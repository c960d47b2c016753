-- ===== src/Waiters/Polls.antt =====
-- pkg/burner/waiters.go: the pollings, with waitStatusMap of pkg/burner/consts.go. A polling begins at
-- once and makes rounds until one ends it or the timeout's rounds are used up.
pub mod Reached
use kube_burner.Prelude.{
  ℕ, zero, suc, String, str_eq, Bool, true, false, ◌||◌, List, [], ◌∷◌, Option, none, some,
  if◌then◌else◌,
}
use kube_burner.Config.Types.{Labels, StatusPath}
use kube_burner.Executor.{
  Cluster, ManagedObject, GroupVersionResource, M, pure, ◌>>=◌, ◌>>◌, get_executor, ask,
}
use kube_burner.Waiters.Checks.{
  Watched, Round, again, ready, stops, replicas_round, claims_round, pages_round, builds_round,
  condition_round,
}

abbrev pub deadline_exceeded : String
deadline_exceeded = "context deadline exceeded"

-- wait.PollUntilContextTimeout; a round has the phase of the build before it and gives the next one.
pub poll_until : ℕ → (String → M (Round × String)) → String → M (Option String)
poll_until zero round last = pure (some deadline_exceeded)
poll_until (suc rounds) round last = do
  polled ← round last
  elim (polled.0) [
    | ready ↦ pure none
    | stops e ↦ pure (some e)
    | again ↦ poll_until rounds round polled.1
  ]

-- waitStatusMap
pub wait_status_map : String → Option (List String × List String)
wait_status_map kind =
    if str_eq kind "DaemonSet"
    then some ("status" ∷ "desiredNumberScheduled" ∷ [], "status" ∷ "numberReady" ∷ [])
    else if str_eq kind "StatefulSet"
        || str_eq kind "Deployment"
        || str_eq kind "ReplicaSet"
        || str_eq kind "ReplicationController"
        || str_eq kind "VirtualMachineInstanceReplicaSet"
    then some ("spec" ∷ "replicas" ∷ [], "status" ∷ "readyReplicas" ∷ [])
    else none

abbrev pub snapshot_path : StatusPath
snapshot_path = record { key = ".readyToUse | tostring | ascii_downcase"; value = "true" }

-- A list that fails is tried again.
abbrev pub on_list :
    (List Watched → Round × String) → String → Option (List Watched) → Round × String
on_list decide last none = (again, last)
on_list decide last (some items) = decide items

pub waited_gvr : ManagedObject → GroupVersionResource
waited_gvr obj = elim (obj.wait_gvr) [ none ↦ obj.gvr | some other ↦ other ]

module _ (k : Cluster) where
  poll : (String → M (Round × String)) → M (Option String)
  poll round = do ex ← get_executor; poll_until (k.poll_rounds ex.job.max_wait_timeout) round ""

  list_round :
      GroupVersionResource
      → String
      → Labels
      → (String → List Watched → Round × String)
      → String
      → M (Round × String)
  list_round gvr ns selector decide last = do
    listed ← ask (λ n. k.watched n gvr ns selector)
    pure (on_list (decide last) last listed)

  pub wait_for_replicas :
      String → ManagedObject → List String × List String → Labels → M (Option String)
  wait_for_replicas ns obj paths selector =
      poll (
        list_round obj.gvr ns selector (λ last items. (replicas_round paths.0 paths.1 items, last)))

  abbrev claims_gvr : GroupVersionResource
  claims_gvr = record { group = ""; version = "v1"; resource = "persistentvolumeclaims" }

  pub wait_for_pvc : String → Labels → M (Option String)
  wait_for_pvc ns selector =
      poll (list_round claims_gvr ns selector (λ last items. (claims_round items, last)))

  pub pod_round : String → Labels → String → M (Round × String)
  pod_round ns selector last = do
    pages ← ask (λ n. k.pod_pages n ns selector)
    pure (pages_round pages, last)

  pub wait_for_pod : String → Labels → M (Option String)
  wait_for_pod ns selector = poll (pod_round ns selector)

  pub wait_for_build : String → ManagedObject → Labels → M (Option String)
  wait_for_build ns obj selector =
      poll (list_round obj.gvr ns selector (λ last items. builds_round obj.replicas last items))

  -- The resource of the kind that is waited for instead, in a namespace where the object has one.
  pub verify_condition : String → ManagedObject → Labels → M (Option String)
  verify_condition ns obj selector = poll (
      list_round (waited_gvr obj) (if obj.namespaced then ns else "") selector
        (λ last items. (condition_round obj.wait_options.custom_status_paths items, last)))

  -- The kinds that are not waited for by a condition.
  pub wait_for_kind : String → ManagedObject → String → Labels → M (Option String)
  wait_for_kind ns obj kind selector = elim (wait_status_map kind) [
    | some paths ↦ wait_for_replicas ns obj paths selector
    | none ↦
        if str_eq kind "Pod"
        then wait_for_pod ns selector
        else if str_eq kind "Build" || str_eq kind "BuildConfig"
        then wait_for_build ns obj selector
        else if str_eq kind "PersistentVolumeClaim"
        then wait_for_pvc ns selector
        else pure none
  ]
