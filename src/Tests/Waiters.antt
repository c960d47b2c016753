-- ===== src/Tests/Waiters.antt =====
-- Tests of the waiting for objects.
use kube_burner.Prelude.{
  zero, suc, String, str_eq, List, [], ◌∷◌, none, some, ◌≡◌, ◌↔◌, refl, All, if◌then◌else◌,
}
use kube_burner.Prelude.Int.{pos}
use kube_burner.Config.Types.{StatusPath}
use kube_burner.Executor.{ManagedObject, Cluster}
use kube_burner.Waiters.Checks.{
  Watched, Nested, field, with_fields, no_fields, yields, fails, ready, again, condition_round,
  builds_round, check_paths, check_path, holds_value, is_building,
}
use kube_burner.Waiters.Checks.Verified.{IsValid, condition_round_iff}
use kube_burner.Waiters.Checks.Builds.{builds_round-stale}
use kube_burner.Waiters.Checks.Pods.{IsDone}
use kube_burner.Waiters.Polls.{deadline_exceeded, verify_condition, wait_for_pod, wait_for_replicas}
use kube_burner.Waiters.Polls.Reached.{
  Polled, Lists, after_all, verify_condition-Polled, wait_for_pod-Polled, wait_for_replicas-misses,
}
use kube_burner.Tests.Fixtures.{managed_pod, serving, start_world}

abbrev ready_path : StatusPath
ready_path = record { key = ".phase"; value = "Bound" }

abbrev replicas_fields : List String → Nested
replicas_fields path = elim path [
  | [] ↦ field none
  | name ∷ rest ↦ if str_eq name "spec" then field (some "0") else field none
]

abbrev bound_claim : Watched
bound_claim = record {
  phase = some "Bound";
  conditions = [];
  nested = replicas_fields;
  status = with_fields;
  query = λ key. some (yields "Bound" ∷ fails ∷ []);
}

abbrev pending_claim : Watched
pending_claim = record bound_claim { phase = none; status = no_fields }

abbrev running_pod : Watched
running_pod = record bound_claim { phase = some "Running"; conditions = ("Ready", "True") ∷ [] }

abbrev claim : ManagedObject
claim = record managed_pod {
  object = record managed_pod.object {
    wait_options = record managed_pod.wait_options { custom_status_paths = ready_path ∷ [] };
  };
}

-- The claim is bound at the second question, and every pod is running.
abbrev binding : Cluster
binding = record serving {
  watched = λ n gvr ns labels. elim n [
    | zero ↦ some (bound_claim ∷ pending_claim ∷ [])
    | suc m ↦ some (bound_claim ∷ bound_claim ∷ [])
  ];
  pod_pages = λ n ns labels. some (running_pod ∷ []) ∷ some [] ∷ [];
}

abbrev unscaled : Cluster
unscaled = record serving { watched = λ n gvr ns labels. some (bound_claim ∷ []) }

condition_round_iff_example :
    (condition_round (ready_path ∷ []) (bound_claim ∷ pending_claim ∷ []) ≡ ready)
    ↔ All (λ item. All (IsValid item) (ready_path ∷ [])) (bound_claim ∷ pending_claim ∷ [])
condition_round_iff_example =
    condition_round_iff (ready_path ∷ []) (bound_claim ∷ pending_claim ∷ [])

verify_condition-Polled_example :
    Polled
      (Lists binding claim "ns" [])
      start_world
      (verify_condition binding "ns" claim [] start_world)
verify_condition-Polled_example = verify_condition-Polled binding claim "ns" [] start_world

wait_for_pod-Polled_example :
    Polled
      (λ n. All IsDone (binding.pod_pages n "ns" []))
      start_world
      (wait_for_pod binding "ns" [] start_world)
wait_for_pod-Polled_example = wait_for_pod-Polled binding "ns" [] start_world

wait_for_replicas-misses_example :
    wait_for_replicas unscaled "ns" managed_pod
      ("spec" ∷ "replicas" ∷ [], "status" ∷ "readyReplicas" ∷ [])
      []
      start_world
    ≡ some (
      some deadline_exceeded,
      after_all (unscaled.poll_rounds start_world.executor.job.max_wait_timeout) start_world,
    )
wait_for_replicas-misses_example =
    wait_for_replicas-misses unscaled "ns" managed_pod
      ("spec" ∷ "replicas" ∷ [], "status" ∷ "readyReplicas" ∷ []) [] "0" bound_claim [] start_world
      (λ n. refl) refl refl

-- A claim that is not bound makes the round begin again.
pending_is_waited : condition_round (ready_path ∷ []) (bound_claim ∷ pending_claim ∷ []) ≡ again
unfolding condition_round check_paths check_path holds_value
pending_is_waited = refl

builds_round-stale_example :
    builds_round
      (pos 2)
      ""
      (record bound_claim { phase = some "Complete" } ∷ record bound_claim { phase = none } ∷ [])
    ≡ (ready, "Complete")
unfolding is_building
builds_round-stale_example =
    builds_round-stale (pos 2) "" "Complete" (record bound_claim { phase = some "Complete" })
      (record bound_claim { phase = none } ∷ []) refl refl (refl, tt) refl
