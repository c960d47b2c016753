-- ===== src/Waiters/Polls/Reached.antt =====
-- What a polling has seen when it ends.
use kube_burner.Prelude.{
  ℕ, zero, suc, String, List, ◌∷◌, Option, none, some, ◌≡◌, ◌≤◌, ◌<◌, ◌+◌, refl, ap, ◌∙◌, All,
  arith, if◌then◌else◌,
}
use kube_burner.Config.Types.{Labels}
use kube_burner.Executor.{World, Cluster, ManagedObject, M}
use kube_burner.Waiters.Checks.{
  Watched, Round, again, ready, stops, condition_round, pages_round, replicas_round, field,
}
use kube_burner.Waiters.Checks.Pods.{IsDone, pages_round_iff}
use kube_burner.Waiters.Checks.Replicas.{replicas_missing}
use kube_burner.Waiters.Checks.Verified.{IsValid, condition_round_iff}
use kube_burner.Waiters.Polls.{
  poll_until, poll, list_round, on_list, deadline_exceeded, waited_gvr, verify_condition,
  wait_for_pod, wait_for_replicas, pod_round,
}

-- A polling from a world returns, and the executor stays. Without an error, one of its questions was
-- answered as it should be.
pub data Polled (Seen : ℕ → Type 0) (start : World) : Option (Option String × World) → Type 0 where
  reached :
      (w : World)
      → w.executor ≡ start.executor
      → (n : ℕ) → start.clock ≤ n
      → n < w.clock
      → Seen n
      → Polled Seen start (some (none, w))
  failed_with :
      (w : World)
      → w.executor ≡ start.executor
      → (e : String) → Polled Seen start (some (some e, w))

after : World → World
after w = record w { clock = suc w.clock }

abbrev asks : (ℕ → String → Round × String) → String → M (Round × String)
asks answer last w = some (answer w.clock last, after w)

module _ (Seen : ℕ → Type 0) where
  later-Polled :
      (w : World) {end : Option (Option String × World)}
      → Polled Seen (after w) end
      → Polled Seen w end
  unfolding after
  later-Polled w (reached end same n from before seen) =
      reached end same n (omega arith) before seen
  later-Polled w (failed_with end same e) = failed_with end same e

  module _ (answer : ℕ → String → Round × String) where
    abbrev ended : ℕ → Round × String → M (Option String)
    ended rounds polled = elim (polled.0) [
      | ready ↦ (λ w. some (none, w))
      | stops e ↦ (λ w. some (some e, w))
      | again ↦ poll_until rounds (asks answer) polled.1
    ]

    ended-Polled :
        (rounds : ℕ) (w : World) (polled : Round × String)
        → (polled.0 ≡ ready → Seen w.clock)
        → ((last : String) → Polled Seen (after w) (poll_until rounds (asks answer) last (after w)))
        → Polled Seen w (ended rounds polled (after w))
    unfolding after
    ended-Polled rounds w (ready, last) sound later =
        reached (after w) refl w.clock (omega arith) (omega arith) (sound refl)
    ended-Polled rounds w (stops e, last) sound later = failed_with (after w) refl e
    ended-Polled rounds w (again, last) sound later = later-Polled w (later last)

    poll_until-Polled :
        ((n : ℕ) (last : String) → (answer n last).0 ≡ ready → Seen n)
        → (rounds : ℕ) (last : String) (w : World)
        → Polled Seen w (poll_until rounds (asks answer) last w)
    unfolding poll_until after
    poll_until-Polled sound zero last w = failed_with w refl deadline_exceeded
    poll_until-Polled sound (suc rounds) last w =
        ended-Polled rounds w (answer w.clock last) (sound w.clock last)
          (λ last'. poll_until-Polled sound rounds last' (after w))

-- The objects that are listed at the question, where they are those that are looked for.
abbrev pub Lists : (Cluster) → ManagedObject → String → Labels → ℕ → Type 0
Lists k obj ns selector n =
    (items : List Watched) × (k.watched n (waited_gvr obj) (if obj.namespaced then ns else "")
        selector
      ≡ some items)
    × All (λ item. All (IsValid item) obj.wait_options.custom_status_paths) items

listed_ready :
    (k : Cluster) (obj : ManagedObject) (ns : String) (selector : Labels) (n : ℕ) (last : String)
    (listed : Option (List Watched))
    → k.watched n (waited_gvr obj) (if obj.namespaced then ns else "") selector ≡ listed
    → (on_list
        (λ items. (condition_round obj.wait_options.custom_status_paths items, last))
        last
        listed).0
      ≡ ready
    → Lists k obj ns selector n
listed_ready k obj ns selector n last none same h = cc
listed_ready k obj ns selector n last (some items) same h =
    (items, same, (condition_round_iff obj.wait_options.custom_status_paths items).0 h)

-- verifyCondition returns, and the executor stays. Where it returns no error, one of its lists, with
-- the objects' resource and the labels, had only objects that hold the value of every status path.
pub verify_condition-Polled :
    (k : Cluster) (obj : ManagedObject) (ns : String) (selector : Labels) (w : World)
    → Polled (Lists k obj ns selector) w (verify_condition k ns obj selector w)
unfolding verify_condition poll list_round after
verify_condition-Polled k obj ns selector w =
    poll_until-Polled (Lists k obj ns selector)
      (λ n last.
        on_list (λ items. (condition_round obj.wait_options.custom_status_paths items, last)) last
          (k.watched n (waited_gvr obj) (if obj.namespaced then ns else "") selector))
      (λ n last.
        listed_ready k obj ns selector n last
          (k.watched n (waited_gvr obj) (if obj.namespaced then ns else "") selector) refl)
      (k.poll_rounds w.executor.job.max_wait_timeout) "" w

-- waitForPod returns, and the executor stays. Where it returns no error, at one of its questions every
-- page of the namespace's pods with the labels was listed, and had only running pods without a
-- condition that says that they are not ready.
pub wait_for_pod-Polled :
    (k : Cluster) (ns : String) (selector : Labels) (w : World)
    → Polled (λ n. All IsDone (k.pod_pages n ns selector)) w (wait_for_pod k ns selector w)
unfolding wait_for_pod poll pod_round after
wait_for_pod-Polled k ns selector w =
    poll_until-Polled (λ n. All IsDone (k.pod_pages n ns selector))
      (λ n last. (pages_round (k.pod_pages n ns selector), last))
      (λ n last. (pages_round_iff (k.pod_pages n ns selector)).0)
      (k.poll_rounds w.executor.job.max_wait_timeout) "" w

abbrev pub after_all : ℕ → World → World
after_all rounds w = record w { clock = rounds + w.clock }

poll_until-again :
    (answer : ℕ → String → Round × String)
    → ((n : ℕ) (last : String) → (answer n last).0 ≡ again)
    → (rounds : ℕ) (last : String) (w : World)
    → poll_until rounds (asks answer) last w ≡ some (some deadline_exceeded, after_all rounds w)
unfolding poll_until after
poll_until-again answer busy zero last w =
    ap (λ n. some (some deadline_exceeded, record w { clock = n })) (omega arith)
poll_until-again answer busy (suc rounds) last w =
    let next = (answer w.clock last).1 in
    rw (busy w.clock last) (
      poll_until-again answer busy rounds next (after w)
      ∙ ap (λ n. some (some deadline_exceeded, record w { clock = n })) (omega arith))

-- Where the first object that is listed has a number of replicas, 0 included, and none that are ready,
-- as the status of a workload of 0 replicas does, waitForReplicas makes all the rounds of the timeout
-- and returns its error.
pub wait_for_replicas-misses :
    (k : Cluster) (ns : String) (obj : ManagedObject) (paths : List String × List String)
    (selector : Labels) (wanted : String) (item : Watched) (items : List Watched) (w : World)
    → ((n : ℕ) → k.watched n obj.gvr ns selector ≡ some (item ∷ items))
    → item.nested paths.0 ≡ field (some wanted)
    → item.nested paths.1 ≡ field none
    → wait_for_replicas k ns obj paths selector w
      ≡ some (some deadline_exceeded, after_all (k.poll_rounds w.executor.job.max_wait_timeout) w)
unfolding wait_for_replicas poll list_round after
wait_for_replicas-misses k ns obj paths selector wanted item items w lists e f =
    poll_until-again
      (λ n last.
        on_list (λ given. (replicas_round paths.0 paths.1 given, last)) last
          (k.watched n obj.gvr ns selector))
      (λ n last. rw (lists n) (replicas_missing paths wanted item items e f))
      (k.poll_rounds w.executor.job.max_wait_timeout) "" w
