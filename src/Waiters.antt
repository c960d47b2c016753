-- ===== src/Waiters.antt =====
-- pkg/burner/waiters.go: waiting for the objects of a namespace. What a round of a polling lists is an
-- answer of the cluster; Checks holds what the rounds decide, Conditions the status paths. The context
-- of a polling is done when its timeout's rounds are used up.
pub mod Checks
pub mod Conditions
pub mod Polls
use kube_burner.Prelude.{
  ℕ, suc, String, Bool, true, not, ◌&&◌, ◌||◌, List, [], ◌∷◌, ◌++◌, Option, none, some,
  if◌then◌else◌, str_eq, set,
}
use kube_burner.Prelude.Int.{ℤ, pos, eqb_ℤ}
use kube_burner.Prelude.Text.{append}
use kube_burner.Prelude.Maps.{copy}
use kube_burner.Config.Types.{Labels, StatusPath}
use kube_burner.Config.Validate.{is_empty}
use kube_burner.Waiters.Conditions.{to_status_paths, waiters_condition_paths}
use kube_burner.Waiters.Polls.{deadline_exceeded, snapshot_path, verify_condition, wait_for_kind}
use kube_burner.Executor.{
  JobExecutor, Cluster, ManagedObject, waited_for_objects, M, pure, ◌>>=◌, ◌>>◌, get_executor,
  set_executor, emit, ask,
}

module _ (k : Cluster) where
  mark_ready : ℕ → ManagedObject → M (Unit {0})
  mark_ready place obj = do
    ex ← get_executor
    set_executor (record ex { objects = set ex.objects place (record obj { ready = true }) })

  abbrev wait_error : String → String → String
  wait_error ns err =
      append
        (if str_eq err deadline_exceeded
          then "timeout occurred while waiting for objects in namespace "
          else "error waiting for objects in namespace ")
        (append ns (append ": " err))

  settle_wait : ℕ → ManagedObject → String → Option String → M (Option String)
  settle_wait place obj ns (some err) = pure (some (wait_error ns err))
  settle_wait place obj ns none =
      if not (str_eq obj.namespace "") || obj.run_once
      then mark_ready place obj >> pure none
      else pure none

  -- The labels that are waited for.
  wait_selector : JobExecutor → ManagedObject → Labels
  wait_selector ex obj =
      copy (("kube-burner.io/runid", ex.runid) ∷ []) obj.wait_options.label_selector

  -- obj.WaitOptions.CustomStatusPaths = paths, which stay for the next waits.
  set_paths : ℕ → ManagedObject → List StatusPath → M ManagedObject
  set_paths place obj paths = do
    ex ← get_executor
    let o = record obj.object {
      wait_options = record obj.wait_options { custom_status_paths = paths };
    }
    let changed = record obj { object = o }
    set_executor (record ex { objects = set ex.objects place changed })
    pure changed

  poll_kind : ℕ → ManagedObject → String → String → Labels → M (ManagedObject × Option String)
  poll_kind place obj kind ns selector = elim (waiters_condition_paths kind) [
    | some check ↦ do
      changed ← set_paths place obj (to_status_paths check (pos 0))
      failed ← verify_condition k ns changed selector
      pure (changed, failed)
    | none ↦
        if str_eq kind "VolumeSnapshot"
        then (do
          changed ←
              (if is_empty obj.wait_options.custom_status_paths
                then set_paths place obj (snapshot_path ∷ [])
                else pure obj)
          failed ← verify_condition k ns changed selector
          pure (changed, failed))
        else (do failed ← wait_for_kind k ns obj kind selector; pure (obj, failed))
  ]

  poll_object : ℕ → ManagedObject → String → Labels → M (ManagedObject × Option String)
  poll_object place obj ns selector =
      if not (is_empty obj.wait_options.custom_status_paths)
      then (do failed ← verify_condition k ns obj selector; pure (obj, failed))
      else if str_eq obj.wait_options.kind ""
      then poll_kind place obj obj.kind ns selector
      else poll_kind place obj obj.wait_options.kind "" selector

  -- The namespace that is named in an error: all of them for waitOptions.kind.
  abbrev named_namespace : ManagedObject → String → String
  named_namespace obj ns =
      if is_empty obj.wait_options.custom_status_paths && not (str_eq obj.wait_options.kind "")
      then ""
      else ns

  pub wait_for_object : ℕ → ManagedObject → String → M (Option String)
  wait_for_object place obj ns = if not obj.wait || obj.ready then pure none else (do
    ex ← get_executor
    let own = if str_eq obj.namespace "" then ns else obj.namespace
    polled ← poll_object place obj own (wait_selector ex obj)
    settle_wait place polled.0 (named_namespace obj own) polled.1)

  abbrev in_group : Option ℤ → ManagedObject → Bool
  in_group none obj = true
  in_group (some n) obj = eqb_ℤ obj.group.id n

  abbrev add_err : Option String → List String → List String
  add_err none errs = errs
  add_err (some e) errs = errs ++ (e ∷ [])

  wait_from : ℕ → List ManagedObject → String → Option ℤ → List String → M (List String)
  wait_from place [] ns group errs = pure errs
  wait_from place (obj ∷ objs) ns group errs =
      if not (in_group group obj) then wait_from (suc place) objs ns group errs else do
        err ← wait_for_object place obj ns
        wait_from (suc place) objs ns group (add_err err errs)

  -- Every object of the executor, or of the group.
  pub wait_for_objects : String → Option ℤ → M (List String)
  wait_for_objects ns group = do
    ex ← get_executor
    emit (waited_for_objects ns group)
    wait_from 0 ex.objects ns group []
