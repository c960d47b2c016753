-- ===== src/Tests/Create.antt =====
-- Tests of pkg/burner/create.go and of Verify.
use mathlib.Core.List.{Perm}
use mathlib.Core.List.Perm
use kube_burner.Prelude.{ℕ, List, ◌*◌, true, false, [], ◌∷◌, some, ◌≡◌, refl, All, arith}
use kube_burner.Prelude.Int.{ℤ, pos}
use kube_burner.Prelude.Maps.{lookup}
use kube_burner.Config.Types.{mid_point}
use kube_burner.Executor.{World, stage_notified}
use kube_burner.Create.Namespaces.{create_iterations}
use kube_burner.Create.Namespaces.Once.{IsOnce, IsMade, create_iterations-IsOnce}
use kube_burner.Create.Objects.{group_objects_by_number}
use kube_burner.Create.Objects.Groups.{
  IsAscending, places_of, places_with, group_objects_by_number_lem,
}
use kube_burner.Create.Requests.{replica_handler}
use kube_burner.Create.Requests.MidPoint.{notify_times, fresh, notify_times_lem}
use kube_burner.Create.Requests.Launch.{IsServing, Launches, replica_handler-Launches}
use kube_burner.Create.Setup.{Template, setup_create_job}
use kube_burner.Create.Setup.Totals.{fresh_tracker, setup_create_job-planned}
use kube_burner.Verify.{objects_expected}
use kube_burner.Create.Requests.{create_request}
use kube_burner.Create.Requests.Retries.{Sends, create_request-Sends}
use kube_burner.Executor.{Request, create_called}
use kube_burner.Create.Objects.{get_group_lifecycle_pauses}
use kube_burner.Create.Objects.Lifecycle.{IsLongest, get_group_lifecycle_pauses_lem}
use kube_burner.Executor.{ManagedObject}
use kube_burner.Prelude.{any}
use kube_burner.Verify.Expected.{due_count, objects_expected-due_count}
use kube_burner.Tests.Fixtures.{
  pods, pod, pod_kind, managed_pod, rendered_pod, pod_mapping, pods_executor, start_world, serving,
}

create_iterations-IsOnce_example :
    (w : World) × ((create_iterations serving (0 ∷ 1 ∷ 2 ∷ []) [] [] start_world ≡ some (tt, w))
      × (IsOnce w × All (IsMade pods_executor w) (0 ∷ 1 ∷ 2 ∷ [])))
unfolding lookup
create_iterations-IsOnce_example =
    create_iterations-IsOnce serving (0 ∷ 1 ∷ 2 ∷ []) [] [] start_world (λ n ns h. cc) (λ h. cc)
      (λ ns. (omega arith, omega arith))

group_objects_by_number_lem_example :
    IsAscending (group_objects_by_number (managed_pod ∷ managed_pod ∷ []))
    × ((n : ℤ)
        → places_of n (group_objects_by_number (managed_pod ∷ managed_pod ∷ []))
          ≡ places_with n 0 (managed_pod ∷ managed_pod ∷ []))
group_objects_by_number_lem_example = group_objects_by_number_lem (managed_pod ∷ managed_pod ∷ [])

notify_times_lem_example :
    notify_times 3 (fresh 5 start_world)
    ≡ some (
      tt,
      record start_world {
        executor = record pods_executor {
          mid_point = some (record { total_replicas = pos 5; created_replicas = 3; fired = true });
        };
        trace = stage_notified mid_point ∷ [];
      },
    )
notify_times_lem_example = notify_times_lem 3 5 start_world (omega arith) refl

serving-IsServing : IsServing serving managed_pod 0 (λ r. rendered_pod) pod_mapping
serving-IsServing = record {
  running = λ n. refl;
  throttles = λ n. refl;
  renders = λ r. (rendered_pod ∷ [], (refl, refl));
  orders = λ n rs. Perm.refl rs;
  maps = λ n r. refl;
}

replica_handler-Launches_example :
    (w : World) × (order : List ℕ) × Perm order (1 ∷ 2 ∷ [])
    × (replica_handler serving 0 managed_pod [] "load-0" 0 start_world ≡ some (tt, w))
    × Launches serving 0 managed_pod [] "load-0" 0
        (λ r. rendered_pod)
        pod_mapping
        order
        start_world
        w
replica_handler-Launches_example =
    replica_handler-Launches serving 0 managed_pod [] "load-0" 0 (λ r. rendered_pod) pod_mapping
      start_world serving-IsServing

abbrev pod_template : Template
pod_template = record {
  documents = record { gvk = pod_kind; namespace = "" } ∷ [];
  templated_gvk = false;
}

setup_create_job-planned_example :
    (w : World) × ((setup_create_job serving (λ o. some pod_template) start_world ≡ some (tt, w))
      × ((w.executor.job ≡ pods_executor.job) × (w.executor.mid_point ≡ some (fresh_tracker 16))))
setup_create_job-planned_example =
    setup_create_job-planned serving (λ o. some pod_template) 8 start_world
      ((pod_template, refl), tt) refl (omega arith)

objects_expected-due_count_example : objects_expected pod (pos 8) ≡ pos (2 * due_count pod 8)
objects_expected-due_count_example =
    objects_expected-due_count pod 8 2 refl (omega arith) (omega arith) (omega arith) (omega arith)

abbrev pod_request : Request
pod_request = record {
  source = 0;
  iteration = 0;
  replica = 1;
  gvr = pods;
  namespace = "load-0";
  body = rendered_pod;
}

create_request-Sends_example :
    (w : World) × ((create_request serving pod_request start_world ≡ some (tt, w))
      × Sends 5 (create_called pods "load-0" rendered_pod) start_world w)
create_request-Sends_example = create_request-Sends serving pod_request start_world

-- A second pod, that is collected behind a longer pause.
abbrev gc_pod : ManagedObject
gc_pod = record managed_pod {
  object = record pod {
    group = record { id = pos 3; gc = true; pause_before_gc = pos 9; pause_after_gc = pos 0 };
  };
}

get_group_lifecycle_pauses_lem_example :
    IsLongest
      (λ obj. obj.group.pause_before_gc)
      (pos 0)
      (get_group_lifecycle_pauses (managed_pod ∷ gc_pod ∷ [])).before
      (managed_pod ∷ gc_pod ∷ [])
    × (IsLongest
          (λ obj. obj.group.pause_after_gc)
          (pos 0)
          (get_group_lifecycle_pauses (managed_pod ∷ gc_pod ∷ [])).after
          (managed_pod ∷ gc_pod ∷ [])
        × ((get_group_lifecycle_pauses (managed_pod ∷ gc_pod ∷ [])).has_gc
            ≡ any (λ obj. obj.group.gc) (managed_pod ∷ gc_pod ∷ [])))
get_group_lifecycle_pauses_lem_example = get_group_lifecycle_pauses_lem (managed_pod ∷ gc_pod ∷ [])
