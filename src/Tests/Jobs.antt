-- ===== src/Tests/Jobs.antt =====
-- Tests of the jobs that delete, patch or read.
use mathlib.Core.List.Perm
use kube_burner.Executor.{Event}
use kube_burner.Prelude.{true, false, List, [], ◌∷◌, some, refl, inl}
use kube_burner.Prelude.Int.{pos}
use kube_burner.Executor.{JobExecutor, Item, ManagedObject, Cluster, delete_handler}
use kube_burner.Jobs.Sequential.{run_sequential}
use kube_burner.Jobs.Sequential.Calls.{IsListing, AreIterations, run_sequential-Does}
use kube_burner.Jobs.Does.{Does}
use kube_burner.Tests.Fixtures.{pods_executor, pods_job, rendered_pod, serving}

abbrev two_items : ManagedObject → List Item
two_items obj =
    record { body = rendered_pod; creation = 1 } ∷ record { body = rendered_pod; creation = 2 } ∷ []

abbrev deleter : JobExecutor
deleter = record pods_executor {
  job = record pods_job {
    job_iterations = pos 1;
    wait_when_finished = false;
    object_delay = pos 3;
  };
  item_handler = delete_handler;
  has_object_finalizer = true;
}

abbrev holding : Cluster
holding = record serving { list_objects = λ n obj labels. some (two_items obj) }

holding-IsListing : IsListing holding deleter two_items
holding-IsListing = record {
  running = λ n. refl;
  orders = λ i obj. Perm.refl (two_items obj);
  lists = λ n obj. refl;
  tries = (4, refl);
  calls = inl refl;
  no_object_wait = refl;
  no_final_wait = refl;
}

run_sequential-Does_example :
    (events : List Event) × Does deleter (run_sequential holding) [] events
    × AreIterations deleter two_items 1 events
run_sequential-Does_example = run_sequential-Does holding deleter two_items holding-IsListing
