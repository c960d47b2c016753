-- ===== src/Jobs/Setup.antt =====
-- The preparation of jobs that delete, patch or read: newObject of pkg/burner/object.go,
-- setupDeleteJob, setupPatchJob and setupReadJob.
use kube_burner.Prelude.{
  String, Bool, true, false, ◌||◌, List, [], ◌∷◌, ◌++◌, Option, none, some, if◌then◌else◌, str_eq,
}
use kube_burner.Prelude.Int.{pos}
use kube_burner.Config.Types.{Object, Labels, execution_mode_parallel, execution_mode_sequential}
use kube_burner.Executor.{
  Cluster, GroupVersionResource, Mapping, ManagedObject, delete_handler, patch_handler,
  read_handler, M, pure, ◌>>=◌, ◌>>◌, fatal, get_executor, set_executor, ask,
}

-- APIVersionV1
abbrev pub api_version_v1 : String
api_version_v1 = "v1"

pub is_no_labels : Labels → Bool
is_no_labels [] = true
is_no_labels (label ∷ labels) = false

module _ (k : Cluster) where
  -- The kind that is waited for instead, with the object's API version where it states none.
  pub wait_resource : Object → M (Option GroupVersionResource)
  wait_resource o = if str_eq o.wait_options.kind "" then pure none else (do
    let version =
        if str_eq o.wait_options.api_version "" then o.api_version else o.wait_options.api_version
    mapped ← ask (λ n. k.rest_mapping n (k.parse_kind version o.wait_options.kind))
    elim mapped [ none ↦ fatal | some m ↦ pure (some m.resource) ])

  mapped_object : Object → Mapping → Option GroupVersionResource → M ManagedObject
  mapped_object o m wait_gvr =
      if str_eq o.object_template "" || k.readable o.object_template
      then pure (record {
        object = o;
        gvr = m.resource;
        gvk = record { group = ""; version = ""; kind = "" };
        wait_gvr = wait_gvr;
        namespace = "";
        namespaced = m.in_namespace;
        ready = false;
        document_index = 0;
        dynamic_gvk = false;
      })
      else fatal

  pub new_object : Object → String → M ManagedObject
  new_object given default_version =
      let version = if str_eq given.api_version "" then default_version else given.api_version in
      let o = record given { api_version = version } in
      if is_no_labels o.label_selector then fatal else (do
        mapped ← ask (λ n. k.rest_mapping n (k.parse_kind version o.kind))
        elim mapped [ none ↦ fatal | some m ↦ wait_resource o >>= mapped_object o m ])

  append_new : Object → M (Unit {0})
  append_new o = do
    obj ← new_object o api_version_v1
    ex ← get_executor
    set_executor (record ex { objects = ex.objects ++ (obj ∷ []) })

  append_all : List Object → M (Unit {0})
  append_all [] = pure tt
  append_all (o ∷ objects) = append_new o >> append_all objects

  pub setup_delete_job : M (Unit {0})
  setup_delete_job = do
    ex ← get_executor
    set_executor (record ex {
      item_handler = delete_handler;
      has_object_finalizer = ex.job.wait_for_deletion || ex.has_object_finalizer;
      job = record ex.job {
        job_iterations = pos 1;
        execution_mode = execution_mode_sequential;
        wait_when_finished = false;
      };
    })
    append_all ex.job.objects

  append_patch : Object → M (Unit {0})
  append_patch o = if str_eq o.patch_type "" then fatal else append_new o

  append_patches : List Object → M (Unit {0})
  append_patches [] = pure tt
  append_patches (o ∷ objects) = append_patch o >> append_patches objects

  pub setup_patch_job : M (Unit {0})
  setup_patch_job = do
    ex ← get_executor
    let mode =
        if str_eq ex.job.execution_mode "" then execution_mode_parallel else ex.job.execution_mode
    set_executor
        (record ex { item_handler = patch_handler; job = record ex.job { execution_mode = mode } })
    if str_eq mode execution_mode_parallel || str_eq mode execution_mode_sequential
        then append_patches ex.job.objects
        else fatal

  pub setup_read_job : M (Unit {0})
  setup_read_job = do
    ex ← get_executor
    set_executor (record ex {
      item_handler = read_handler;
      job = record ex.job { execution_mode = execution_mode_sequential };
    })
    append_all ex.job.objects
