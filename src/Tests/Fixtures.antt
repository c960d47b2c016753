-- ===== src/Tests/Fixtures.antt =====
-- A configuration, an executor and a cluster for the tests.
use kube_burner.Prelude.{true, false, [], ◌∷◌, none, some}
use kube_burner.Prelude.Int.{pos}
use kube_burner.Config.Types.{
  Object, Job, Hook, Spec, creation_job, churn_namespaces, after_job, before_gc, before_all_jobs,
}
use kube_burner.Executor.{
  namespace_made, JobExecutor, World, Cluster, ManagedObject, Rendered, Mapping,
  GroupVersionResource, GroupVersionKind, created, no_handler,
}

-- Two replicas every fourth iteration.
abbrev pub pod : Object
pod = record {
  api_version = "v1";
  label_selector = ("app", "load") ∷ [];
  patch_type = "";
  wait_options = record {
    api_version = "";
    kind = "";
    label_selector = [];
    custom_status_paths = [];
  };
  object_template = "pod.yml";
  replicas = pos 2;
  kind = "Pod";
  wait = true;
  run_once = false;
  churn = false;
  group = record { id = pos 3; gc = false; pause_before_gc = pos 0; pause_after_gc = pos 0 };
  repeat_every_n_iterations = pos 4;
}

abbrev pub gc_hook : Hook
gc_hook = record { cmd = "true" ∷ []; when = before_gc; background = false; output_file = "" }

abbrev pub start_hook : Hook
start_hook = record {
  cmd = "true" ∷ [];
  when = before_all_jobs;
  background = false;
  output_file = "";
}

-- Eight iterations, two for each namespace, and three churn cycles.
abbrev pub pods_job : Job
pods_job = record {
  execution_mode = "";
  object_delay = pos 0;
  object_wait = false;
  job_iterations = pos 8;
  job_iteration_delay = pos 0;
  job_pause = pos 0;
  name = "pods";
  objects = pod ∷ [];
  watchers = [];
  job_type = creation_job;
  burst = pos 5;
  namespace = "load";
  max_wait_timeout = pos 60;
  wait_for_deletion = true;
  pod_wait = false;
  wait_when_finished = true;
  cleanup = true;
  namespaced_iterations = true;
  pre_create_namespaces = true;
  iterations_per_namespace = pos 2;
  verify_objects = true;
  error_on_verify = true;
  pre_load_images = false;
  namespace_labels = [];
  namespace_annotations = [];
  churn_config = record {
    cycles = pos 3;
    percent = pos 25;
    duration = pos 0;
    delay = pos 1;
    delete_delay = pos 0;
    mode = churn_namespaces;
  };
  skip_indexing = false;
  metrics_aggregate = false;
  metrics_closing = after_job;
  gc = false;
  hooks = gc_hook ∷ [];
}

abbrev pub two_jobs : Spec
two_jobs = record {
  global_config = record {
    uuid = "u";
    runid = "r";
    gc = false;
    wait_when_finished = false;
    gc_metrics = false;
    timeout = pos 3600;
    deletion_strategy = "default";
    hooks = start_hook ∷ [];
  };
  jobs = pods_job ∷ record pods_job { name = "more" } ∷ [];
}

abbrev pub pods : GroupVersionResource
pods = record { group = ""; version = "v1"; resource = "pods" }

abbrev pub pod_kind : GroupVersionKind
pod_kind = record { group = ""; version = "v1"; kind = "Pod" }

abbrev pub pod_mapping : Mapping
pod_mapping = record { resource = pods; in_namespace = true }

abbrev pub rendered_pod : Rendered
rendered_pod = record { gvk = pod_kind; name = "pod"; namespace = ""; labels = [] }

abbrev pub managed_pod : ManagedObject
managed_pod = record {
  object = pod;
  gvr = pods;
  gvk = pod_kind;
  wait_gvr = none;
  namespace = "";
  namespaced = true;
  ready = false;
  document_index = 0;
  dynamic_gvk = false;
}

abbrev pub pods_executor : JobExecutor
pods_executor = record {
  job = pods_job;
  uuid = "u";
  runid = "r";
  objects = managed_pod ∷ [];
  created_namespaces = [];
  item_handler = no_handler;
  has_object_finalizer = false;
  ns_required = true;
  mid_point = none;
  deletion_strategy = "default";
  group_windows = none;
  has_notifier = true;
}

abbrev pub start_world : World
start_world = record { executor = pods_executor; clock = 0; pending = []; trace = [] }

-- Serves every request.
abbrev pub serving : Cluster
serving = record {
  ctx_err = λ n. none;
  limiter_err = λ n. false;
  rest_mapping = λ n gvk. some pod_mapping;
  render = λ obj i r. some (rendered_pod ∷ []);
  probe = λ obj i. some (pod_kind ∷ []);
  create = λ n gvr ns obj. created;
  now = λ n. pos n;
  create_namespace = λ n ns. namespace_made;
  replica_order = λ n rs. rs;
  request_order = λ n requests. requests;
  item_order = λ n obj items. items;
  poll_rounds = λ t. 60;
  watched = λ n gvr ns labels. some [];
  pod_pages = λ n ns labels. some [] ∷ [];
  backoff_steps = λ t. 5;
  list_namespaces = λ n. some ("load-0" ∷ "load-1" ∷ "load-2" ∷ "load-3" ∷ []);
  list_objects = λ n obj labels. some [];
  patch_err = λ n name. false;
  forbidden = λ n name. false;
  parse_kind = λ version kind. pod_kind;
  readable = λ name. true;
  is_json = λ name. false;
  timer = λ n. false;
  random = λ n k. 0;
  uuid = λ n. "run";
  stop_err = λ n. none;
  script_err = λ n. none;
  listed = λ n labels. some 2;
  atoi = λ s. pos 0;
  after_last_dash = λ s. s;
}
