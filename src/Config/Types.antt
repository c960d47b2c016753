-- ===== src/Config/Types.antt =====
-- pkg/config/types.go: the configuration of a run. Integers and durations (nanoseconds) are ℤ, a
-- Go map is an association list, a pointer is an Option, and the string types (JobStage, JobType,
-- ChurnMode, …) are texts with the source's constants. Fields that no modelled code reads are left
-- out: QPS, which is a float, the measurements, and the fields of KubeVirt jobs.
use kube_burner.Prelude.{String, Bool, List}
use kube_burner.Prelude.Int.{ℤ}

abbrev pub JobStage : Type 0
JobStage = String

abbrev pub before_job_execution : JobStage
before_job_execution = "beforeJobExecution"

abbrev pub after_job_execution : JobStage
after_job_execution = "afterJobExecution"

abbrev pub before_churn : JobStage
before_churn = "beforeChurn"

abbrev pub after_churn : JobStage
after_churn = "afterChurn"

abbrev pub before_cleanup : JobStage
before_cleanup = "beforeCleanup"

abbrev pub after_cleanup : JobStage
after_cleanup = "afterCleanup"

abbrev pub before_gc : JobStage
before_gc = "beforeGC"

abbrev pub after_gc : JobStage
after_gc = "afterGC"

abbrev pub on_each_iteration : JobStage
on_each_iteration = "onEachIteration"

abbrev pub mid_point : JobStage
mid_point = "midPoint"

abbrev pub before_all_jobs : JobStage
before_all_jobs = "beforeAllJobs"

abbrev pub after_all_jobs : JobStage
after_all_jobs = "afterAllJobs"

abbrev pub JobType : Type 0
JobType = String

abbrev pub creation_job : JobType
creation_job = "create"

abbrev pub deletion_job : JobType
deletion_job = "delete"

abbrev pub patch_job : JobType
patch_job = "patch"

abbrev pub read_job : JobType
read_job = "read"

abbrev pub kube_virt_job : JobType
kube_virt_job = "kubevirt"

abbrev pub ChurnMode : Type 0
ChurnMode = String

abbrev pub churn_namespaces : ChurnMode
churn_namespaces = "namespaces"

abbrev pub churn_objects : ChurnMode
churn_objects = "objects"

abbrev pub MetricsClosing : Type 0
MetricsClosing = String

abbrev pub after_job_pause : MetricsClosing
after_job_pause = "afterJobPause"

abbrev pub after_measurements : MetricsClosing
after_measurements = "afterMeasurements"

abbrev pub after_job : MetricsClosing
after_job = "afterJob"

abbrev pub Labels : Type 0
Labels = List (String × String)

pub record ObjectGroup : Type 0 where
  pub id : ℤ
  pub gc : Bool
  pub pause_before_gc : ℤ
  pub pause_after_gc : ℤ

-- A jq query on the status of an object, and the value that it is to give.
pub record StatusPath : Type 0 where
  pub key : String
  pub value : String

pub record WaitOptions : Type 0 where
  pub api_version : String
  pub kind : String
  pub label_selector : Labels
  pub custom_status_paths : List StatusPath

pub record Object : Type 0 where
  pub api_version : String
  pub label_selector : Labels
  pub patch_type : String
  pub wait_options : WaitOptions
  pub object_template : String
  pub replicas : ℤ
  pub kind : String
  pub wait : Bool
  pub run_once : Bool
  pub churn : Bool
  pub group : ObjectGroup
  pub repeat_every_n_iterations : ℤ

pub record Hook : Type 0 where
  pub cmd : List String
  pub when : JobStage
  pub background : Bool
  pub output_file : String

pub record LinearLoadConfig : Type 0 where
  pub min_steps : ℤ
  pub step_size : ℤ

pub record ChurnConfig : Type 0 where
  pub cycles : ℤ
  pub percent : ℤ
  pub duration : ℤ
  pub delay : ℤ
  pub delete_delay : ℤ
  pub mode : ChurnMode

pub record Watcher : Type 0 where
  pub kind : String
  pub api_version : String
  pub label_selector : Labels
  pub replicas : ℤ

abbrev pub ExecutionMode : Type 0
ExecutionMode = String

abbrev pub execution_mode_parallel : ExecutionMode
execution_mode_parallel = "parallel"

abbrev pub execution_mode_sequential : ExecutionMode
execution_mode_sequential = "sequential"

pub record Job : Type 0 where
  pub execution_mode : ExecutionMode
  pub object_delay : ℤ
  pub object_wait : Bool
  pub job_iterations : ℤ
  pub job_iteration_delay : ℤ
  pub job_pause : ℤ
  pub name : String
  pub objects : List Object
  pub watchers : List Watcher
  pub job_type : JobType
  pub burst : ℤ
  pub namespace : String
  pub max_wait_timeout : ℤ
  pub wait_for_deletion : Bool
  pub pod_wait : Bool
  pub wait_when_finished : Bool
  pub cleanup : Bool
  pub namespaced_iterations : Bool
  pub pre_create_namespaces : Bool
  pub iterations_per_namespace : ℤ
  pub verify_objects : Bool
  pub error_on_verify : Bool
  pub pre_load_images : Bool
  pub namespace_labels : Labels
  pub namespace_annotations : Labels
  pub churn_config : ChurnConfig
  pub skip_indexing : Bool
  pub metrics_aggregate : Bool
  pub metrics_closing : MetricsClosing
  pub gc : Bool
  pub hooks : List Hook

pub record GlobalConfig : Type 0 where
  pub uuid : String
  pub runid : String
  pub gc : Bool
  pub wait_when_finished : Bool
  pub gc_metrics : Bool
  pub timeout : ℤ
  pub deletion_strategy : String
  pub hooks : List Hook

pub record Spec : Type 0 where
  pub global_config : GlobalConfig
  pub jobs : List Job

-- The time in which a group was created.
pub record GroupWindow : Type 0 where
  pub id : ℤ
  pub start : ℤ
  pub end : ℤ
