-- ===== src/Create/Setup.antt =====
-- pkg/burner/create.go: setupCreateJob, which reads the templates of a job. A template's text, its
-- documents and whether templatedGVKRegex matches it are an input; `none` is a template that cannot
-- be read, cleaned or decoded, which is fatal.
pub mod Totals
pub mod Missed
use kube_burner.Prelude.{
  ℕ, zero, suc, String, Bool, true, false, not, ◌&&◌, ◌||◌, List, [], ◌∷◌, ◌++◌, Option, none, some,
  if◌then◌else◌, str_eq, is_some,
}
use kube_burner.Prelude.Int.{ℤ, pos, ltb_ℤ, add64, mul64}
use kube_burner.Config.Types.{Object, Job}
use kube_burner.Executor.{
  JobExecutor, World, Cluster, ManagedObject, Mapping, GroupVersionKind, MidPointTracker, no_gvr, M,
  pure, ◌>>=◌, ◌>>◌, fatal, get_executor, set_executor, ask,
}
use kube_burner.Create.Objects.{require_namespace}

pub record Document : Type 0 where
  pub gvk : GroupVersionKind
  pub namespace : String

pub record Template : Type 0 where
  pub documents : List Document
  pub templated_gvk : Bool

-- What an object template adds to ex.midPoint.totalReplicas.
pub planned_replicas : ℤ → Object → ℤ
planned_replicas job_iterations o =
    if o.run_once then o.replicas else mul64 o.replicas job_iterations

-- ex.midPoint.totalReplicas += n, on the tracker that the method has made.
add_total : ℤ → M (Unit {0})
add_total n = do
  ex ← get_executor
  elim ex.mid_point [
    | none ↦ fatal
    | some m ↦
        set_executor
          (record ex { mid_point = some (record m { total_replicas = add64 m.total_replicas n }) })
  ]

-- The object of a document, and whether its kind is mapped.
object_of : Object → ℕ → Document → Bool → Option Mapping → ManagedObject
object_of o i doc templated mapping = record {
  object = record o { kind = doc.gvk.kind };
  gvr = elim mapping [ none ↦ no_gvr | some m ↦ m.resource ];
  gvk = doc.gvk;
  wait_gvr = none;
  namespace = doc.namespace;
  namespaced = elim mapping [ none ↦ false | some m ↦ m.in_namespace ];
  ready = false;
  document_index = i;
  dynamic_gvk = not (is_some mapping) && templated;
}

append_object : ManagedObject → M (Unit {0})
append_object obj = do
  ex ← get_executor
  set_executor (record ex { objects = ex.objects ++ (obj ∷ []) })

module _ (k : Cluster) (load : Object → Option Template) where
  add_documents : Object → Bool → ℕ → List Document → M (Unit {0})
  add_documents o templated i [] = pure tt
  add_documents o templated i (doc ∷ docs) = do
    mapping ← ask (λ n. k.rest_mapping n doc.gvk)
    require_namespace (object_of o i doc templated mapping)
    append_object (object_of o i doc templated mapping)
    add_documents o templated (suc i) docs

  add_template : Object → M (Unit {0})
  add_template o = if ltb_ℤ o.replicas (pos 1) then pure tt else do
    ex ← get_executor
    add_total (planned_replicas ex.job.job_iterations o)
    elim (load o) [ none ↦ fatal | some t ↦ add_documents o t.templated_gvk 0 t.documents ]

  add_templates : List Object → M (Unit {0})
  add_templates [] = pure tt
  add_templates (o ∷ os) = do add_template o; add_templates os

  pub setup_create_job : M (Unit {0})
  setup_create_job = do
    ex ← get_executor
    set_executor (record ex {
      mid_point = some (record { total_replicas = pos 0; created_replicas = 0; fired = false });
    })
    add_templates ex.job.objects
