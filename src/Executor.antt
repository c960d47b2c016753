-- ===== src/Executor.antt =====
-- pkg/burner/executor.go and object.go: the state of a job's executor, and the world that it acts
-- on. `M` is the effect of the burner package: it reads answers of the cluster, changes the
-- executor's fields and records what is done. `none` is a panic or a log.Fatal, which end the
-- process. Answers of client-go, of the context and of the clock depend on a counter of the
-- questions asked so far, so that any history of answers is a `Cluster`.
use mathlib.Core.Bool.{Bool}
use kube_burner.Prelude.{ℕ, suc, String, List, [], ◌∷◌, ◌++◌, Option, none, some, str_eq, ◌&&◌, ◌≡◌}
use kube_burner.Prelude.Int.{ℤ}
use kube_burner.Waiters.Checks.{Watched}
use kube_burner.Config.Types.{Job, Object, Labels, JobStage, GroupWindow}

-- schema.GroupVersionResource
pub record GroupVersionResource : Type 0 where
  pub group : String
  pub version : String
  pub resource : String

abbrev pub no_gvr : GroupVersionResource
no_gvr = record { group = ""; version = ""; resource = "" }

-- gvr == (schema.GroupVersionResource{})
abbrev pub is_no_gvr : GroupVersionResource → Bool
is_no_gvr g = str_eq g.group "" && str_eq g.version "" && str_eq g.resource ""

-- schema.GroupVersionKind
pub record GroupVersionKind : Type 0 where
  pub group : String
  pub version : String
  pub kind : String

-- meta.RESTMapping: the resource, and whether its scope is a namespace.
pub record Mapping : Type 0 where
  pub resource : GroupVersionResource
  pub in_namespace : Bool

-- The struct `object`: a template of the job, as the executor knows it.
pub record ManagedObject : Type 0 where
  pub object : Object
  pub open object use *
  pub gvr : GroupVersionResource
  pub gvk : GroupVersionKind
  pub wait_gvr : Option GroupVersionResource
  pub namespace : String
  pub namespaced : Bool
  pub ready : Bool
  pub document_index : ℕ
  pub dynamic_gvk : Bool

-- midPointTracker, with whether `once` has run.
pub record MidPointTracker : Type 0 where
  pub total_replicas : ℤ
  pub created_replicas : ℕ
  pub fired : Bool

-- ex.itemHandler, by the function that it is set to.
pub data ItemHandler : Type 0 where
  no_handler delete_handler patch_handler read_handler : ItemHandler

-- Without the clients, the limiters and the functions of templates, which the Cluster stands for.
pub record JobExecutor : Type 0 where
  pub job : Job
  pub uuid : String
  pub runid : String
  pub objects : List ManagedObject
  pub created_namespaces : List (String × Bool)
  pub item_handler : ItemHandler
  -- whether ex.objectFinalizer is verifyDelete
  pub has_object_finalizer : Bool
  pub ns_required : Bool
  -- ex.midPoint, nil before setupCreateJob
  pub mid_point : Option MidPointTracker
  pub deletion_strategy : String
  -- what ex.GroupWindows points to
  pub group_windows : Option (List GroupWindow)
  -- whether ex.stageNotifier is not nil
  pub has_notifier : Bool

-- An object rendered from a template, with the labels and the namespace that it states.
pub record Rendered : Type 0 where
  pub gvk : GroupVersionKind
  pub name : String
  pub namespace : String
  pub labels : Labels

-- The arguments of createRequest; `source` is the place of the template among ex.objects.
pub record Request : Type 0 where
  pub source : ℕ
  pub iteration : ℕ
  pub replica : ℕ
  pub gvr : GroupVersionResource
  pub namespace : String
  pub body : Rendered

-- An object of the cluster, as List finds it, with its creation timestamp.
pub record Item : Type 0 where
  pub body : Rendered
  pub creation : ℕ

-- What the API server answers to a creation.
pub data Answer : Type 0 where
  created already_exists not_found failed : Answer

-- What the API server answers to the creation of a namespace; one that exists may be terminating.
pub data NamespaceAnswer : Type 0 where
  namespace_made namespace_exists namespace_terminates namespace_forbidden namespace_fails :
      NamespaceAnswer

-- What the executor does to the outside, in order.
pub data Event : Type 0 where
  hooks : JobStage → Event
  stage_notified : JobStage → Event
  -- a call to create a namespace that made it, and one that did not
  namespace_created : String → Labels → Labels → Event
  namespace_not_created : String → Event
  launched : Request → Event
  create_called : GroupVersionResource → String → Rendered → Event
  waited_for_objects : String → Option ℤ → Event
  slept : ℤ → Event
  deleted_collection : ManagedObject → String → Labels → Event
  waited_for_deletion : ManagedObject → String → Labels → Event
  namespace_labelled : String → Event
  object_labelled : GroupVersionResource → String → Event
  namespaces_cleaned : Event
  namespaces_cleaned_by_gvr : List String → Event
  measurements_started : String → Event
  measurements_stopped : Event
  cluster_scoped_cleaned : ManagedObject → Event
  object_deleted : GroupVersionResource → String → String → Event
  deletion_verified : GroupVersionResource → String → String → Event
  object_patched : GroupVersionResource → String → String → String → Event
  object_read : GroupVersionResource → String → String → Event
  deletion_awaited : GroupVersionResource → Labels → Event

pub record World : Type 0 where
  pub executor : JobExecutor
  -- the questions asked so far
  pub clock : ℕ
  -- requests whose goroutines have been started and not been waited for
  pub pending : List Request
  -- oldest first
  pub trace : List Event

-- The answers to the executor's questions.
pub record Cluster : Type 0 where
  -- time.Now
  pub now : ℕ → ℤ
  -- ctx.Err()
  pub ctx_err : ℕ → Option String
  -- limiter.Wait(ctx) returned an error
  pub limiter_err : ℕ → Bool
  -- mapper.RESTMapping(gvk.GroupKind())
  pub rest_mapping : ℕ → GroupVersionKind → Option Mapping
  -- util.RenderTemplate and yamlToUnstructuredMultiple, at an iteration and a replica; `none` is
  -- their log.Fatal
  pub render : ManagedObject → ℕ → ℕ → Option (List Rendered)
  -- the same for the probe of resolveDynamicObjects, where a failed rendering is no fatal error
  pub probe : ManagedObject → ℕ → Option (List GroupVersionKind)
  pub create : ℕ → GroupVersionResource → String → Rendered → Answer
  pub create_namespace : ℕ → String → NamespaceAnswer
  -- the orders in which goroutines run: those of the replicas that were started, those of the requests
  -- that are waited for, and those of the items of an object in an iteration
  pub replica_order : ℕ → List ℕ → List ℕ
  pub request_order : ℕ → List Request → List Request
  pub item_order : ℕ → ManagedObject → List Item → List Item
  -- the rounds that PollUntilContextTimeout makes at most for a timeout
  pub poll_rounds : ℤ → ℕ
  -- the list of a round of a polling, for a resource, a namespace and labels; `none` when it fails
  pub watched : ℕ → GroupVersionResource → String → Labels → Option (List Watched)
  -- the pages of the pods in a round
  pub pod_pages : ℕ → String → Labels → List (Option (List Watched))
  -- the calls that wait.ExponentialBackoff makes at most for a timeout
  pub backoff_steps : ℤ → ℕ
  -- the namespaces that carry the job's labels; `none` when List fails
  pub list_namespaces : ℕ → Option (List String)
  -- the objects of a resource that carry some labels
  pub list_objects : ℕ → ManagedObject → Labels → Option (List Item)
  -- Patch returned an error for a name
  pub patch_err : ℕ → String → Bool
  -- Patch of an object was refused, which is fatal
  pub forbidden : ℕ → String → Bool
  -- schema.FromAPIVersionAndKind
  pub parse_kind : String → String → GroupVersionKind
  -- the text of a template was read
  pub readable : String → Bool
  -- strings.HasSuffix(name, "json")
  pub is_json : String → Bool
  -- the timer of the churn's duration has fired
  pub timer : ℕ → Bool
  -- rand.Intn
  pub random : ℕ → ℕ → ℕ
  -- uuid.New
  pub uuid : ℕ → String
  -- the error of stopping the measurements
  pub stop_err : ℕ → Option String
  -- the error of the health check script
  pub script_err : ℕ → Option String
  -- the number of objects that Verify finds for a selector, `none` where its retries fail
  pub listed : ℕ → Labels → Option ℕ
  -- strconv.Atoi, 0 for a text that is no number
  pub atoi : String → ℤ
  -- the text behind the last '-' of a name, or the name
  pub after_last_dash : String → String

abbrev pub M : Type 0 → Type 0
M A = World → Option (A × World)

abbrev pub pure : {A : Type 0} → A → M A
pure a w = some (a, w)

infixl 5 ◌>>◌ ◌>>=◌
abbrev pub ◌>>=◌ : {Value Result : Type 0} → M Value → (Value → M Result) → M Result
◌>>=◌ step next before = elim (step before) [ none ↦ none | some (value, after) ↦ next value after ]

abbrev pub ◌>>◌ : {Result : Type 0} → M (Unit {0}) → M Result → M Result
◌>>◌ step next = step >>= (λ done. next)

abbrev pub fatal : {A : Type 0} → M A
fatal w = none

abbrev pub get_executor : M JobExecutor
get_executor w = some (w.executor, w)

abbrev pub set_executor : JobExecutor → M (Unit {0})
set_executor ex w = some (tt, record w { executor = ex })

abbrev pub emit : Event → M (Unit {0})
emit e w = some (tt, record w { trace = w.trace ++ (e ∷ []) })

-- An answer at the present count of questions.
abbrev pub ask : {A : Type 0} → (ℕ → A) → M A
ask f w = some (f w.clock, record w { clock = suc w.clock })

abbrev pub for_each : {A : Type 0} → List A → (A → M (Unit {0})) → M (Unit {0})
for_each [] f = pure tt
for_each (x ∷ xs) f = f x >> for_each xs f

-- A step whose result is known, inside a chain.
pub >>=_at :
    {A B : Type 0} (m : M A) (f : A → M B) {w w' : World} {a : A}
    → m w ≡ some (a, w')
    → (m >>= f) w ≡ f a w'
>>=_at m f e = rw (e, ◌>>=◌)

pub >>_at :
    {B : Type 0} (m : M (Unit {0})) (k : M B) {w w' : World}
    → m w ≡ some (tt, w')
    → (m >> k) w ≡ k w'
>>_at m k e = rw (e, ◌>>=◌)
