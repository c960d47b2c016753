-- ===== src/Waiters/Checks.antt =====
-- pkg/burner/waiters.go: what one round of each polling decides on the objects that are listed.
pub mod Builds
pub mod Pods
pub mod Replicas
pub mod Verified
use kube_burner.Prelude.{
  String, str_eq, Bool, true, false, not, ◌&&◌, ◌||◌, List, [], ◌∷◌, Option, none, some,
  if◌then◌else◌, length, any,
}
use kube_burner.Prelude.Int.{ℤ, pos, ltb_ℤ}
use kube_burner.Config.Types.{StatusPath}

-- unstructured.NestedFieldCopy: an error, or the text of a field that may be missing.
pub data Nested : Type 0 where
  broken : String → Nested
  field : Option String → Nested

-- unstructured.NestedMap of the status: an error, no status, an empty one, or one with fields.
pub data StatusField : Type 0 where
  unreadable missing_status no_fields with_fields : StatusField

-- A result of a jq query: a text, a value that is no text, or an error.
pub data JqResult : Type 0 where
  yields : String → JqResult
  no_text : JqResult
  fails : JqResult

-- An object as the polling sees it.
pub record Watched : Type 0 where
  -- status.phase, none where the object has none
  pub phase : Option String
  -- the type and the status of each condition
  pub conditions : List (String × String)
  pub nested : List String → Nested
  pub status : StatusField
  -- the results of a jq query on the status, none where its text is no query
  pub query : String → Option (List JqResult)

-- The end of a round: try again, done, or an error that ends the polling.
pub data Round : Type 0 where
  again : Round
  ready : Round
  stops : String → Round

same_text : Option String → Option String → Bool
same_text none none = true
same_text (some a) (some b) = str_eq a b
same_text (some a) none = false
same_text none (some b) = false

replicas_of : Nested → Nested → Round → Round
replicas_of (broken e) actual rest = stops e
replicas_of (field wanted) (broken e) rest = stops e
replicas_of (field wanted) (field actual) rest = if same_text wanted actual then rest else again

-- waitForReplicas
pub replicas_round : List String → List String → List Watched → Round
replicas_round expected_path ready_path [] = ready
replicas_round expected_path ready_path (item ∷ items) =
    replicas_of (item.nested expected_path) (item.nested ready_path)
      (replicas_round expected_path ready_path items)

abbrev pub phase_of : Option String → String
phase_of none = ""
phase_of (some phase) = phase

-- waitForPVC
pub claims_round : List Watched → Round
claims_round [] = ready
claims_round (item ∷ items) =
    let rest = claims_round items in if str_eq (phase_of item.phase) "Bound" then rest else again

pub is_unready : List (String × String) → Bool
is_unready [] = false
is_unready ((type_name, status) ∷ conditions) =
    (str_eq type_name "Ready" && str_eq status "False") || is_unready conditions

-- The pods of a page, in waitForPod.
pub pods_round : List Watched → Round
pods_round [] = ready
pods_round (item ∷ items) =
    let rest = pods_round items in
    if not (str_eq (phase_of item.phase) "Running") || is_unready item.conditions
    then again
    else rest

-- waitForPod: the pages of a list, up to the first one that fails.
pub pages_round : List (Option (List Watched)) → Round
pages_round [] = ready
pages_round (none ∷ pages) = again
pages_round (some items ∷ pages) =
    let rest = pages_round pages in
    elim (pods_round items) [ again ↦ again | stops e ↦ stops e | ready ↦ rest ]

-- A build is decoded into the variable of the build before it, whose phase stays where it has none.
decoded_phase : String → Option String → String
decoded_phase last none = last
decoded_phase last (some phase) = phase

unfoldable pub is_building : String → Bool
is_building phase =
    str_eq phase "" || str_eq phase "New" || str_eq phase "Pending" || str_eq phase "Running"

builds_from : String → List Watched → Round × String
builds_from last [] = (ready, last)
builds_from last (item ∷ items) =
    let phase = decoded_phase last item.phase in
    let rest = builds_from phase items in if is_building phase then (again, phase) else rest

-- waitForBuild, with the phase that the variable holds.
pub builds_round : ℤ → String → List Watched → Round × String
builds_round replicas last items =
    if ltb_ℤ (pos (length items)) replicas then (again, last) else builds_from last items

-- The results of a query, up to its first error.
unfoldable pub holds_value : String → List JqResult → Bool
holds_value wanted [] = false
holds_value wanted (fails ∷ results) = false
holds_value wanted (no_text ∷ results) = holds_value wanted results
holds_value wanted (yields v ∷ results) = str_eq v wanted || holds_value wanted results

pub data PathEnd : Type 0 where
  ends : Round → PathEnd
  holds : Bool → PathEnd

unfoldable pub check_path : Watched → StatusPath → PathEnd
check_path item path = elim (item.status) [
  | unreadable ↦ ends (stops "status")
  | missing_status ↦ ends again
  | no_fields ↦ holds false
  | with_fields ↦ elim (item.query path.key) [
    | none ↦ ends (stops "jq")
    | some results ↦ holds (holds_value path.value results)
  ]
]

-- All paths are looked at, behind one that does not hold as well.
unfoldable pub check_paths : Watched → List StatusPath → Bool → PathEnd
check_paths item [] verified = holds verified
check_paths item (path ∷ paths) verified = elim (check_path item path) [
  | ends round ↦ ends round
  | holds valid ↦ check_paths item paths (verified && valid)
]

-- verifyCondition
unfoldable pub condition_round : List StatusPath → List Watched → Round
condition_round paths [] = ready
condition_round paths (item ∷ items) =
    let rest = condition_round paths items in
    elim (check_paths item paths true) [
      | ends round ↦ round
      | holds verified ↦ if verified then rest else again
    ]
