-- ===== src/Waiters/Conditions.antt =====
-- pkg/burner/conditions.go and the table of pkg/burner/waiters.go: the status paths of the kinds that
-- are waited for by a condition.
use kube_burner.Prelude.{
  String, str_eq, Bool, false, List, [], ◌∷◌, Option, none, some, if◌then◌else◌,
}
use kube_burner.Prelude.Int.{ℤ, pos, ltb_ℤ}
use kube_burner.Prelude.Text.{append, itoa}
use kube_burner.Config.Types.{StatusPath}

pub record ConditionCheckParam : Type 0 where
  pub condition_field : String
  pub expected_value : String

pub record ConditionCheckConfig : Type 0 where
  pub condition_type : String
  pub condition_check_params : List ConditionCheckParam
  pub time_greater_than : Bool

-- ((.conditions // []) | .[] | select(.type == "T"))
selected : String → String
selected condition_type =
    append "((.conditions // []) | .[] | select(.type == \"" (append condition_type "\"))")

pub to_status_path : ConditionCheckParam → String → StatusPath
to_status_path ccp condition_type = record {
  key = append (selected condition_type) (append "." ccp.condition_field);
  value = ccp.expected_value;
}

time_path : ConditionCheckConfig → ℤ → StatusPath
time_path ccc time = record {
  key = append (selected ccc.condition_type) (
      append ".lastTransitionTime | strptime(\"%Y-%m-%dT%H:%M:%SZ\") | mktime " (
        append (if ccc.time_greater_than then ">" else ">=")
          (append " " (append (itoa time) " | tostring"))));
  value = "true";
}

params_paths : List ConditionCheckParam → String → List StatusPath
params_paths [] condition_type = []
params_paths (ccp ∷ params) condition_type =
    to_status_path ccp condition_type ∷ params_paths params condition_type

pub to_status_paths : ConditionCheckConfig → ℤ → List StatusPath
to_status_paths ccc time =
    let params = params_paths ccc.condition_check_params ccc.condition_type in
    if ltb_ℤ (pos 0) time then time_path ccc time ∷ params else params

abbrev pub condition_check_param_status_true : ConditionCheckParam
condition_check_param_status_true = record { condition_field = "status"; expected_value = "True" }

with_type : String → ConditionCheckConfig
with_type condition_type = record {
  condition_type = condition_type;
  condition_check_params = condition_check_param_status_true ∷ [];
  time_greater_than = false;
}

-- waitersConditionPaths
pub waiters_condition_paths : String → Option ConditionCheckConfig
waiters_condition_paths kind =
    if str_eq kind "Job"
    then some (with_type "Complete")
    else if str_eq kind "VirtualMachine"
    then some (with_type "Ready")
    else if str_eq kind "VirtualMachineInstance"
    then some (with_type "Ready")
    else if str_eq kind "DataVolume"
    then some (with_type "Ready")
    else if str_eq kind "DataSource"
    then some (with_type "Ready")
    else none
