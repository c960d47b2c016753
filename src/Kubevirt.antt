-- ===== src/Kubevirt.antt =====
-- pkg/burner/kubevirt.go: adding a volume to a virtual machine and removing it, with the readers of
-- input variables of pkg/util/utils.go. The answers of the KubeVirt client are a `VolumeClient`; an
-- outcome `none` is a log.Fatal.
pub mod Retries
use kube_burner.Prelude.{
  ℕ, zero, suc, String, str_eq, Bool, true, false, ◌||◌, List, [], ◌∷◌, Option, none, some,
  if◌then◌else◌,
}
use kube_burner.Prelude.Maps.{lookup}
use kube_burner.Prelude.Text.{append}

-- A value of the input variables: a float is given by its text and by whether it is 1.
pub data InputValue : Type 0 where
  text : String → InputValue
  float : String → Bool → InputValue
  boolean : Bool → InputValue
  other : InputValue

abbrev pub InputVars : Type 0
InputVars = List (String × InputValue)

-- A log.Fatal, an error that is returned, or a result.
pub data Outcome (A : Type 0) : Type 0 where
  fatal : Outcome A
  fails : String → Outcome A
  gives : A → Outcome A

infixl 20 ◌>>=◌
unfoldable pub ◌>>=◌ : {A B : Type 0} → Outcome A → (A → Outcome B) → Outcome B
fatal >>= f = fatal
fails e >>= f = fails e
gives a >>= f = f a

unfoldable pub string_of : Option InputValue → Outcome (Option String)
string_of none = gives none
string_of (some (text v)) = gives (some v)
string_of (some (float v is_one)) = gives (some v)
string_of (some (boolean true)) = gives (some "true")
string_of (some (boolean false)) = gives (some "false")
string_of (some other) = fatal

unfoldable pub get_string_value : InputVars → String → Outcome (Option String)
get_string_value vars key = string_of (lookup key vars)

unfoldable pub bool_of : Option InputValue → Outcome (Option Bool)
bool_of none = gives none
bool_of (some (boolean v)) = gives (some v)
bool_of (some (text v)) =
    if str_eq v "true"
    then gives (some true)
    else if str_eq v "false"
    then gives (some false)
    else fatal
bool_of (some (float v is_one)) = gives (some is_one)
bool_of (some other) = fatal

unfoldable pub get_bool_value : InputVars → String → Outcome (Option Bool)
get_bool_value vars key = bool_of (lookup key vars)

pub data VolumeSource : Type 0 where
  data_volume persistent_volume_claim : String → VolumeSource

pub data DiskTarget : Type 0 where
  disk lun : DiskTarget

pub record AddVolumeOptions : Type 0 where
  pub name : String
  pub source : VolumeSource
  pub target : DiskTarget
  pub serial : String
  pub cache : Option String

-- How a call ends.
pub data CallEnd : Type 0 where
  accepted conflict : CallEnd
  refused : String → CallEnd

-- The answers to Get, and those to the calls by their number. A call is one for the machine where it
-- persists, and otherwise one for its instance.
pub record VolumeClient : Type 0 where
  pub has_data_volume : String → String → Bool
  pub has_claim : String → String → Bool
  pub add : String → String → Bool → AddVolumeOptions → ℕ → CallEnd
  pub remove : String → String → Bool → String → ℕ → CallEnd

abbrev pub max_retries : ℕ
max_retries = 15

-- The loop of calls, with the calls that are left.
unfoldable pub retry_calls : String → (ℕ → CallEnd) → ℕ → Outcome (Unit {0})
retry_calls doing call zero = fails (append "error " (append doing " volume after 15 retries"))
retry_calls doing call (suc left) =
    let later = retry_calls doing (λ n. call (suc n)) left in
    elim (call 0) [
      | accepted ↦ gives tt
      | conflict ↦ later
      | refused e ↦ fails (append "error " (append doing (append " volume, " e)))
    ]

abbrev pub or_else : {A : Type 0} → Option A → A → A
or_else none fallback = fallback
or_else (some a) fallback = a

unfoldable pub mandatory : Option String → Outcome String
mandatory none = fails "'volumeName' is mandatory"
mandatory (some name) = gives name

unfoldable pub get_volume_source_from_volume : VolumeClient → String → String → Outcome VolumeSource
get_volume_source_from_volume k name ns =
    if k.has_data_volume ns name
    then gives (data_volume name)
    else if k.has_claim ns name
    then gives (persistent_volume_claim name)
    else fails (append "volume " (append name " is not a DataVolume or PersistentVolumeClaim"))

unfoldable pub disk_target_of : String → Outcome DiskTarget
disk_target_of disk_type =
    if str_eq disk_type "disk"
    then gives disk
    else if str_eq disk_type "lun"
    then gives lun
    else fails
        (append "invalid disk type '" (append disk_type "'. Only LUN and Disk are supported"))

unfoldable pub checked_cache : Option String → Outcome (Option String)
checked_cache none = gives none
checked_cache (some cache) =
    if str_eq cache "none" || str_eq cache "writethrough" || str_eq cache "writeback"
    then gives (some cache)
    else fails (append "error adding volume, invalid cache value " cache)

unfoldable pub add_volume : VolumeClient → String → String → InputVars → Outcome (Unit {0})
add_volume k vmi_name ns extra_args = do
  given ← get_string_value extra_args "volumeName"
  name ← mandatory given
  disk_type ← get_string_value extra_args "diskType"
  serial ← get_string_value extra_args "serial"
  cache ← get_string_value extra_args "cache"
  persist ← get_bool_value extra_args "persist"
  source ← get_volume_source_from_volume k name ns
  target ← disk_target_of (or_else disk_type "disk")
  checked ← checked_cache cache
  retry_calls "adding"
      (k.add ns vmi_name (or_else persist false) (record {
        name = name;
        source = source;
        target = target;
        serial = or_else serial name;
        cache = checked;
      }))
      max_retries

unfoldable pub remove_volume : VolumeClient → String → String → InputVars → Outcome (Unit {0})
remove_volume k vmi_name ns extra_args = do
  given ← get_string_value extra_args "volumeName"
  name ← mandatory given
  persist ← get_bool_value extra_args "persist"
  retry_calls "removing" (k.remove ns vmi_name (or_else persist false) name) max_retries
