-- ===== src/Tests/Kubevirt.antt =====
-- Tests of the adding of a volume.
use kube_burner.Prelude.{
  zero, suc, String, true, false, [], ◌∷◌, Option, none, some, ◌≡◌, ◌↔◌, refl,
}
use kube_burner.Kubevirt.{
  InputVars, text, other, boolean, VolumeSource, DiskTarget, VolumeClient, accepted, conflict,
  gives, fatal, add_volume, get_bool_value, get_string_value, bool_of, string_of,
}
use kube_burner.Prelude.Maps.{lookup}
use kube_burner.Kubevirt.Retries.{IsAccepted, IsSource, IsTarget, IsCache, request, add_volume_iff}

abbrev volume_vars : InputVars
volume_vars = ("volumeName", text "vol") ∷ ("diskType", text "lun") ∷ ("persist", boolean true) ∷ []

-- The volume is one of a claim, and the third call is accepted.
abbrev hotplug : VolumeClient
hotplug = record {
  has_data_volume = λ ns name. false;
  has_claim = λ ns name. true;
  add = λ ns vm persist options n. elim n [
    | zero ↦ conflict
    | suc m ↦ elim m [ zero ↦ conflict | suc i ↦ accepted ]
  ];
  remove = λ ns vm persist name n. accepted;
}

add_volume_iff_example : (add_volume hotplug "vm" "ns" volume_vars ≡ gives tt) ↔ (
    (source : VolumeSource) × IsSource hotplug "ns" "vol" source
    × ((target : DiskTarget) × IsTarget "lun" target
        × ((checked : Option String) × (IsCache none × (checked ≡ none))
            × IsAccepted
                (hotplug.add "ns" "vm" true (request "vol" source target "vol" checked))
                15)))
unfolding get_string_value get_bool_value string_of bool_of lookup
add_volume_iff_example =
    add_volume_iff hotplug "vm" "ns" volume_vars "vol" (some true) (some "lun") none none refl refl
      refl refl refl

-- A number of YAML without a fraction is no value that GetBoolValue reads.
number_is_fatal : get_bool_value (("persist", other) ∷ []) "persist" ≡ fatal
unfolding get_bool_value bool_of lookup
number_is_fatal = refl
