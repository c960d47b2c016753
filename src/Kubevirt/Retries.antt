-- ===== src/Kubevirt/Retries.antt =====
-- When a volume is added or removed.
use kube_burner.Prelude.{
  ℕ, zero, suc, String, Bool, false, Option, some, ◌≡◌, ◌<◌, ◌↔◌, ◌⊎◌, inl, inr, refl, ◌∙◌, ap,
  arith,
}
use mathlib.Core.Option.{some-injective}
use kube_burner.Prelude.{true, false, none, some, str_eq, Bool-cases, eq_iff, if◌then◌else◌}
use kube_burner.Prelude.Text.{append}
use kube_burner.Kubevirt.{
  data_volume, persistent_volume_claim, disk, lun, Outcome, fatal, fails, gives, ◌>>=◌, InputVars,
  AddVolumeOptions, get_string_value, get_bool_value, VolumeSource, DiskTarget, CallEnd, accepted,
  conflict, refused, VolumeClient, max_retries, retry_calls, or_else, mandatory,
  get_volume_source_from_volume, disk_target_of, checked_cache, add_volume, remove_volume,
}

-- One of the first calls is accepted, and those before it end in a conflict.
abbrev pub IsAccepted : (ℕ → CallEnd) → ℕ → Type 0
IsAccepted call left =
    (n : ℕ) × (n < left)
    × (call n ≡ accepted)
    × ((earlier : ℕ) → earlier < n → call earlier ≡ conflict)

CallEnd-cases :
    (e : CallEnd) → (e ≡ accepted) ⊎ ((e ≡ conflict) ⊎ ((text : String) × (e ≡ refused text)))
CallEnd-cases accepted = inl refl
CallEnd-cases conflict = inr (inl refl)
CallEnd-cases (refused text) = inr (inr (text, refl))

IsAccepted-retry :
    (doing : String) (call : ℕ → CallEnd) (left : ℕ)
    → IsAccepted call left
    → retry_calls doing call left ≡ gives tt
unfolding retry_calls
IsAccepted-retry doing call zero (n, below, e, before) = absurd (omega arith)
IsAccepted-retry doing call (suc left) (zero, below, e, before) = rw (e, retry_calls) refl
IsAccepted-retry doing call (suc left) (suc n, below, e, before) =
    rw (before 0 (omega arith), retry_calls)
      (IsAccepted-retry doing (λ i. call (suc i)) left
        (n, (omega arith), e, (λ earlier h. before (suc earlier) (omega arith))))

shift-IsAccepted :
    (call : ℕ → CallEnd) (left : ℕ)
    → call 0 ≡ conflict
    → IsAccepted (λ i. call (suc i)) left
    → IsAccepted call (suc left)
shift-IsAccepted call left first (n, below, e, before) = (suc n, (omega arith), e, earlier_conflict)
  where
    earlier_conflict : (earlier : ℕ) → earlier < suc n → call earlier ≡ conflict
    earlier_conflict zero h = first
    earlier_conflict (suc earlier) h = before earlier (omega arith)

retry-IsAccepted :
    (doing : String) (call : ℕ → CallEnd) (left : ℕ)
    → retry_calls doing call left ≡ gives tt
    → IsAccepted call left
unfolding retry_calls
retry-IsAccepted doing call zero h = cc
retry-IsAccepted doing call (suc left) h = elim (CallEnd-cases (call 0)) [
  | inl e ↦ (0, (omega arith), e, (λ earlier below. absurd (omega arith)))
  | inr (inl e) ↦
      shift-IsAccepted call left e
        (retry-IsAccepted doing (λ i. call (suc i)) left (rw (e, retry_calls) at h))
  | inr (inr (text, e)) ↦ (let bad = rw (e, retry_calls) at h in cc)
]

retry_iff :
    (doing : String) (call : ℕ → CallEnd) (left : ℕ)
    → (retry_calls doing call left ≡ gives tt) ↔ IsAccepted call left
retry_iff doing call left = (retry-IsAccepted doing call left, IsAccepted-retry doing call left)

bind_iff :
    {A B : Type 0} {Known Q : A → Type 0} (m : Outcome A) (f : A → Outcome B) (b : B)
    → ((a : A) → (m ≡ gives a) ↔ Known a)
    → ((a : A) → (f a ≡ gives b) ↔ Q a)
    → ((m >>= f) ≡ gives b) ↔ ((a : A) × Known a × Q a)
unfolding ◌>>=◌
bind_iff fatal f b known later = ((λ h. cc), (λ (a, h, q). let e = (known a).1 h in cc))
bind_iff (fails text) f b known later = ((λ h. cc), (λ (a, h, q). let e = (known a).1 h in cc))
bind_iff (gives a) f b known later = (
  (λ h. (a, (known a).0 refl, (later a).0 h)),
  (λ (c, h, q). ap (λ o. o >>= f) ((known c).1 h) ∙ (later c).1 q),
)

-- A data volume of the name, or where there is none a claim of the name.
abbrev pub IsSource : VolumeClient → String → String → VolumeSource → Type 0
IsSource k ns name source =
    ((k.has_data_volume ns name ≡ true) × (source ≡ data_volume name))
    ⊎ ((k.has_data_volume ns name ≡ false)
        × (k.has_claim ns name ≡ true)
        × (source ≡ persistent_volume_claim name))

IsSource-iff :
    (k : VolumeClient) (name ns : String) (source : VolumeSource)
    → (get_volume_source_from_volume k name ns ≡ gives source) ↔ IsSource k ns name source
unfolding get_volume_source_from_volume
IsSource-iff k name ns source = by_answers (k.has_data_volume ns name) (k.has_claim ns name)
  where
    by_answers :
        (has_volume has_claim : Bool)
        → ((if has_volume
              then gives (data_volume name)
              else if has_claim
              then gives (persistent_volume_claim name)
              else fails
                  (append "volume " (append name " is not a DataVolume or PersistentVolumeClaim")))
            ≡ gives source)
          ↔ (((has_volume ≡ true) × (source ≡ data_volume name))
              ⊎ ((has_volume ≡ false)
                  × (has_claim ≡ true)
                  × (source ≡ persistent_volume_claim name)))
    by_answers true has_claim =
        ((λ h. inl (refl, cc)), (λ h. elim h [ inl (e, same) ↦ cc | inr (e, g, same) ↦ cc ]))
    by_answers false true =
        ((λ h. inr (refl, refl, cc)), (λ h. elim h [ inl (e, same) ↦ cc | inr (e, g, same) ↦ cc ]))
    by_answers false false =
        ((λ h. cc), (λ h. elim h [ inl (e, same) ↦ cc | inr (e, g, same) ↦ cc ]))

-- The two types of a disk.
abbrev pub IsTarget : String → DiskTarget → Type 0
IsTarget disk_type target =
    ((disk_type ≡ "disk") × (target ≡ disk)) ⊎ ((disk_type ≡ "lun") × (target ≡ lun))

IsTarget-iff :
    (disk_type : String) (target : DiskTarget)
    → (disk_target_of disk_type ≡ gives target) ↔ IsTarget disk_type target
unfolding disk_target_of
IsTarget-iff disk_type target = (there, back)
  where
    there : disk_target_of disk_type ≡ gives target → IsTarget disk_type target
    there h = elim (Bool-cases (str_eq disk_type "disk")) [
      | inl e ↦ let g = rw (e, disk_target_of) at h in inl ((eq_iff disk_type "disk").0 e, cc)
      | inr e ↦ elim (Bool-cases (str_eq disk_type "lun")) [
        | inl l ↦ let g = rw (e, l, disk_target_of) at h in inr ((eq_iff disk_type "lun").0 l, cc)
        | inr l ↦ let g = rw (e, l, disk_target_of) at h in cc
      ]
    ]

    back : IsTarget disk_type target → disk_target_of disk_type ≡ gives target
    back (inl (e, same)) = rw (e, same) refl
    back (inr (e, same)) = rw (e, same) refl

-- No cache, or one of the three that are known.
abbrev pub IsCache : Option String → Type 0
IsCache cache =
    (cache ≡ none)
    ⊎ ((cache ≡ some "none") ⊎ ((cache ≡ some "writethrough") ⊎ (cache ≡ some "writeback")))

IsCache-iff :
    (cache checked : Option String)
    → (checked_cache cache ≡ gives checked) ↔ (IsCache cache × (checked ≡ cache))
unfolding checked_cache
IsCache-iff none checked = ((λ h. (inl refl, cc)), (λ (h, same). cc))
IsCache-iff (some cache) checked = (there, back)
  where
    there :
        checked_cache (some cache) ≡ gives checked → IsCache (some cache) × (checked ≡ some cache)
    there h = elim (Bool-cases (str_eq cache "none")) [
      | inl e ↦
          let g = rw (e, checked_cache) at h in
          (inr (inl (ap some ((eq_iff cache "none").0 e))), cc)
      | inr e ↦ elim (Bool-cases (str_eq cache "writethrough")) [
        | inl t ↦
            let g = rw (e, t, checked_cache) at h in
            (inr (inr (inl (ap some ((eq_iff cache "writethrough").0 t)))), cc)
        | inr t ↦ elim (Bool-cases (str_eq cache "writeback")) [
          | inl b ↦
              let g = rw (e, t, b, checked_cache) at h in
              (inr (inr (inr (ap some ((eq_iff cache "writeback").0 b)))), cc)
          | inr b ↦ let g = rw (e, t, b, checked_cache) at h in cc
        ]
      ]
    ]

    back :
        IsCache (some cache) × (checked ≡ some cache) → checked_cache (some cache) ≡ gives checked
    back (inl e, same) = cc
    back (inr (inl e), same) = rw (same, some-injective cache "none" e) refl
    back (inr (inr (inl e)), same) = rw (same, some-injective cache "writethrough" e) refl
    back (inr (inr (inr e)), same) = rw (same, some-injective cache "writeback" e) refl

-- What addVolume asks for.
abbrev pub request : String → VolumeSource → DiskTarget → String → Option String → AddVolumeOptions
request name source target serial checked = record {
  name = name;
  source = source;
  target = target;
  serial = serial;
  cache = checked;
}

module _ (k : VolumeClient) (vmi_name ns : String) (vars : InputVars) (name : String)
    (persist : Option Bool) where
  -- removeVolume with a name and a readable `persist` succeeds exactly when one of its first 15 calls
  -- is accepted and those before it end in a conflict.
  pub remove_volume_iff :
      get_string_value vars "volumeName" ≡ gives (some name)
      → get_bool_value vars "persist" ≡ gives persist
      → (remove_volume k vmi_name ns vars ≡ gives tt)
        ↔ IsAccepted (k.remove ns vmi_name (or_else persist false) name) 15
  unfolding remove_volume mandatory ◌>>=◌
  remove_volume_iff given persists =
      rw (given, persists)
        (retry_iff "removing" (k.remove ns vmi_name (or_else persist false) name) max_retries)

  -- addVolume with a name and readable variables succeeds exactly when the name is one of a data
  -- volume or else of a claim, the disk type, `disk` where none is given, is `disk` or `lun`, the cache
  -- is `none`, `writethrough` or `writeback` where it is given, and one of its first 15 calls is
  -- accepted and those before it end in a conflict. A call asks for that volume, with the name as the
  -- serial where none is given.
  pub add_volume_iff :
      (disk_type serial cache : Option String)
      → get_string_value vars "volumeName" ≡ gives (some name)
      → get_string_value vars "diskType" ≡ gives disk_type
      → get_string_value vars "serial" ≡ gives serial
      → get_string_value vars "cache" ≡ gives cache
      → get_bool_value vars "persist" ≡ gives persist
      → (add_volume k vmi_name ns vars ≡ gives tt) ↔ (
          (source : VolumeSource) × IsSource k ns name source
          × ((target : DiskTarget) × IsTarget (or_else disk_type "disk") target
              × ((checked : Option String) × (IsCache cache × (checked ≡ cache))
                  × IsAccepted
                      (k.add ns vmi_name
                        (or_else persist false)
                        (request name source target (or_else serial name) checked))
                      15)))
  unfolding add_volume mandatory ◌>>=◌
  add_volume_iff disk_type serial cache given typed serialled cached persists =
      rw (given, typed, serialled, cached, persists)
        (bind_iff (get_volume_source_from_volume k name ns) _ tt (IsSource-iff k name ns) (λ source.
          bind_iff (disk_target_of (or_else disk_type "disk")) _ tt
            (IsTarget-iff (or_else disk_type "disk"))
            (λ target. bind_iff (checked_cache cache) _ tt (IsCache-iff cache) (λ checked.
              retry_iff "adding"
                (k.add ns vmi_name (or_else persist false)
                  (request name source target (or_else serial name) checked))
                max_retries))))
