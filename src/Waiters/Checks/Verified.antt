-- ===== src/Waiters/Checks/Verified.antt =====
-- When a round of verifyCondition is done.
use kube_burner.Prelude.{
  String, Bool, true, false, ◌&&◌, List, [], ◌∷◌, Option, none, some, ◌≡◌, ◌↔◌, refl, All,
  if◌then◌else◌,
}
use kube_burner.Config.Types.{StatusPath}
use kube_burner.Waiters.Checks.{
  Watched, StatusField, unreadable, missing_status, no_fields, with_fields, JqResult, Round, again,
  ready, stops, PathEnd, ends, holds, holds_value, check_path, check_paths, condition_round,
}

-- The status has fields, and the query gives the value before any error.
abbrev pub IsValid : Watched → StatusPath → Type 0
IsValid item path =
    (item.status ≡ with_fields)
    × (results : List JqResult) × (item.query path.key ≡ some results)
    × (holds_value path.value results ≡ true)

-- An end says whether a claim holds.
data Decides (P : Type 0) : PathEnd → Type 0 where
  valid : P → Decides P (holds true)
  invalid : ¬ P → Decides P (holds false)
  over_again : ¬ P → Decides P (ends again)
  over_stops : ¬ P → (e : String) → Decides P (ends (stops e))

path_of : StatusField → Option (List JqResult) → String → PathEnd
path_of status found value = elim status [
  | unreadable ↦ ends (stops "status")
  | missing_status ↦ ends again
  | no_fields ↦ holds false
  | with_fields ↦ elim found [
    | none ↦ ends (stops "jq")
    | some results ↦ holds (holds_value value results)
  ]
]

bool-Decides : {P : Type 0} (b : Bool) → (P → b ≡ true) → (b ≡ true → P) → Decides P (holds b)
bool-Decides true to from = valid (from refl)
bool-Decides false to from = invalid (λ p. let h = to p in cc)

path-Decides :
    (status : StatusField) (found : Option (List JqResult)) (value : String)
    → Decides
        ((status ≡ with_fields)
          × (results : List JqResult) × (found ≡ some results)
          × (holds_value value results ≡ true))
        (path_of status found value)
unfolding path_of
path-Decides unreadable found value = over_stops (λ (e, results, f, g). cc) "status"
path-Decides missing_status found value = over_again (λ (e, results, f, g). cc)
path-Decides no_fields found value = invalid (λ (e, results, f, g). cc)
path-Decides with_fields none value = over_stops (λ (e, results, f, g). cc) "jq"
path-Decides with_fields (some given) value =
    bool-Decides (holds_value value given) (λ (e, results, f, g). cc) (λ h. (refl, given, refl, h))

map-Decides : {P Q : Type 0} {end : PathEnd} → (P → Q) → (Q → P) → Decides P end → Decides Q end
map-Decides to from (valid p) = valid (to p)
map-Decides to from (invalid np) = invalid (λ q. np (from q))
map-Decides to from (over_again np) = over_again (λ q. np (from q))
map-Decides to from (over_stops np e) = over_stops (λ q. np (from q)) e

paths_from : (Bool → PathEnd) → PathEnd → Bool → PathEnd
paths_from rest end verified = elim end [
  | ends round ↦ ends round
  | holds is_valid ↦ rest (verified && is_valid)
]

cons-Decides :
    {P Q : Type 0} {end : PathEnd} (rest : Bool → PathEnd) (verified : Bool)
    → ((b : Bool) → Decides ((b ≡ true) × Q) (rest b))
    → Decides P end
    → Decides ((verified ≡ true) × (P × Q)) (paths_from rest end verified)
unfolding paths_from
cons-Decides rest true later (valid p) =
    map-Decides (λ (v, q). (v, (p, q))) (λ (v, (p, q)). (v, q)) (later true)
cons-Decides rest false later (valid p) =
    map-Decides (λ (v, q). (v, (p, q))) (λ (v, (p, q)). (v, q)) (later false)
cons-Decides rest true later (invalid np) =
    map-Decides (λ (v, q). let h = v in cc) (λ (v, (p, q)). absurd (np p)) (later false)
cons-Decides rest false later (invalid np) =
    map-Decides (λ (v, q). let h = v in cc) (λ (v, (p, q)). absurd (np p)) (later false)
cons-Decides rest verified later (over_again np) = over_again (λ (v, (p, q)). np p)
cons-Decides rest verified later (over_stops np e) = over_stops (λ (v, (p, q)). np p) e

paths-Decides :
    (item : Watched) (paths : List StatusPath) (verified : Bool)
    → Decides ((verified ≡ true) × All (IsValid item) paths) (check_paths item paths verified)
unfolding check_paths check_path paths_from path_of
paths-Decides item [] verified = bool-Decides verified (λ (v, t). v) (λ v. (v, tt))
paths-Decides item (path ∷ paths) verified =
    cons-Decides (check_paths item paths) verified (λ b. paths-Decides item paths b)
      (path-Decides item.status (item.query path.key) path.value)

round_from : Round → PathEnd → Round
round_from rest end = elim end [
  | ends round ↦ round
  | holds verified ↦ if verified then rest else again
]

round_iff :
    {P Q : Type 0} {end : PathEnd} (rest : Round)
    → Decides P end
    → (rest ≡ ready) ↔ Q
    → (round_from rest end ≡ ready) ↔ (P × Q)
unfolding round_from
round_iff rest (valid p) later = ((λ h. (p, later.0 h)), (λ (p, q). later.1 q))
round_iff rest (invalid np) later = ((λ h. cc), (λ (p, q). absurd (np p)))
round_iff rest (over_again np) later = ((λ h. cc), (λ (p, q). absurd (np p)))
round_iff rest (over_stops np e) later = ((λ h. cc), (λ (p, q). absurd (np p)))

-- A round of verifyCondition is done exactly when for every object that is listed and every status
-- path, the status has fields and the path's query gives the path's value before any error.
pub condition_round_iff :
    (paths : List StatusPath) (items : List Watched)
    → (condition_round paths items ≡ ready) ↔ All (λ item. All (IsValid item) paths) items
unfolding condition_round round_from
condition_round_iff paths [] = ((λ h. tt), (λ t. refl))
condition_round_iff paths (item ∷ items) =
    round_iff (condition_round paths items)
      (map-Decides (λ (v, all). all) (λ all. (refl, all)) (paths-Decides item paths true))
      (condition_round_iff paths items)
