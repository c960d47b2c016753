-- ===== src/Prelude/Maps.antt =====
-- Go maps with text keys, as association lists: `m[k]`, `m[k] = v` and `maps.Copy`.
use Prim.Native.String.{String}
use mathlib.Core.Path.{◌≡◌, refl, sym, ◌∙◌}
use mathlib.Core.Bool.{Bool, false}
use mathlib.Core.List.{List, [], ◌∷◌}
use mathlib.Core.Option.{Option, none, some}
use native.Mathlib.Omega.{arith}
use text.Mathlib.Text.{◌==◌}
use text.Mathlib.TextEquality.{eq_iff}
use text.Mathlib.TextPositions.{eq_refl}
use kube_burner.Prelude.Tests.{if◌then◌else◌}

module _ {ℓ} {V : Type ℓ} where
  unfoldable pub lookup : String → List (String × V) → Option V
  lookup key [] = none
  lookup key ((here, val) ∷ rest) =
      let deeper = lookup key rest in if here == key then some val else deeper

  unfoldable pub insert : String → V → List (String × V) → List (String × V)
  insert key val [] = (key, val) ∷ []
  insert key val ((here, old) ∷ rest) =
      let deeper = insert key val rest in
      if here == key then (key, val) ∷ rest else (here, old) ∷ deeper

  -- maps.Copy(dst, src)
  unfoldable pub copy : List (String × V) → List (String × V) → List (String × V)
  copy dst [] = dst
  copy dst ((k, v) ∷ src) = copy (insert k v dst) src

  pub lookup-insert :
      (key other : String) (val : V) (entries : List (String × V))
      → (if key == other then some val else lookup other entries)
        ≡ lookup other (insert key val entries)
  unfolding insert lookup
  lookup-insert key other val [] = refl
  lookup-insert key other val (entry ∷ rest) =
      let later = lookup-insert key other val rest in
      ground (arith, later, eq_iff (entry.0) other, eq_iff (entry.0) key, eq_iff key other)

  pub lookup-insert_self :
      (k : String) (v : V) (m : List (String × V)) → lookup k (insert k v m) ≡ some v
  lookup-insert_self k v m = sym (lookup-insert k k v m) ∙ rw (eq_refl k) refl

-- A map into Bool, read at a missing key, is false.
abbrev pub flag : String → List (String × Bool) → Bool
flag k m = elim (lookup k m) [ none ↦ false | some b ↦ b ]
