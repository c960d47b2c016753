-- ===== src/Prelude/Int.antt =====
-- Signed integers over the native numbers, under the library's names (its ℤ stands on the unary
-- ℕ). Sums and orders go through the two parts of an integer, which are numbers that `omega` reads.
use Prim.Native.Nat.{ℕ, suc, ◌+◌, ◌-◌, ◌*◌, ◌≤◌, ◌<◌, ◌%◌, ◌^◌}
use mathlib.Core.Path.{◌≡◌, refl, ap, ◌∙◌}
use mathlib.Core.Bool.{Bool}
use native.Mathlib.Omega.{arith}
use kube_burner.Prelude.Tests.{ltb, leb, ◌==◌, if◌then◌else◌}

-- `negsuc n` is -(n + 1).
pub data ℤ : Type 0 where
  pos : ℕ → ℤ
  negsuc : ℕ → ℤ

abbrev pub pos_part : ℤ → ℕ
pos_part (pos n) = n
pos_part (negsuc n) = 0

abbrev pub neg_part : ℤ → ℕ
neg_part (pos n) = 0
neg_part (negsuc n) = suc n

abbrev pub sub_ℕ : ℕ → ℕ → ℤ
sub_ℕ a b = if leb b a then pos (a - b) else negsuc (b - a - 1)

infixl 65 ◌+ℤ◌ ◌-ℤ◌
infixl 70 ◌*ℤ◌
infix 50 ◌≤ℤ◌ ◌<ℤ◌
unfoldable pub ◌+ℤ◌ : ℤ → ℤ → ℤ
a +ℤ b = sub_ℕ (pos_part a + pos_part b) (neg_part a + neg_part b)

unfoldable pub ◌-ℤ◌ : ℤ → ℤ → ℤ
a -ℤ b = sub_ℕ (pos_part a + neg_part b) (neg_part a + pos_part b)

unfoldable pub ◌*ℤ◌ : ℤ → ℤ → ℤ
a *ℤ b =
    sub_ℕ (pos_part a * pos_part b + neg_part a * neg_part b)
      (pos_part a * neg_part b + neg_part a * pos_part b)

abbrev pub ◌≤ℤ◌ : ℤ → ℤ → Type 0
a ≤ℤ b = pos_part a + neg_part b ≤ pos_part b + neg_part a

abbrev pub ◌<ℤ◌ : ℤ → ℤ → Type 0
a <ℤ b = suc (pos_part a + neg_part b) ≤ pos_part b + neg_part a

abbrev pub ltb_ℤ : ℤ → ℤ → Bool
ltb_ℤ a b = ltb (pos_part a + neg_part b) (pos_part b + neg_part a)

abbrev pub leb_ℤ : ℤ → ℤ → Bool
leb_ℤ a b = leb (pos_part a + neg_part b) (pos_part b + neg_part a)

abbrev pub eqb_ℤ : ℤ → ℤ → Bool
eqb_ℤ a b = (pos_part a + neg_part b) == (pos_part b + neg_part a)

pub +ℤ_parts :
    (a b : ℤ)
    → pos_part (a +ℤ b) + neg_part a + neg_part b ≡ neg_part (a +ℤ b) + pos_part a + pos_part b
unfolding ◌+ℤ◌
+ℤ_parts a b = ground arith

pub -ℤ_parts :
    (a b : ℤ)
    → pos_part (a -ℤ b) + neg_part a + pos_part b ≡ neg_part (a -ℤ b) + pos_part a + neg_part b
unfolding ◌-ℤ◌
-ℤ_parts a b = ground arith

pub eq_of_parts : (a b : ℤ) → pos_part a + neg_part b ≡ pos_part b + neg_part a → a ≡ b
eq_of_parts a b h = ground arith

pub ruleset int_laws = (arith, +ℤ_parts, -ℤ_parts, eq_of_parts)

-- An integer that is at least 0 is a number.
pub nonneg-eq-pos : (a : ℤ) → pos 0 ≤ℤ a → a ≡ pos (pos_part a)
nonneg-eq-pos a h = ground arith

pub nonneg_parts : (a : ℤ) → pos 0 ≤ℤ a → neg_part a ≡ 0
nonneg_parts (pos n) h = refl
nonneg_parts (negsuc n) h = absurd (omega arith)

-- Go's int has 64 bits: the integer in [-2 ^ 63, 2 ^ 63) that is equal modulo 2 ^ 64.
unfoldable pub wrap64 : ℤ → ℤ
wrap64 (pos n) = let m = n % 2 ^ 64 in if ltb m (2 ^ 63) then pos m else negsuc (2 ^ 64 - m - 1)
wrap64 (negsuc n) = let m = n % 2 ^ 64 in if ltb m (2 ^ 63) then negsuc m else pos (2 ^ 64 - m - 1)

unfoldable pub add64 : ℤ → ℤ → ℤ
add64 a b = wrap64 (a +ℤ b)

unfoldable pub sub64 : ℤ → ℤ → ℤ
sub64 a b = wrap64 (a -ℤ b)

unfoldable pub mul64 : ℤ → ℤ → ℤ
mul64 a b = wrap64 (a *ℤ b)

-- In range nothing wraps.
pub wrap64_id : (a : ℤ) → pos_part a < 2 ^ 63 → neg_part a ≤ 2 ^ 63 → wrap64 a ≡ a
unfolding wrap64
wrap64_id (pos n) h k = ground arith
wrap64_id (negsuc n) h k = ground arith

pub add64-eq :
    (a b : ℤ) → pos 0 ≤ℤ a → pos 0 ≤ℤ b → a <ℤ pos (2 ^ 62) → b ≤ℤ pos (2 ^ 62) → add64 a b ≡ a +ℤ b
unfolding add64 ◌+ℤ◌
add64-eq a b ha hb ka kb = wrap64_id (a +ℤ b) (ground arith) (ground arith)

pub sub64-eq :
    (a b : ℤ) → pos 0 ≤ℤ b → b ≤ℤ a → a <ℤ pos (2 ^ 62) → sub64 a b ≡ pos (pos_part a - pos_part b)
unfolding sub64 ◌-ℤ◌
sub64-eq (pos a) (pos b) hb h ka =
    ap wrap64 (in_range a b (omega arith)) ∙ wrap64_id (pos (a - b)) (omega arith) (omega arith)
  where
    in_range : (a b : ℕ) → b ≤ a → sub_ℕ (a + 0) (0 + b) ≡ pos (a - b)
    in_range a b le = ground arith
sub64-eq (pos a) (negsuc b) hb h ka = absurd (omega arith)
sub64-eq (negsuc a) b hb h ka = absurd (omega (arith, nonneg_parts b hb))

pub add64-pos : (a b : ℕ) → a < 2 ^ 62 → b ≤ 2 ^ 62 → add64 (pos a) (pos b) ≡ pos (a + b)
unfolding add64 ◌+ℤ◌
add64-pos a b ha hb = ap wrap64 (sum a b) ∙ wrap64_id (pos (a + b)) (omega arith) (omega arith)
  where
    sum : (a b : ℕ) → sub_ℕ (a + b) (0 + 0) ≡ pos (a + b)
    sum a b = ground arith

pub mul64-pos : (a b : ℕ) → a * b < 2 ^ 63 → mul64 (pos a) (pos b) ≡ pos (a * b)
unfolding mul64 ◌*ℤ◌
mul64-pos a b h = ap wrap64 (product a b) ∙ wrap64_id (pos (a * b)) (omega arith) (omega arith)
  where
    product : (a b : ℕ) → sub_ℕ (a * b + 0 * 0) (a * 0 + 0 * b) ≡ pos (a * b)
    product a b = ground arith
