-- ===== src/Create/Churn/Window/Bounds.antt =====
-- The window of namespaces that a cycle of churnNamespaces deletes.
use kube_burner.Prelude.{
  ℕ, zero, suc, ◌+◌, ◌-◌, ◌*◌, ◌/◌, ◌%◌, ◌≤◌, ◌<◌, ◌^◌, true, false, List, [], ◌∷◌, ltb, leb, max,
  min, ◌≡◌, refl, arith, ◌∙◌, String, length, length-take, Bool-cases, inl, inr, ltb→lt, some, take,
  drop,
}
use kube_burner.Prelude.Int.{pos, mul64-pos}
use kube_burner.Create.Namespaces.{quot_ℤ}
use kube_burner.Create.Churn.Window.{percent_of, align, random_start, slice}

part_le : (p total : ℕ) → p ≤ 100 → p * total / 100 ≤ total
part_le p total h = grind arith

percent_of-le :
    (p total : ℕ) → p ≤ 100 → 0 < total → total < 2 ^ 56 → percent_of (pos p) total ≤ total
unfolding percent_of quot_ℤ
percent_of-le p total h h0 hb =
    rw (mul64-pos p total (grind arith)) (omega (arith, part_le p total h))

multiple : (a r : ℕ) → 1 < r → a * r % r ≡ 0
multiple a r h = grind arith

div_le : (a r : ℕ) → 1 < r → a / r * r ≤ a
div_le a r h = grind arith

-- The window of a cycle.
abbrev start_of : (ℕ → ℕ) → ℕ → ℕ → ℕ → ℕ
start_of random r total n = random_start random r total (align r total n)

align-le : (r total n : ℕ) → n ≤ total → align r total n ≤ total
unfolding align
align-le r total n h = elim (Bool-cases (ltb 1 r)) [
  | inl e ↦ ground (arith, div_le total r (ltb→lt 1 r e))
  | inr e ↦ rw e h
]

align-multiple : (r total n : ℕ) → 1 < r → align r total n % r ≡ 0
unfolding align
align-multiple r total n h =
    ground (arith, multiple (total / r) r h, multiple ((n + r - 1) / r) r h)

random_start-multiple :
    (random : ℕ → ℕ) (r total n : ℕ) → 1 < r → random_start random r total n % r ≡ 0
unfolding random_start
random_start-multiple random r total n h =
    ground (arith, multiple (random ((total - n) / r + 1)) r h)

scaled_le : (a b r c : ℕ) → 1 < r → a < b / r + 1 → a * r ≤ b
scaled_le a b r c h k = grind arith

random_start-le :
    (random : ℕ → ℕ) (r total n : ℕ)
    → ((k : ℕ) → 0 < k → random k < k)
    → n ≤ total
    → random_start random r total n + n ≤ total
unfolding random_start
random_start-le random r total n rand h = elim (Bool-cases (ltb 1 r)) [
  | inl e ↦
      let below =
        scaled_le (random ((total - n) / r + 1)) (total - n) r 0 (ltb→lt 1 r e)
          (rand ((total - n) / r + 1) (omega arith)) in
      ground (arith)
  | inr e ↦ let below = rand (total + 1 - n) (omega arith) in ground arith
]

one_below : (r : ℕ) → 0 < r → ltb 1 r ≡ false → r ≡ 1
one_below r h e = ground arith

align_whole : (r total n : ℕ) → 0 < r → align r total n % r ≡ 0
unfolding align
align_whole r total n h = elim (Bool-cases (ltb 1 r)) [
  | inl e ↦ align-multiple r total n (ltb→lt 1 r e)
  | inr e ↦ rw (one_below r h e) (grind arith)
]

start_whole : (random : ℕ → ℕ) (r total n : ℕ) → 0 < r → random_start random r total n % r ≡ 0
unfolding random_start
start_whole random r total n h = elim (Bool-cases (ltb 1 r)) [
  | inl e ↦ random_start-multiple random r total n (ltb→lt 1 r e)
  | inr e ↦ rw (one_below r h e) (grind arith)
]

length-drop {ℓ} : {A : Type ℓ} (n : ℕ) (xs : List A) → length (drop n xs) ≡ length xs - n
length-drop zero xs = omega arith
length-drop (suc n) [] = omega arith
length-drop (suc n) (x ∷ xs) = omega (arith, length-drop n xs)

le→leb : (a b : ℕ) → a ≤ b → leb a b ≡ true
le→leb a b h = ground arith

slice-length {ℓ} :
    {A : Type ℓ} (xs : List A) (s n : ℕ)
    → s + n ≤ length xs
    → (ys : List A) × ((slice xs s (n + s) ≡ some ys) × (length ys ≡ n))
unfolding slice
slice-length xs s n h = (
  take (n + s - s) (drop s xs),
  (
    rw (le→leb (n + s) (length xs) (omega arith), le→leb s (n + s) (omega arith)) refl,
    length-take (n + s - s) (drop s xs) (omega (arith, length-drop s xs)) ∙ omega arith,
  ),
)

-- A cycle's slice of the listed namespaces is in range, has the number of namespaces that was
-- computed, and both its start and that number are multiples of the repeat. The conditions: there
-- is a namespace and there are fewer than 2^56, the percentage is at most 100, the repeat is at
-- least 1, and rand.Intn k is below k.
pub churn_window_lem :
    (xs : List String) (random : ℕ → ℕ) (percent r : ℕ)
    → 0 < length xs
    → length xs < 2 ^ 56
    → percent ≤ 100
    → 0 < r
    → ((k : ℕ) → 0 < k → random k < k)
    → let total = length xs in
      let n = align r total (percent_of (pos percent) total) in
      let s = random_start random r total n in
      ((ys : List String) × ((slice xs s (n + s) ≡ some ys) × (length ys ≡ n)))
      × ((s % r ≡ 0) × (n % r ≡ 0))
churn_window_lem xs random percent r h0 h hp hr rand =
    let total = length xs in
    let n = align r total (percent_of (pos percent) total) in
    (
      slice-length xs (random_start random r total n) n (
          random_start-le random r total n rand (
            align-le r total (percent_of (pos percent) total)
              (percent_of-le percent total hp h0 h))),
      (start_whole random r total n hr, align_whole r total (percent_of (pos percent) total) hr),
    )

pub percent_of-eq :
    (p total : ℕ) → p ≤ 100 → total < 2 ^ 56 → percent_of (pos p) total ≡ max (p * total / 100) 1
unfolding percent_of quot_ℤ
percent_of-eq p total h hb = rw (mul64-pos p total (grind arith)) refl

pub percent_count :
    (p total : ℕ)
    → p ≤ 100
    → 0 < total
    → total < 2 ^ 56
    → min (percent_of (pos p) total) total ≡ max (p * total / 100) 1
percent_count p total h h0 hb =
    omega (arith, percent_of-eq p total h hb, percent_of-le p total h h0 hb)
