-- ===== src/Create/Churn/Window.antt =====
-- pkg/burner/create.go, churnNamespaces: which namespaces a cycle deletes. The number of namespaces
-- and the repeat are far below 2 ^ 62, so that their sums do not wrap; the product with the percent
-- may.
pub mod Bounds
use kube_burner.Prelude.{
  ℕ, zero, suc, ◌+◌, ◌-◌, ◌*◌, ◌/◌, ◌%◌, ◌≤◌, ◌<◌, ◌^◌, Bool, true, false, List, [], ◌∷◌, ltb, leb,
  if◌then◌else◌, max, length, take, drop, Option, none, some, ◌≡◌, refl, arith, length-take,
}
use kube_burner.Prelude.Int.{ℤ, pos, pos_part, ltb_ℤ, mul64, mul64-pos}
use kube_burner.Executor.{ManagedObject}
use kube_burner.Create.Namespaces.{quot_ℤ}

-- The part of `total` that a percentage is, at least 1.
unfoldable pub percent_of : ℤ → ℕ → ℕ
percent_of percent total = max (pos_part (quot_ℤ (mul64 percent (pos total)) (pos 100))) 1

-- The repeat of the first object that has one above 1, or 1.
pub churn_repeat : List ManagedObject → ℕ
churn_repeat [] = 1
churn_repeat (obj ∷ objs) =
    let rest = churn_repeat objs in
    if ltb_ℤ (pos 1) obj.repeat_every_n_iterations
    then pos_part obj.repeat_every_n_iterations
    else rest

-- numToChurn, brought to a multiple of the repeat.
unfoldable pub align : ℕ → ℕ → ℕ → ℕ
align r total n =
    if ltb 1 r
    then (let up = (n + r - 1) / r * r in if ltb total up then total / r * r else up)
    else n

-- randStart, with rand.Intn as `random`.
unfoldable pub random_start : (ℕ → ℕ) → ℕ → ℕ → ℕ → ℕ
random_start random r total n =
    if ltb 1 r
    then random ((total - n) / r + 1) * r
    else if ltb n (total + 1)
    then random (total + 1 - n)
    else 0

-- list[lo:hi], which panics out of range.
unfoldable pub slice {ℓ} : {A : Type ℓ} → List A → ℕ → ℕ → Option (List A)
slice xs lo hi =
    if leb hi (length xs)
    then (if leb lo hi then some (take (hi - lo) (drop lo xs)) else none)
    else none
