-- ===== src/Verify/Expected.antt =====
-- The number of objects that Verify expects is the number that the creation loop makes.
use kube_burner.Prelude.{
  ℕ, zero, suc, ◌+◌, ◌-◌, ◌*◌, ◌/◌, ◌%◌, ◌^◌, ◌≤◌, ◌<◌, true, false, ◌≡◌, refl, sym, arith,
  if◌then◌else◌, Bool-cases, inl, inr, ltb, ltb→lt, ◌==◌, subst,
}
use native.Mathlib.Nat.{div-add-mod', mod-lt, div-eq_of_lt}
use kube_burner.Prelude.Int.{
  ◌≤ℤ◌, ℤ, pos, negsuc, add64, sub64, add64-pos, sub64-eq, pos_part, mul64-pos,
}
use kube_burner.Config.Types.{Object}
use kube_burner.Create.Objects.{is_due}
use kube_burner.Create.Namespaces.{quot_ℤ}
use kube_burner.Verify.{effective_iterations, objects_expected}

-- The iterations below n in which an object is due.
pub due_count : Object → ℕ → ℕ
due_count obj zero = 0
due_count obj (suc n) = due_count obj n + (if is_due obj n then 1 else 0)

ceil_aux : (a b r : ℕ) → b < r → 1 < r → (a * r + b + r) / r ≡ a + 1
ceil_aux a b r h h1 = grind arith

pub ceil_below : (a r : ℕ) → 1 < r → (a * r + (r - 1)) / r ≡ a
ceil_below a r h = grind arith

-- The quotient and the remainder of n are a and b.
ceil_parts :
    (a b r : ℕ)
    → b < r
    → 1 < r
    → (suc (a * r + b) + r - 1) / r ≡ (a * r + b + r - 1) / r + (if b == 0 then 1 else 0)
ceil_parts a zero r hb h =
    let up : (suc (a * r + zero) + r - 1) ≡ a * r + 0 + r = omega arith in
    let down : (a * r + zero + r - 1) ≡ a * r + (r - 1) = omega arith in
    rw (up, down, ceil_aux a 0 r (omega arith) h, ceil_below a r h) refl
ceil_parts a (suc b) r hb h =
    let up : (suc (a * r + suc b) + r - 1) ≡ a * r + suc b + r = omega arith in
    let down : (a * r + suc b + r - 1) ≡ a * r + b + r = omega arith in
    rw (up, down, ceil_aux a (suc b) r hb h, ceil_aux a b r (omega arith) h) (ground arith)

ceil_step :
    (n r : ℕ) → 1 < r → (suc n + r - 1) / r ≡ (n + r - 1) / r + (if n % r == 0 then 1 else 0)
ceil_step n r h =
    subst (λ m. (suc m + r - 1) / r ≡ (m + r - 1) / r + (if n % r == 0 then 1 else 0))
      (div-add-mod' n r) (ceil_parts (n / r) (n % r) r (mod-lt n (omega arith)) h)

-- Divided by the repeat, rounded up.
pub due_every :
    (obj : Object) (n r : ℕ)
    → obj.run_once ≡ false
    → obj.repeat_every_n_iterations ≡ pos r
    → 1 < r
    → due_count obj n ≡ (n + r - 1) / r
unfolding is_due due_count
due_every obj zero r once e h = sym (div-eq_of_lt (omega arith))
due_every obj (suc n) r once e h =
    let ih = due_every obj n r once e h in rw (ceil_step n r h, ih, once, e) (ground arith)

due_always :
    (obj : Object) (n : ℕ)
    → obj.run_once ≡ false
    → obj.repeat_every_n_iterations ≤ℤ pos 1
    → due_count obj n ≡ n
unfolding is_due due_count
due_always obj zero once h = refl
due_always obj (suc n) once h = let ih = due_always obj n once h in rw (ih, once) (ground arith)

due_once : (obj : Object) (n : ℕ) → obj.run_once ≡ true → due_count obj (suc n) ≡ 1
unfolding is_due due_count
due_once obj zero once = rw once refl
due_once obj (suc n) once = let ih = due_once obj n once in rw (ih, once) (ground arith)

quot_pos : (a r : ℕ) → quot_ℤ (pos a) (pos r) ≡ pos (a / r)
unfolding quot_ℤ
quot_pos a r = refl

rounded_up :
    (n r : ℕ)
    → 1 < r
    → n < 2 ^ 61
    → r < 2 ^ 61
    → sub64 (add64 (pos n) (pos r)) (pos 1) ≡ pos (n + r - 1)
rounded_up n r h hn hr =
    rw (add64-pos n r (omega arith) (omega arith))
      (sub64-eq (pos (n + r)) (pos 1) (omega arith) (omega arith) (omega arith))

iterations_every :
    (obj : Object) (n : ℕ) (z : ℤ)
    → obj.repeat_every_n_iterations ≡ z
    → obj.run_once ≡ false
    → n < 2 ^ 61
    → pos_part z < 2 ^ 61
    → effective_iterations obj (pos n) ≡ pos (due_count obj n)
unfolding effective_iterations
iterations_every obj n (negsuc r) e once hn hr =
    rw (due_always obj n once (rw e (omega arith))) (rw e (ground arith))
iterations_every obj n (pos r) e once hn hr = elim (Bool-cases (ltb 1 r)) [
  | inl h ↦
      let above = ltb→lt 1 r h in
      rw (due_every obj n r once e above, e, rounded_up n r above hn hr, quot_pos (n + r - 1) r)
        (ground arith)
  | inr h ↦ rw (due_always obj n once (rw e (ground arith)), e) (ground arith)
]

due-le : (obj : Object) (n : ℕ) → due_count obj n ≤ n
unfolding due_count
due-le obj zero = omega arith
due-le obj (suc n) = let ih = due-le obj n in ground arith

product_bound : (m a n : ℕ) → a ≤ n → m * n < 2 ^ 63 → m * a < 2 ^ 63
product_bound m a n h k = grind arith

due_once_pos : (obj : Object) (n : ℕ) → 0 < n → obj.run_once ≡ true → due_count obj n ≡ 1
due_once_pos obj zero h once = absurd (omega arith)
due_once_pos obj (suc n) h once = due_once obj n once

-- Verify expects of an object its replicas times the number of the iterations, of those below n, in
-- which the creation loop creates it. The condition: n is above 0, and the numbers stay below 2^61
-- (n, the repeat) and 2^63 (the product), so that Go's ints do not wrap.
pub objects_expected-due_count :
    (obj : Object) (n m : ℕ)
    → obj.replicas ≡ pos m
    → 0 < n
    → n < 2 ^ 61
    → pos_part obj.repeat_every_n_iterations < 2 ^ 61
    → m * n < 2 ^ 63
    → objects_expected obj (pos n) ≡ pos (m * due_count obj n)
unfolding objects_expected
objects_expected-due_count obj n m e h hn hr hm = elim (Bool-cases obj.run_once) [
  | inl once ↦ simp (due_once_pos obj n h once, e, once) (ground arith)
  | inr once ↦
      simp (iterations_every obj n obj.repeat_every_n_iterations refl once hn hr, e, once)
        (mul64-pos m (due_count obj n) (product_bound m (due_count obj n) n (due-le obj n) hm))
]
