-- ===== src/Prelude/Text.antt =====
-- Texts of numbers: strconv.Itoa, and the `%d` and `%s` of fmt.Sprintf.
use Prim.Native.Nat.{ℕ, zero, suc, ◌+◌, ◌/◌, ◌%◌}
use Prim.Native.String.{String, slice, ◌++◌}
use mathlib.Core.Path.{◌≡◌, refl}
use kube_burner.Prelude.Tests.{ltb, if◌then◌else◌}
use kube_burner.Prelude.Int.{ℤ, pos, negsuc}

-- The decimal digit of a number below 10.
digit : ℕ → String
digit d = slice "0123456789" d (d + 1)

-- `fuel` digits at most; n + 1 are enough for n.
digits : ℕ → ℕ → String
digits zero n = ""
digits (suc fuel) n =
    let front = digits fuel (n / 10) in if ltb n 10 then digit n else front ++ digit (n % 10)

unfoldable pub itoa_nat : ℕ → String
unfolding digits digit
itoa_nat n = digits (n + 1) n

unfoldable pub itoa : ℤ → String
unfolding itoa_nat
itoa (pos n) = itoa_nat n
itoa (negsuc n) = "-" ++ itoa_nat (suc n)

itoa_runs : itoa (pos 1203) ≡ "1203"
unfolding itoa
itoa_runs = refl

-- Go's + on strings.
abbrev pub append : String → String → String
append s t = s ++ t
