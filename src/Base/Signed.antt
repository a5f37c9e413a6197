-- ===== src/Base/Signed.antt =====
-- Go's `int` and `time.Duration` where a value may be negative, and the source tests for it.
use Prim.Native.Nat.{ℕ, zero, suc, ◌≤◌, ◌<◌}
use mathlib.Core.Path.{◌≡◌}
use mathlib.Core.Logic.{◌↔◌}
use mathlib.Core.Bool.{Bool, true, false, not}
use native.Mathlib.Omega.{arith}
use upag.Base.Tests.{leb, ltb, if◌then◌else◌}

-- `negsuc n` is -(n + 1).
pub data ℤ : Type 0 where
  pos : ℕ → ℤ
  negsuc : ℕ → ℤ

-- `0 < z`.
abbrev pub is_positive : ℤ → Bool
is_positive (pos n) = ltb 0 n
is_positive (negsuc n) = false

-- `if z <= 0 { z = d }`, after which the value is used as a number that is not negative.
abbrev pub positive_or : ℤ → ℕ → ℕ
positive_or (pos n) d = if leb n 0 then d else n
positive_or (negsuc n) d = d

-- `if z < 0 { z = 0 }`.
abbrev pub at_least_zero : ℤ → ℕ
at_least_zero (pos n) = n
at_least_zero (negsuc n) = 0

-- `z <= n` for a number that is not negative.
abbrev pub le_of_nat : ℤ → ℕ → Bool
le_of_nat (pos m) n = leb m n
le_of_nat (negsuc m) n = true

pub positive_or_pos : (z : ℤ) (d : ℕ) → 0 < d → 0 < positive_or z d
positive_or_pos (pos n) d h = ground arith
positive_or_pos (negsuc n) d h = h

-- `z < n` for a number that is not negative.
abbrev pub lt_of_nat : ℤ → ℕ → Bool
lt_of_nat (pos m) n = ltb m n
lt_of_nat (negsuc m) n = true

abbrev pub is_zero : ℤ → Bool
is_zero (pos zero) = true
is_zero (pos (suc n)) = false
is_zero (negsuc n) = false

abbrev pub AtLeast : ℕ → ℤ → Type 0
AtLeast n (pos m) = n ≤ m
AtLeast n (negsuc m) = ⊥

abbrev pub AtMost : ℕ → ℤ → Type 0
AtMost n (pos m) = m ≤ n
AtMost n (negsuc m) = Unit

pub lt_of_nat_iff : (z : ℤ) (n : ℕ) → (lt_of_nat z n ≡ false) ↔ AtLeast n z
lt_of_nat_iff (pos m) n = ground arith
lt_of_nat_iff (negsuc m) n = ground arith

pub positive_iff : (z : ℤ) → (le_of_nat z 0 ≡ false) ↔ AtLeast 1 z
positive_iff (pos m) = ground arith
positive_iff (negsuc m) = ground arith

pub not-le_of_nat_iff : (z : ℤ) (n : ℕ) → (not (le_of_nat z n) ≡ false) ↔ AtMost n z
not-le_of_nat_iff (pos m) n = ground arith
not-le_of_nat_iff (negsuc m) n = ground arith
