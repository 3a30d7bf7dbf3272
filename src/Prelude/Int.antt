-- ===== src/Prelude/Int.antt =====
-- Go's signed integers.
use Prim.Native.Nat.{ℕ, ◌-◌, ◌^◌}
use mathlib.Core.Bool.{Bool, true, false}
use mathlib.Core.Path.{◌≡◌}
use mathlib.Core.Logic.{◌↔◌}
use native.Mathlib.Omega.{arith}
use fabricsdk_go.Prelude.Tests.{ltb, ◌==◌, if◌then◌else◌}

-- `negsuc n` is -(n + 1).
pub data ℤ : Type 0 where
  pos : ℕ → ℤ
  negsuc : ℕ → ℤ

-- `int(x)` of a `uint64` on a 64-bit machine: two's complement.
abbrev pub int_of_uint64 : ℕ → ℤ
int_of_uint64 x = if ltb x (2 ^ 63) then pos x else negsuc (2 ^ 64 - 1 - x)

-- `0 < x`
abbrev pub is_positive : ℤ → Bool
is_positive (pos n) = ltb 0 n
is_positive (negsuc n) = false

abbrev pub int_eq : ℤ → ℤ → Bool
int_eq (pos m) (pos n) = m == n
int_eq (pos m) (negsuc n) = false
int_eq (negsuc m) (pos n) = false
int_eq (negsuc m) (negsuc n) = m == n

pub int_eq_iff : (x y : ℤ) → (int_eq x y ≡ true) ↔ (x ≡ y)
int_eq_iff (pos m) (pos n) = ground arith
int_eq_iff (pos m) (negsuc n) = ground arith
int_eq_iff (negsuc m) (pos n) = ground arith
int_eq_iff (negsuc m) (negsuc n) = ground arith
