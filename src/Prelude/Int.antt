-- ===== src/Prelude/Int.antt =====
-- C's `int`: 32 bits, two's complement. The standard leaves signed overflow undefined; here it
-- wraps, as the machine's instructions do, so that every operation has a value.
use Prim.Native.Nat.{◌-◌, ◌%◌, ◌^◌, ◌≤◌}
use mathlib.Core.Path.{◌≡◌}
use native.Mathlib.Omega.{arith}
use structure_of_os.Prelude.Tests.{ltb, if◌then◌else◌}
use structure_of_os.Prelude.Signed.{ℤ, pos, negsuc, pos_part, neg_part, ◌+ℤ◌, ◌-ℤ◌}

-- The value of an `int` whose bits are the low 32 bits of the integer.
unfoldable pub int32 : ℤ → ℤ
int32 (pos n) =
    if ltb (n % 2 ^ 32) (2 ^ 31) then pos (n % 2 ^ 32) else negsuc (2 ^ 32 - n % 2 ^ 32 - 1)
int32 (negsuc n) =
    if ltb (n % 2 ^ 32) (2 ^ 31) then negsuc (n % 2 ^ 32) else pos (2 ^ 32 - n % 2 ^ 32 - 1)

abbrev pub IsInt : ℤ → Type 0
IsInt z = (pos_part z ≤ 2147483647) × (neg_part z ≤ 2147483648)

pub int32-IsInt : (z : ℤ) → IsInt (int32 z)
unfolding int32
int32-IsInt (pos n) = ground arith
int32-IsInt (negsuc n) = ground arith

-- A value that fits is kept.
pub int32_fits : (z : ℤ) → IsInt z → int32 z ≡ z
unfolding int32
int32_fits (pos n) h = ground arith
int32_fits (negsuc n) h = ground arith

-- `+` and `-` of `int`
unfoldable pub int_add : ℤ → ℤ → ℤ
unfolding int32 ◌+ℤ◌
int_add a b = int32 (a +ℤ b)

unfoldable pub int_sub : ℤ → ℤ → ℤ
unfolding int32 ◌-ℤ◌
int_sub a b = int32 (a -ℤ b)

pub int_add_fits : (a b : ℤ) → IsInt (a +ℤ b) → int_add a b ≡ a +ℤ b
unfolding int_add
int_add_fits a b h = int32_fits (a +ℤ b) h

pub int_sub_fits : (a b : ℤ) → IsInt (a -ℤ b) → int_sub a b ≡ a -ℤ b
unfolding int_sub
int_sub_fits a b h = int32_fits (a -ℤ b) h
