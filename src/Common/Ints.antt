-- ===== src/Common/Ints.antt =====
-- The arithmetic of a 32-bit `int` on the target, which wraps around.
use Prim.Native.Nat.{ℕ, ◌+◌, ◌-◌, ◌%◌, ◌^◌, ◌<◌}
use mathlib.Core.Bool.{Bool, true, false, not}
use kernelreloaded.Common.Tests.{ℤ, pos, negsuc, if◌then◌else◌, ltb, leb}

abbrev pub to_u32 : ℤ → ℕ
to_u32 (pos n) = n % 2 ^ 32
to_u32 (negsuc n) = 2 ^ 32 - 1 - n % 2 ^ 32

abbrev pub int_of : ℕ → ℤ
int_of w = if ltb w (2 ^ 31) then pos w else negsuc (2 ^ 32 - 1 - w)

abbrev pub add_int : ℤ → ℤ → ℤ
add_int a b = int_of ((to_u32 a + to_u32 b) % 2 ^ 32)

abbrev pub sub_int : ℤ → ℤ → ℤ
sub_int a b = int_of ((to_u32 a + (2 ^ 32 - to_u32 b)) % 2 ^ 32)

-- `a <= b`
abbrev pub le_int : ℤ → ℤ → Bool
le_int (pos a) (pos b) = leb a b
le_int (pos a) (negsuc b) = false
le_int (negsuc a) (pos b) = true
le_int (negsuc a) (negsuc b) = leb b a

-- `a < b`
abbrev pub lt_int : ℤ → ℤ → Bool
lt_int a b = not (le_int b a)

abbrev pub IsInt : ℤ → Type 0
IsInt (pos n) = n < 2 ^ 31
IsInt (negsuc n) = n < 2 ^ 31
