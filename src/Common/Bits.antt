-- ===== src/Common/Bits.antt =====
-- Single bits of a machine word: `x & (1 << i)`, `x | (1 << i)` and `x & ~(1 << i)`.
use Prim.Native.Nat.{ℕ, zero, suc, ◌+◌, ◌*◌, ◌/◌, ◌%◌, ◌<◌}
use mathlib.Core.Path.{◌≡◌}
use mathlib.Core.Bool.{Bool, not, ◌&&◌, ◌||◌}
use native.Mathlib.Omega.{arith}
use kernelreloaded.Common.Tests.{◌==◌}

-- `(x & (1 << i)) != 0`
unfoldable pub bit : ℕ → ℕ → Bool
bit x zero = x % 2 == 1
bit x (suc i) = bit (x / 2) i

-- `x | (1 << i)`
unfoldable pub set_bit : ℕ → ℕ → ℕ
set_bit x zero = x / 2 * 2 + 1
set_bit x (suc i) = set_bit (x / 2) i * 2 + x % 2

-- `x & ~(1 << i)`
unfoldable pub clear_bit : ℕ → ℕ → ℕ
clear_bit x zero = x / 2 * 2
clear_bit x (suc i) = clear_bit (x / 2) i * 2 + x % 2

half-double : (n b : ℕ) → b < 2 → (n * 2 + b) / 2 ≡ n
half-double n b h = omega arith

pub bit-set_bit : (x i j : ℕ) → bit (set_bit x i) j ≡ ((i == j) || bit x j)
unfolding bit set_bit
bit-set_bit x zero zero = ground arith
bit-set_bit x zero (suc j) = rw (half-double (x / 2) 1 (omega arith)) (ground arith)
bit-set_bit x (suc i) zero = ground arith
bit-set_bit x (suc i) (suc j) =
    rw (half-double (set_bit (x / 2) i) (x % 2) (omega arith))
      (ground (arith, bit-set_bit (x / 2) i j))

pub bit-clear_bit : (x i j : ℕ) → bit (clear_bit x i) j ≡ (not (i == j) && bit x j)
unfolding bit clear_bit
bit-clear_bit x zero zero = ground arith
bit-clear_bit x zero (suc j) = let e : x / 2 * 2 / 2 ≡ x / 2 = omega arith in rw e (ground arith)
bit-clear_bit x (suc i) zero = ground arith
bit-clear_bit x (suc i) (suc j) =
    rw (half-double (clear_bit (x / 2) i) (x % 2) (omega arith))
      (ground (arith, bit-clear_bit (x / 2) i j))
