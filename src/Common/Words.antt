-- ===== src/Common/Words.antt =====
-- Words of `w` bits: exclusive or, the low and the high bits, and the shifts.
use Prim.Native.Nat.{◌<◌, ◌^◌, ℕ, zero, suc, ◌+◌, ◌*◌, ◌/◌, ◌%◌}
use mathlib.Core.Path.{◌≡◌, refl}
use native.Mathlib.Omega.{arith}

-- `a ^ b` on `w` bits
unfoldable pub xor : ℕ → ℕ → ℕ → ℕ
xor zero a b = 0
xor (suc w) a b = xor w (a / 2) (b / 2) * 2 + (a + b) % 2

-- the low `w` bits of `a`
unfoldable pub low : ℕ → ℕ → ℕ
low zero a = 0
low (suc w) a = low w (a / 2) * 2 + a % 2

-- `a >> w`
unfoldable pub shr : ℕ → ℕ → ℕ
shr zero a = a
shr (suc w) a = shr w (a / 2)

-- `a << k`, with no bit lost
unfoldable pub up : ℕ → ℕ → ℕ
up zero a = a
up (suc k) a = up k a * 2

half-double : (n b : ℕ) → (n * 2 + b % 2) / 2 ≡ n
half-double n b = omega arith

half-xor : (w a b : ℕ) → xor (suc w) a b / 2 ≡ xor w (a / 2) (b / 2)
unfolding xor
half-xor w a b = half-double (xor w (a / 2) (b / 2)) (a + b)

half-low : (w a : ℕ) → low (suc w) a / 2 ≡ low w (a / 2)
unfolding low
half-low w a = half-double (low w (a / 2)) a

pub xor_comm : (w a b : ℕ) → xor w a b ≡ xor w b a
unfolding xor
xor_comm zero a b = refl
xor_comm (suc w) a b = omega (arith, xor_comm w (a / 2) (b / 2))

pub xor_assoc : (w a b c : ℕ) → xor w (xor w a b) c ≡ xor w a (xor w b c)
unfolding xor
xor_assoc zero a b c = refl
xor_assoc (suc w) a b c =
    rw (half-double (xor w (a / 2) (b / 2)) (a + b), half-double (xor w (b / 2) (c / 2)) (b + c))
      (omega (arith, xor_assoc w (a / 2) (b / 2) (c / 2)))

pub xor_self : (w a : ℕ) → xor w a a ≡ 0
unfolding xor
xor_self zero a = refl
xor_self (suc w) a = omega (arith, xor_self w (a / 2))

pub xor_zero : (w a : ℕ) → xor w a 0 ≡ low w a
unfolding xor low
xor_zero zero a = refl
xor_zero (suc w) a = omega (arith, xor_zero w (a / 2))

low-parity : (w a : ℕ) → low (suc w) a % 2 ≡ a % 2
unfolding low
low-parity w a = omega arith

-- Exclusive or reads the low bits only.
pub xor-low : (w a b : ℕ) → xor w (low w a) (low w b) ≡ xor w a b
unfolding xor
xor-low zero a b = refl
xor-low (suc w) a b =
    rw (half-low w a, half-low w b)
      (omega (arith, low-parity w a, low-parity w b, xor-low w (a / 2) (b / 2)))

pub low-xor : (w a b : ℕ) → low w (xor (suc w) a b) ≡ xor w a b
unfolding low
low-xor zero a b = unfold xor in refl
low-xor (suc w) a b =
    rw (half-xor (suc w) a b, low-xor w (a / 2) (b / 2)) (unfold xor in omega arith)

low-double : (w a : ℕ) → low (suc w) (a * 2) ≡ low w a * 2
unfolding low
low-double w a = let e : a * 2 / 2 ≡ a = omega arith in rw e (omega arith)

xor-double : (w a b : ℕ) → xor (suc w) (a * 2) (b * 2) ≡ xor w a b * 2
unfolding xor
xor-double w a b =
    let e : a * 2 / 2 ≡ a = omega arith in
    let f : b * 2 / 2 ≡ b = omega arith in rw (e, f) (omega arith)

-- Exclusive or of two shifted words.
pub xor-shift :
    (w a b : ℕ)
    → xor (suc w) (low (suc w) (a * 2)) (low (suc w) (b * 2)) ≡ low (suc w) (xor (suc w) a b * 2)
xor-shift w a b =
    rw
      (
        xor-low (suc w) (a * 2) (b * 2),
        xor-double w a b,
        low-double w (xor (suc w) a b),
        low-xor w a b,
      )
      refl

-- The top bit of an exclusive or.
pub shr-xor : (w a b : ℕ) → shr w (xor (suc w) a b) ≡ (shr w a + shr w b) % 2
unfolding shr
shr-xor zero a b = unfold xor in omega arith
shr-xor (suc w) a b = rw (half-xor (suc w) a b) (shr-xor w (a / 2) (b / 2))

xor-double_left : (w a y : ℕ) → xor (suc w) (a * 2) y ≡ xor w a (y / 2) * 2 + y % 2
unfolding xor
xor-double_left w a y = let e : a * 2 / 2 ≡ a = omega arith in rw e (omega arith)

-- With the low `k` bits of one word zero, those of the other stay.
pub xor-up : (k v w a y : ℕ) → v ≡ w + k → xor v (up k a) y ≡ up k (xor w a (shr k y)) + low k y
unfolding up low shr
xor-up zero v w a y e = let f : v ≡ w = omega arith in rw f (omega arith)
xor-up (suc k) zero w a y e = absurd (omega arith)
xor-up (suc k) (suc v) w a y e =
    let ih = xor-up k v w a (y / 2) (omega arith) in
    rw (xor-double_left v (up k a) y) (omega (arith, ih))

pub shr_31 : (a : ℕ) → shr 31 a ≡ a / 2 ^ 31
unfolding shr
shr_31 a = omega arith

pub low_32 : (a : ℕ) → low 32 a ≡ a % 2 ^ 32
unfolding low
low_32 a = omega arith

xor_bound : (w a b : ℕ) → xor w a b < 2 ^ w
unfolding xor
xor_bound zero a b = omega arith
xor_bound (suc w) a b = omega (arith, xor_bound w (a / 2) (b / 2))

pub xor_lt_32 : (a b : ℕ) → xor 32 a b < 2 ^ 32
xor_lt_32 a b = xor_bound 32 a b

pub xor_lt_8 : (a b : ℕ) → xor 8 a b < 2 ^ 8
xor_lt_8 a b = xor_bound 8 a b

pub xor-parity : (w a b : ℕ) → xor (suc w) a b % 2 ≡ (a + b) % 2
unfolding xor
xor-parity w a b = omega arith
