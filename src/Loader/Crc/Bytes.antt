-- ===== src/Loader/Crc/Bytes.antt =====
-- One byte by the table of crc32check.c against eight bits by the loop of crc32gen.c.
use kernelreloaded.Common.{
  ◌∙◌, ap, ◌==◌, refl, suc, arith, ℕ, zero, ◌+◌, ◌-◌, ◌*◌, ◌/◌, ◌%◌, ◌^◌, ◌<◌, ◌≡◌, sym,
}
use kernelreloaded.Common.Bits.{bit, set_bit}
use kernelreloaded.Common.Words.{
  xor, low, shr, up, xor_comm, xor_assoc, xor_self, xor_zero, xor-shift, shr-xor, xor-up, shr_31,
  low_32, xor_lt_32, xor_lt_8,
}
use kernelreloaded.Loader.Crc.{
  crc32_mask, shift, gen_bit, gen_bits, table_step, reverse_step, table_rounds, table_entry,
}

abbrev pub Word : ℕ → Type 0
Word c = c < 2 ^ 32

shift-xor : (t y : ℕ) → shift (xor 32 t y) ≡ xor 32 (shift t) (shift y)
shift-xor t y =
    rw (sym (low_32 (xor 32 t y * 2)), sym (low_32 (t * 2)), sym (low_32 (y * 2)))
      (sym (xor-shift 31 t y))

top-xor : (t y : ℕ) → xor 32 t y / 2 ^ 31 ≡ (t / 2 ^ 31 + y / 2 ^ 31) % 2
top-xor t y = rw (sym (shr_31 (xor 32 t y)), sym (shr_31 t), sym (shr_31 y)) (shr-xor 31 t y)

swap : (a b c : ℕ) → xor 32 (xor 32 a b) c ≡ xor 32 (xor 32 a c) b
swap a b c = rw (xor_assoc 32 a b c, xor_comm 32 b c) (sym (xor_assoc 32 a c b))

-- One bit: with the data bit on top of `y`, the register is `xor t y`, and `t` takes a round of the table's loop.
gen_bit-xor :
    (t y : ℕ)
    → Word t
    → Word y
    → gen_bit (xor 32 t y) (y / 2 ^ 31) ≡ xor 32 (table_step t) (shift y)
unfolding gen_bit table_step
gen_bit-xor t y ht hy =
    rw (top-xor t y, shift-xor t y, swap (shift t) (shift y) crc32_mask) (ground arith)

-- The bits of `d` from `n` on stand on top of `y`, the next one uppermost.
abbrev Feeds : ℕ → ℕ → ℕ → ℕ → Type 0
Feeds zero n d y = Unit {0}
Feeds (suc k) n d y = (y / 2 ^ 31 ≡ shr n d % 2) × Feeds k (n + 1) d (shift y)

abbrev pub steps : ℕ → ℕ → ℕ
steps zero c = c
steps (suc k) c = steps k (table_step c)

abbrev shifts : ℕ → ℕ → ℕ
shifts zero y = y
shifts (suc k) y = shifts k (shift y)

pub table_step-Word : (c : ℕ) → Word (table_step c)
unfolding table_step
table_step-Word c = ground (arith, xor_lt_32 (shift c) crc32_mask)

gen_bits-xor :
    (k n d t y : ℕ)
    → Word t
    → Word y
    → Feeds k n d y
    → gen_bits k n d (xor 32 t y) ≡ xor 32 (steps k t) (shifts k y)
unfolding gen_bits
gen_bits-xor zero n d t y ht hy f = refl
gen_bits-xor (suc k) n d t y ht hy (top, more) =
    rw (sym top, gen_bit-xor t y ht hy)
      (gen_bits-xor k (n + 1) d (table_step t) (shift y) (table_step-Word t) (omega arith) more)

-- The reversed byte, by its bits.
abbrev pub reversed : ℕ → ℕ
reversed d =
    d % 2 * 128
    + d / 2 % 2 * 64
    + d / 4 % 2 * 32
    + d / 8 % 2 * 16
    + d / 16 % 2 * 8
    + d / 32 % 2 * 4
    + d / 64 % 2 * 2
    + d / 128 % 2

Feeds-reversed : (d l : ℕ) → l < 2 ^ 24 → Feeds 8 0 d (reversed d * 2 ^ 24 + l)
unfolding shr
Feeds-reversed d l h = omega arith

bit-shr : (i n : ℕ) → bit i n ≡ (shr n i % 2 == 1)
unfolding bit shr
bit-shr i zero = refl
bit-shr i (suc n) = bit-shr (i / 2) n

-- A bit is set in a word that has only higher ones.
set_bit-up : (j r m : ℕ) → r ≡ up (suc j) m → set_bit r j ≡ r + up j 1
unfolding set_bit up
set_bit-up zero r m e = omega arith
set_bit-up (suc j) r m e = omega (arith, set_bit-up j (r / 2) m (omega arith))

reverse_step-up :
    (i n r m : ℕ) → r ≡ up (suc (7 - n)) m → reverse_step i n r ≡ r + shr n i % 2 * up (7 - n) 1
unfolding reverse_step
reverse_step-up i n r m e = rw (bit-shr i n) (ground (arith, set_bit-up (7 - n) r m e))

abbrev reverses : ℕ → ℕ → ℕ → ℕ → ℕ
reverses zero n i r = r
reverses (suc k) n i r = reverses k (n + 1) i (reverse_step i n r)

up_add : (k m b : ℕ) → up k (m * 2 + b) ≡ up k m * 2 + b * up k 1
unfolding up
up_add zero m b = omega arith
up_add (suc k) m b = omega (arith, up_add k m b)

-- The bits of `i` from `n` on, the first one weighing 2^(k-1).
abbrev bits_reversed : ℕ → ℕ → ℕ → ℕ
bits_reversed zero n i = 0
bits_reversed (suc k) n i = shr n i % 2 * up k 1 + bits_reversed k (n + 1) i

reverses-bits_reversed :
    (k n i r m : ℕ) → k + n ≡ 8 → r ≡ up k m → reverses k n i r ≡ r + bits_reversed k n i
unfolding up
reverses-bits_reversed zero n i r m e h = omega arith
reverses-bits_reversed (suc k) n i r m e h =
    let j : 7 - n ≡ k = omega arith in
    let b = shr n i % 2 in
    let s : reverse_step i n r ≡ r + b * up k 1 =
      rw j at (reverse_step-up i n r m (rw j (unfold up in h))) in
    let ih =
      reverses-bits_reversed k (n + 1) i (reverse_step i n r) (m * 2 + b) (omega arith)
        (rw (s, up_add k m b) (omega arith)) in
    omega (arith, ih, s)

reverses-reversed : (i : ℕ) → reverses 8 0 i 0 ≡ reversed i
unfolding up shr
reverses-reversed i = omega (arith, reverses-bits_reversed 8 0 i 0 0 refl refl)

table_rounds_lem : (k n i c r : ℕ) → table_rounds k n i c r ≡ (steps k c, reverses k n i r)
unfolding table_rounds
table_rounds_lem zero n i c r = refl
table_rounds_lem (suc k) n i c r = table_rounds_lem k (n + 1) i (table_step c) (reverse_step i n r)

pub table_entry_lem : (i : ℕ) → i < 256 → table_entry i ≡ (steps 8 (i * 2 ^ 24), reversed i)
unfolding table_entry
table_entry_lem i h =
    let small : i * 2 ^ 24 % 2 ^ 32 ≡ i * 2 ^ 24 = omega arith in
    rw (table_rounds_lem 8 0 i (i * 2 ^ 24 % 2 ^ 32) 0, reverses-reversed i, small) refl

up_24 : (a : ℕ) → up 24 a ≡ a * 2 ^ 24
unfolding up
up_24 a = omega arith

shr_24 : (r l : ℕ) → l < 2 ^ 24 → shr 24 (r * 2 ^ 24 + l) ≡ r
unfolding shr
shr_24 r l h = omega arith

low_24 : (r l : ℕ) → l < 2 ^ 24 → low 24 (r * 2 ^ 24 + l) ≡ l
unfolding low
low_24 r l h = omega arith

pub low_8 : (a : ℕ) → a < 256 → low 8 a ≡ a
unfolding low
low_8 a h = omega arith

xor_twice : (a b : ℕ) → a < 256 → xor 8 (xor 8 a b) b ≡ a
xor_twice a b h = rw (xor_assoc 8 a b b, xor_self 8 b, xor_zero 8 a) (low_8 a h)

module _ (c d : ℕ) (hc : Word c) where
  pending : ℕ
  pending = reversed d * 2 ^ 24 + c % 2 ^ 24

  looked_up : ℕ
  looked_up = xor 8 (c / 2 ^ 24) (reversed d) * 2 ^ 24

  -- The register is the index's part and what the table has not seen.
  split : xor 32 looked_up pending ≡ c
  unfolding looked_up pending
  split =
      let rest : c % 2 ^ 24 < 2 ^ 24 = omega arith in
      rw
        (
          sym (up_24 (xor 8 (c / 2 ^ 24) (reversed d))),
          xor-up 24 32 8 (xor 8 (c / 2 ^ 24) (reversed d)) pending refl,
          shr_24 (reversed d) (c % 2 ^ 24) rest,
          low_24 (reversed d) (c % 2 ^ 24) rest,
          xor_twice (c / 2 ^ 24) (reversed d) (omega arith),
          up_24 (c / 2 ^ 24),
        )
        (omega arith)

  shifted : c * 2 ^ 8 % 2 ^ 32 ≡ shifts 8 pending
  unfolding pending
  shifted = omega arith

  -- One byte by the table is eight rounds of the bit loop.
  pub byte-gen_bits :
      xor 32 (c * 2 ^ 8 % 2 ^ 32) (steps 8 (xor 8 (c / 2 ^ 24) (reversed d) * 2 ^ 24))
      ≡ gen_bits 8 0 d c
  unfolding pending looked_up
  byte-gen_bits =
      ap (λ y. xor 32 y (steps 8 looked_up)) shifted
      ∙ xor_comm 32 (shifts 8 pending) (steps 8 looked_up)
      ∙ sym (
          gen_bits-xor 8 0 d looked_up pending (omega (arith, xor_lt_8 (c / 2 ^ 24) (reversed d)))
            (omega arith) (Feeds-reversed d (c % 2 ^ 24) (omega arith)))
      ∙ ap (gen_bits 8 0 d) split
