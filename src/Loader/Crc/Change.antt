-- ===== src/Loader/Crc/Change.antt =====
-- The checksum of crc32gen.c tells two texts that differ in one byte.
use kernelreloaded.Common.{
  inr, inl, Bool-cases, ◌&&◌, eq_of_==, &&_true, [], ◌==◌, ◌∷◌, ◌^◌, ◌+◌, ◌++◌, ◌/◌, ◌*◌, suc, not,
  List, ℕ, zero, ◌%◌, ◌<◌, ◌≡◌, refl, sym, ap, ◌∙◌, Bool, true, false, arith, leb, if◌then◌else◌,
}
use kernelreloaded.Common.Words.{
  xor, xor_assoc, xor_self, xor_zero, xor_comm, low, low_32, xor-parity, shr, xor_lt_32, xor_lt_8,
}
use kernelreloaded.Loader.Crc.{crc32_mask, shift, gen_bit, gen_bits, gen_loop, gen_crc, table_step}
use kernelreloaded.Loader.Crc.Bytes.{Word, reversed, steps, byte-gen_bits, table_step-Word, low_8}
use kernelreloaded.Loader.Crc.Table.{AllBytes, gen_bits-Word}

low_small : (a : ℕ) → Word a → low 32 a ≡ a
low_small a h = low_32 a ∙ omega arith

xor_cancel : (a b m : ℕ) → Word a → Word b → xor 32 a m ≡ xor 32 b m → a ≡ b
xor_cancel a b m ha hb e = sym (back a ha) ∙ ap (λ x. xor 32 x m) e ∙ back b hb
  where
    back : (x : ℕ) → Word x → xor 32 (xor 32 x m) m ≡ x
    back x h = rw (xor_assoc 32 x m m, xor_self 32 m, xor_zero 32 x) (low_small x h)

masked_odd : (c : ℕ) → xor 32 (shift c) crc32_mask % 2 ≡ 1
masked_odd c = omega (arith, xor-parity 31 (shift c) crc32_mask)

-- A round of either loop, by its flag.
abbrev round : Bool → ℕ → ℕ
round b c = if b then xor 32 (shift c) crc32_mask else shift c

round-flag : (b b' : Bool) (c c' : ℕ) → round b c ≡ round b' c' → (b ≡ b') × (shift c ≡ shift c')
round-flag true true c c' e =
    (refl, xor_cancel (shift c) (shift c') crc32_mask (omega arith) (omega arith) e)
round-flag false false c c' e = (refl, e)
round-flag true false c c' e = absurd (omega (arith, masked_odd c))
round-flag false true c c' e = absurd (omega (arith, masked_odd c'))

table_step_injective : (c c' : ℕ) → Word c → Word c' → table_step c ≡ table_step c' → c ≡ c'
unfolding table_step
table_step_injective c c' h h' e =
    let r = round-flag (leb 0x80000000 c) (leb 0x80000000 c') c c' e in ground (arith, r.0, r.1)

gen_bit-round : (c d : ℕ) → gen_bit c d ≡ round (not (c / 2 ^ 31 == d)) c
unfolding gen_bit
gen_bit-round c d = ground arith

gen_bit_injective : (d c c' : ℕ) → d < 2 → Word c → Word c' → gen_bit c d ≡ gen_bit c' d → c ≡ c'
gen_bit_injective d c c' hd h h' e =
    let r =
      round-flag (not (c / 2 ^ 31 == d)) (not (c' / 2 ^ 31 == d)) c c'
        (sym (gen_bit-round c d) ∙ e ∙ gen_bit-round c' d) in
    ground (arith, r.0, r.1)

gen_bit-Word : (c d : ℕ) → Word (gen_bit c d)
unfolding gen_bit
gen_bit-Word c d = ground (arith, xor_lt_32 (shift c) crc32_mask)

-- The register before some bits is known from the one behind them.
gen_bits_injective :
    (k n d c c' : ℕ) → Word c → Word c' → gen_bits k n d c ≡ gen_bits k n d c' → c ≡ c'
unfolding gen_bits
gen_bits_injective zero n d c c' h h' e = e
gen_bits_injective (suc k) n d c c' h h' e =
    let b = shr n d % 2 in
    gen_bit_injective b c c' (omega arith) h h' (
      gen_bits_injective k (n + 1) d (gen_bit c b) (gen_bit c' b) (gen_bit-Word c b)
        (gen_bit-Word c' b) e)

steps_injective : (k c c' : ℕ) → Word c → Word c' → steps k c ≡ steps k c' → c ≡ c'
steps_injective zero c c' h h' e = e
steps_injective (suc k) c c' h h' e =
    table_step_injective c c' h h'
      (steps_injective k (table_step c) (table_step c') (table_step-Word c) (table_step-Word c') e)

steps-Word : (k c : ℕ) → Word c → Word (steps k c)
steps-Word zero c h = h
steps-Word (suc k) c h = steps-Word k (table_step c) (table_step-Word c)

xor_left : (a b : ℕ) → b < 256 → xor 8 a (xor 8 a b) ≡ b
xor_left a b h =
    rw (sym (xor_assoc 8 a a b), xor_self 8 a, xor_comm 8 0 b, xor_zero 8 b) (low_8 b h)

reversed_lt : (d : ℕ) → reversed d < 256
reversed_lt d = omega arith

-- The test holds of all numbers below `n`.
abbrev all_below : (ℕ → Bool) → ℕ → Bool
all_below p zero = true
all_below p (suc n) = p n && all_below p n

all_below_lem : (p : ℕ → Bool) (n d : ℕ) → all_below p n ≡ true → d < n → p d ≡ true
all_below_lem p zero d h l = absurd (omega arith)
all_below_lem p (suc n) d h l =
    let both = &&_true (p n) (all_below p n) h in
    elim (Bool-cases (d == n)) [
      | inl e ↦ rw (eq_of_== d n e) both.0
      | inr e ↦ all_below_lem p n d both.1 (ground arith)
    ]

abbrev twice_back : ℕ → Bool
twice_back d = reversed (reversed d) == d

reversed_twice : (d : ℕ) → d < 256 → reversed (reversed d) ≡ d
reversed_twice d h = eq_of_== (reversed (reversed d)) d (all_below_lem twice_back 256 d refl h)

reversed_injective : (d d' : ℕ) → d < 256 → d' < 256 → reversed d ≡ reversed d' → d ≡ d'
reversed_injective d d' h h' e = sym (reversed_twice d h) ∙ ap reversed e ∙ reversed_twice d' h'

module _ (c d d' : ℕ) (hc : Word c) (h : d < 256) (h' : d' < 256) where
  index : ℕ → ℕ
  index r = xor 8 (c / 2 ^ 24) (reversed r)

  index_lt : (r : ℕ) → Word (index r * 2 ^ 24)
  unfolding index
  index_lt r = omega (arith, xor_lt_8 (c / 2 ^ 24) (reversed r))

  same_entry :
      gen_bits 8 0 d c ≡ gen_bits 8 0 d' c
      → steps 8 (index d * 2 ^ 24) ≡ steps 8 (index d' * 2 ^ 24)
  unfolding index
  same_entry e =
      let y = c * 2 ^ 8 % 2 ^ 32 in
      let s = steps 8 (index d * 2 ^ 24) in
      let s' = steps 8 (index d' * 2 ^ 24) in
      xor_cancel s s' y (steps-Word 8 (index d * 2 ^ 24) (index_lt d))
        (steps-Word 8 (index d' * 2 ^ 24) (index_lt d'))
        (xor_comm 32 s y
          ∙ byte-gen_bits c d hc
          ∙ e
          ∙ sym (byte-gen_bits c d' hc)
          ∙ xor_comm 32 y s')

  -- From one register, two bytes lead to two registers.
  byte_injective : gen_bits 8 0 d c ≡ gen_bits 8 0 d' c → d ≡ d'
  unfolding index
  byte_injective e =
      let i : index d ≡ index d' = omega (
        arith,
        steps_injective 8 (index d * 2 ^ 24) (index d' * 2 ^ 24) (index_lt d) (index_lt d')
            (same_entry e),
      ) in
      reversed_injective d d' h h' (
        sym (xor_left (c / 2 ^ 24) (reversed d) (reversed_lt d))
        ∙ ap (xor 8 (c / 2 ^ 24)) i
        ∙ xor_left (c / 2 ^ 24) (reversed d') (reversed_lt d'))

gen_loop_injective :
    (ds : List ℕ) (c c' : ℕ)
    → Word c
    → Word c'
    → AllBytes ds
    → gen_loop ds c ≡ gen_loop ds c'
    → c ≡ c'
unfolding gen_loop
gen_loop_injective [] c c' h h' hs e = e
gen_loop_injective (d ∷ ds) c c' h h' (hd, hs) e = gen_bits_injective 8 0 d c c' h h' (
    gen_loop_injective ds (gen_bits 8 0 d c) (gen_bits 8 0 d c') (gen_bits-Word c d h)
      (gen_bits-Word c' d h') hs e)

gen_loop_change :
    (xs ys : List ℕ) (a b c : ℕ)
    → Word c
    → AllBytes (xs ++ (a ∷ ys))
    → AllBytes (xs ++ (b ∷ ys))
    → gen_loop (xs ++ (a ∷ ys)) c ≡ gen_loop (xs ++ (b ∷ ys)) c
    → a ≡ b
unfolding gen_loop
gen_loop_change [] ys a b c h (ha, hs) (hb, hs') e = byte_injective c a b h ha hb (
    gen_loop_injective ys (gen_bits 8 0 a c) (gen_bits 8 0 b c) (gen_bits-Word c a h)
      (gen_bits-Word c b h) hs e)
gen_loop_change (x ∷ xs) ys a b c h (hx, hs) (hx', hs') e =
    gen_loop_change xs ys a b (gen_bits 8 0 x c) (gen_bits-Word c x h) hs hs' e

-- Two texts with one checksum do not differ in just one byte.
pub gen_crc_change :
    (xs ys : List ℕ) (a b : ℕ)
    → AllBytes (xs ++ (a ∷ ys))
    → AllBytes (xs ++ (b ∷ ys))
    → gen_crc (xs ++ (a ∷ ys)) ≡ gen_crc (xs ++ (b ∷ ys))
    → a ≡ b
unfolding gen_crc
gen_crc_change xs ys a b ha hb e = gen_loop_change xs ys a b 0 (omega arith) ha hb e
