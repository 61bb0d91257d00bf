-- ===== src/Kernel/Snprintf/Decimal.antt =====
-- kernel/snprintf.c: the digits that `%u` writes are the number's.
use kernelreloaded.Common.{
  ◌⊎◌, ◌∙◌, true, ==_ne, false, eq_of_==, sym, some, ◌^◌, ap, ℕ, zero, suc, ◌+◌, ◌-◌, ◌*◌, ◌/◌, ◌%◌,
  ◌≤◌, ◌<◌, ◌≡◌, refl, inl, inr, List, [], ◌∷◌, arith, ◌==◌, Bool-cases, length,
}
use kernelreloaded.Kernel.Snprintf.{word, digits, put_digits, directive, loop, vsnprintf}

-- The number that decimal digits stand for, read from the left.
abbrev pub value : List ℕ → ℕ → ℕ
value [] a = a
value (d ∷ ds) a = value ds (a * 10 + (d - 48))

abbrev pow10 : ℕ → ℕ
pow10 zero = 1
pow10 (suc n) = 10 * pow10 n

digits-value :
    (n u : ℕ) (ds : List ℕ) → u < pow10 (suc n) → value (digits (suc n) u ds) 0 ≡ value ds u
unfolding digits
digits-value zero u ds h =
    let one : (u / 10 == 0) ≡ true = ground arith in rw one (ap (value ds) (omega arith))
digits-value (suc n) u ds h = elim (Bool-cases (u / 10 == 0)) [
  | inl one ↦ rw one (ap (value ds) (omega (arith, eq_of_== (u / 10) 0 one)))
  | inr more ↦
      rw more
        (digits-value n (u / 10) ((48 + u % 10) ∷ ds) (omega arith) ∙ ap (value ds) (omega arith))
]

abbrev pub IsDigit : ℕ → Type 0
IsDigit d = (48 ≤ d) × (d ≤ 57)

abbrev pub AllDigits : List ℕ → Type 0
AllDigits [] = Unit {0}
AllDigits (d ∷ ds) = IsDigit d × AllDigits ds

-- Digits, at least one, without a zero in front of others.
abbrev pub IsDecimal : List ℕ → Type 0
IsDecimal [] = ⊥
IsDecimal (d ∷ ds) = (IsDigit d × AllDigits ds) × ((49 ≤ d) ⊎ (ds ≡ []))

digits-IsDecimal :
    (n u : ℕ) (ds : List ℕ)
    → u < pow10 (suc n)
    → AllDigits ds
    → (1 ≤ u) ⊎ (ds ≡ [])
    → IsDecimal (digits (suc n) u ds)
unfolding digits
digits-IsDecimal zero u ds h all lead =
    let one : (u / 10 == 0) ≡ true = ground arith in
    rw one
      (((omega arith, omega arith), all), elim lead [ inl l ↦ inl (omega arith) | inr e ↦ inr e ])
digits-IsDecimal (suc n) u ds h all lead = elim (Bool-cases (u / 10 == 0)) [
  | inl one ↦
      let small : u < 10 = ground (arith, eq_of_== (u / 10) 0 one) in
      rw one
        (((omega arith, omega arith), all), elim lead [ inl l ↦ inl (omega arith) | inr e ↦ inr e ])
  | inr more ↦ rw more (
      digits-IsDecimal n (u / 10) ((48 + u % 10) ∷ ds) (omega arith)
        ((omega arith, omega arith), all) (inl (ground arith)))
]

digits-length : (n u : ℕ) (ds : List ℕ) → length (digits n u ds) ≤ n + length ds
unfolding digits
digits-length zero u ds = omega arith
digits-length (suc n) u ds = elim (Bool-cases (u / 10 == 0)) [
  | inl one ↦ rw one (omega arith)
  | inr more ↦ rw more (omega (arith, digits-length n (u / 10) ((48 + u % 10) ∷ ds)))
]

-- With room for all digits, all are written.
put_digits_all : (ds : List ℕ) (l : ℕ) → length ds ≤ l → 1 ≤ l → (put_digits ds l).0 ≡ ds
unfolding put_digits
put_digits_all [] l h k = refl
put_digits_all (d ∷ ds) l h k = elim (Bool-cases (l == 1)) [
  | inl one ↦ rw one (ap (λ es. d ∷ es) (sym (no_digits ds (omega (arith, eq_of_== l 1 one)))))
  | inr more ↦
      rw more (
        ap (λ es. d ∷ es) (put_digits_all ds (l - 1) (omega arith) (omega (arith, ==_ne l 1 more))))
]
  where
    no_digits : (es : List ℕ) → length es ≤ 0 → es ≡ []
    no_digits [] z = refl
    no_digits (e ∷ es) z = absurd (omega arith)

-- `%u` alone, with a buffer of at least twelve bytes: the text consists of decimal digits, at least
-- one and with no zero in front of others, which stand for the number, for every 32-bit number.
pub vsnprintf-value :
    (n u : ℕ)
    → 12 ≤ n
    → u < 2 ^ 32
    → (ret : ℕ) × (ds : List ℕ) × (vsnprintf n (37 ∷ 117 ∷ []) (word u ∷ []) ≡ some (ret, some ds))
      × IsDecimal ds
      × (value ds 0 ≡ u)
unfolding vsnprintf loop directive
vsnprintf-value zero u h k = absurd (omega arith)
vsnprintf-value (suc n) u h k =
    let room : length (digits 10 u []) ≤ n = omega (arith, digits-length 10 u []) in
    let whole = put_digits_all (digits 10 u []) n room (omega arith) in
    let some_room : (n == 0) ≡ false = ground arith in
    (
      suc n - (put_digits (digits 10 u []) n).1,
      (put_digits (digits 10 u []) n).0,
      rw (vsnprintf, some_room),
      rw whole (digits-IsDecimal 9 u [] (omega arith) tt (inr refl)),
      rw whole (digits-value 9 u [] (omega arith)),
    )
