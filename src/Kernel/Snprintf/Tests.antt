-- ===== src/Kernel/Snprintf/Tests.antt =====
-- kernel/snprintf.c: the theorems at small buffers, and runs of the directives.
use kernelreloaded.Common.{
  take, ℕ, ◌-◌, ◌^◌, ◌≤◌, ◌≡◌, refl, none, some, List, [], ◌∷◌, arith, length,
}
use kernelreloaded.Kernel.Snprintf.{
  str, word, vsnprintf, loop, directive, copy_str, digits, put_digits, hex, signed,
}
use kernelreloaded.Kernel.Snprintf.Bounds.{vsnprintf-length, vsnprintf-Plain}
use kernelreloaded.Kernel.Snprintf.Decimal.{IsDecimal, value, vsnprintf-value}

abbrev abc : List ℕ
abc = 97 ∷ 98 ∷ 99 ∷ []

abbrev minus_one_digit : List ℕ
minus_one_digit = 97 ∷ 45 ∷ 49 ∷ []

-- "a%d" of -12 in a buffer of four bytes.
short : vsnprintf 4 (97 ∷ 37 ∷ 100 ∷ []) (word (2 ^ 32 - 12) ∷ []) ≡ some (4, some minus_one_digit)
unfolding vsnprintf loop directive signed put_digits digits
short = refl

vsnprintf-length_example : (length minus_one_digit ≤ 4) × (4 ≤ 4)
vsnprintf-length_example = vsnprintf-length 4 4 _ _ minus_one_digit short

vsnprintf-Plain_example :
    (vsnprintf 2 abc [] ≡ some (2, some (97 ∷ 98 ∷ [])))
    × (3 ≤ 2 → take 2 abc ≡ abc)
    × (2 ≤ 3 → length (take 2 abc) ≡ 2)
vsnprintf-Plain_example = vsnprintf-Plain 2 abc [] (refl, (refl, (refl, tt))) (omega arith)

vsnprintf-value_example :
    (ret : ℕ) × (ds : List ℕ) × (vsnprintf 12 (37 ∷ 117 ∷ []) (word 4294967295 ∷ [])
      ≡ some (ret, some ds))
    × IsDecimal ds
    × (value ds 0 ≡ 4294967295)
vsnprintf-value_example = vsnprintf-value 12 4294967295 (omega arith) (omega arith)

-- "%s%x" of "hi" and 0xbeef.
string_and_hex :
    vsnprintf 20 (37 ∷ 115 ∷ 37 ∷ 120 ∷ []) (str (104 ∷ 105 ∷ []) ∷ word 0xbeef ∷ [])
    ≡ some (12, some (104 ∷ 105 ∷ 48 ∷ 48 ∷ 48 ∷ 48 ∷ 98 ∷ 101 ∷ 101 ∷ 102 ∷ []))
unfolding vsnprintf loop directive copy_str hex
string_and_hex = refl

-- "%c-x" loses its "-", and "%c" alone runs on behind the format.
char_skips :
    (vsnprintf 20 (37 ∷ 99 ∷ 45 ∷ 120 ∷ []) (word 65 ∷ []) ≡ some (3, some (65 ∷ 120 ∷ [])))
    × (vsnprintf 20 (37 ∷ 99 ∷ []) (word 65 ∷ []) ≡ none)
unfolding vsnprintf loop directive
char_skips = (refl, refl)
