-- ===== src/Loader/Rom/Entry.antt =====
-- Reading and seeking in one entry of `rom_files`, against a file of bytes with a position.
use kernelreloaded.Common.{
  ◌∙◌, sym, false, eq_of_==, ◌==◌, inr, inl, Bool-cases, take, ℕ, zero, suc, ◌+◌, ◌-◌, ◌^◌, ◌≤◌,
  ◌<◌, ◌≡◌, refl, ap, Option, none, some, List, [], ◌∷◌, arith, ltb, leb, if◌then◌else◌, ℤ, pos,
  negsuc, length, drop,
}
use kernelreloaded.Common.Ints.{add_int, sub_int, lt_int, IsInt}
use kernelreloaded.Loader.Rom.{
  RomEntry, Whence, seek_set, seek_cur, seek_end, other, minus_one, copied, read_bytes, read_entry,
  seek_entry,
}

-- The entry holds these bytes, and its size is their number.
pub record Holds (e : RomEntry) (bytes : List ℕ) : Type 0 where
  pub start : e.start ≡ some bytes
  pub size : e.size ≡ pos (length bytes)
  pub small : length bytes < 2 ^ 31

-- Reading at most `size` bytes: the result, the bytes, and the position behind them.
unfoldable pub file_read : List ℕ → ℕ → ℤ → ℤ × List ℕ × ℕ
file_read bytes p (negsuc k) =
    if leb (length bytes) p then (minus_one, [], p) else (negsuc k, [], p)
file_read bytes p (pos n) =
    let chunk = take n (drop p bytes) in
    if leb (length bytes) p
    then (minus_one, [], p)
    else (pos (length chunk), chunk, p + length chunk)

abbrev moved : ℕ → ℤ → Option ℕ
moved base (pos o) = some (base + o)
moved base (negsuc k) = if ltb k base then some (base - suc k) else none

abbrev target : List ℕ → ℕ → ℤ → Whence → Option ℕ
target bytes p offset seek_set = moved 0 offset
target bytes p offset seek_cur = moved p offset
target bytes p offset seek_end = moved (length bytes) offset
target bytes p offset other = none

abbrev at_most : ℕ → ℕ → Option ℕ → ℤ × ℕ
at_most n p none = (minus_one, p)
at_most n p (some q) = if leb q n then (pos 0, q) else (minus_one, p)

-- Seeking to a place in the file or at its end.
unfoldable pub file_seek : List ℕ → ℕ → ℤ → Whence → ℤ × ℕ
file_seek bytes p offset whence = at_most (length bytes) p (target bytes p offset whence)

length-drop : (xs : List ℕ) (n : ℕ) → length (drop n xs) ≡ length xs - n
length-drop xs zero = omega arith
length-drop [] (suc n) = omega arith
length-drop (x ∷ xs) (suc n) = omega (arith, length-drop xs n)

length-take :
    (n : ℕ) (xs : List ℕ) → length (take n xs) ≡ (if leb n (length xs) then n else length xs)
length-take zero xs = ground arith
length-take (suc n) [] = ground arith
length-take (suc n) (x ∷ xs) = ground (arith, length-take n xs)

take_all : (n : ℕ) (xs : List ℕ) → length xs ≤ n → take n xs ≡ take (length xs) xs
take_all zero [] h = refl
take_all zero (x ∷ xs) h = absurd (omega arith)
take_all (suc n) [] h = refl
take_all (suc n) (x ∷ xs) h = ap (λ ys. x ∷ ys) (take_all n xs (omega arith))

sub_pos : (a b : ℕ) → b ≤ a → a < 2 ^ 31 → sub_int (pos a) (pos b) ≡ pos (a - b)
sub_pos a b h l = ground arith

add_pos : (a b : ℕ) → a + b < 2 ^ 31 → add_int (pos a) (pos b) ≡ pos (a + b)
add_pos a b h = ground arith

abbrev pub as_int : ℤ × List ℕ × ℕ → ℤ × List ℕ × ℤ
as_int (r, bytes, p) = (r, bytes, pos p)

-- `k` bytes are copied, which are those that a read of `n` gives.
whole :
    (bytes : List ℕ) (p k n : ℕ)
    → take k (drop p bytes) ≡ take n (drop p bytes)
    → k ≡ length (take n (drop p bytes))
    → p + k < 2 ^ 31
    → ◌≡◌ {A = ℤ × List ℕ × ℤ}
        (pos k, copied bytes (pos p) (pos k), add_int (pos p) (pos k))
        (
          pos (length (take n (drop p bytes))),
          take n (drop p bytes),
          pos (p + length (take n (drop p bytes))),
        )
unfolding copied
whole bytes p k n same count small =
    rw (same, add_pos p k small) (ap (λ m. (pos m, take n (drop p bytes), pos (p + m))) count)

module _ (bytes : List ℕ) (p n : ℕ) (more : p < length bytes) (s : length bytes < 2 ^ 31)
    (l : n < 2 ^ 31) where
  read_more :
      0 < n
      → (let n' =
            if lt_int (sub_int (pos (length bytes)) (pos p)) (pos n)
            then sub_int (pos (length bytes)) (pos p)
            else pos n in
          ◌≡◌ {A = ℤ × List ℕ × ℤ}
            (n', copied bytes (pos p) n', add_int (pos p) n')
            (
              pos (length (take n (drop p bytes))),
              take n (drop p bytes),
              pos (p + length (take n (drop p bytes))),
            ))
  read_more h =
      rw (sub_pos (length bytes) p (omega arith) s) (elim (Bool-cases (leb n (length bytes - p))) [
        | inl fits ↦ rw fits (
            whole bytes p n n refl
              (ground (arith, length-take n (drop p bytes), length-drop bytes p)) (ground arith))
        | inr short ↦ rw short (
            whole bytes p (length bytes - p) n
              (sym (
                take_all n (drop p bytes) (ground (arith, length-drop bytes p))
                ∙ ap (λ k. take k (drop p bytes)) (length-drop bytes p)))
              (ground (arith, length-take n (drop p bytes), length-drop bytes p)) (omega arith))
      ])

not_below : (n : ℕ) → lt_int (pos n) (pos 0) ≡ false
not_below n = ground arith

read_pos :
    (bytes : List ℕ) (p n : ℕ)
    → length bytes < 2 ^ 31
    → n < 2 ^ 31
    → read_bytes (pos (length bytes)) (some bytes) (pos p) (pos n)
      ≡ as_int (file_read bytes p (pos n))
unfolding read_bytes file_read
read_pos bytes p n s l = elim (Bool-cases (leb (length bytes) p)) [
  | inl e ↦ rw e refl
  | inr e ↦ rw e (elim (Bool-cases (n == 0)) [
    | inl z ↦ rw (eq_of_== n 0 z) (ap (λ m. (pos 0, [], pos m)) (omega arith))
    | inr nz ↦
        let z : leb n 0 ≡ false = ground arith in
        rw (z, not_below (length bytes)) (read_more bytes p n (ground arith) s l (ground arith))
  ])
]

read_negative :
    (bytes : List ℕ) (p k : ℕ)
    → read_bytes (pos (length bytes)) (some bytes) (pos p) (negsuc k)
      ≡ as_int (file_read bytes p (negsuc k))
unfolding read_bytes file_read
read_negative bytes p k = elim (Bool-cases (leb (length bytes) p)) [
  | inl e ↦ rw e refl
  | inr e ↦ rw e refl
]

-- Reading in an entry is reading in the file.
pub read_entry-file_read :
    (e : RomEntry) (bytes : List ℕ) (p : ℕ) (size : ℤ)
    → Holds e bytes
    → IsInt size
    → read_entry e (pos p) size ≡ as_int (file_read bytes p size)
unfolding read_entry
read_entry-file_read e bytes p (pos n) h l = rw (h.size, h.start) (read_pos bytes p n h.small l)
read_entry-file_read e bytes p (negsuc k) h l = rw (h.size, h.start) (read_negative bytes p k)

abbrev pub seek_result : ℤ × ℕ → ℤ × ℤ
seek_result (r, p) = (r, pos p)

-- The tests of `rom_seek` on the new position.
abbrev checked : ℤ → ℤ → ℤ → ℤ × ℤ
checked size p q =
    if lt_int q (pos 0)
    then (minus_one, p)
    else if lt_int size q
    then (minus_one, p)
    else (pos 0, q)

add_over :
    (a b : ℕ)
    → a < 2 ^ 31
    → b < 2 ^ 31
    → 2 ^ 31 ≤ a + b
    → add_int (pos a) (pos b) ≡ negsuc (2 ^ 32 - 1 - (a + b))
add_over a b ha hb h = ground arith

add_back : (a k : ℕ) → a < 2 ^ 31 → k < a → add_int (pos a) (negsuc k) ≡ pos (a - suc k)
add_back a k ha h = ground arith

add_below : (a k : ℕ) → k < 2 ^ 31 → a ≤ k → add_int (pos a) (negsuc k) ≡ negsuc (k - a)
add_below a k hk h = ground arith

checked_pos : (n p q : ℕ) → checked (pos n) (pos p) (pos q) ≡ seek_result (at_most n p (some q))
checked_pos n p q = rw (not_below q) (ground arith)

-- The new position is refused where the sum wraps around.
sum_at_most :
    (n p base : ℕ) (o : ℤ)
    → base < 2 ^ 31
    → n < 2 ^ 31
    → IsInt o
    → checked (pos n) (pos p) (add_int (pos base) o) ≡ seek_result (at_most n p (moved base o))
sum_at_most n p base (pos o) b s h = elim (Bool-cases (ltb (base + o) (2 ^ 31))) [
  | inl small ↦ rw (add_pos base o (ground arith)) (checked_pos n p (base + o))
  | inr over ↦
      let out : leb (base + o) n ≡ false = ground arith in
      rw (add_over base o b h (ground arith), out) refl
]
sum_at_most n p base (negsuc k) b s h = elim (Bool-cases (ltb k base)) [
  | inl inside ↦ rw (add_back base k b (ground arith), inside) (checked_pos n p (base - suc k))
  | inr before ↦ rw (add_below base k h (ground arith), before) refl
]

set_at_most : (n p : ℕ) (o : ℤ) → checked (pos n) (pos p) o ≡ seek_result (at_most n p (moved 0 o))
set_at_most n p (pos o) = let e : 0 + o ≡ o = omega arith in rw e (checked_pos n p o)
set_at_most n p (negsuc k) = ground arith

-- Seeking in an entry is seeking in the file.
pub seek_entry-file_seek :
    (e : RomEntry) (bytes : List ℕ) (p : ℕ) (offset : ℤ) (whence : Whence)
    → Holds e bytes
    → p ≤ length bytes
    → IsInt offset
    → seek_entry e (pos p) offset whence ≡ seek_result (file_seek bytes p offset whence)
unfolding seek_entry file_seek
seek_entry-file_seek e bytes p offset seek_set h le l =
    rw h.size (set_at_most (length bytes) p offset)
seek_entry-file_seek e bytes p offset seek_cur h le l =
    rw h.size (sum_at_most (length bytes) p p offset (omega (arith, h.small)) h.small l)
seek_entry-file_seek e bytes p offset seek_end h le l =
    rw h.size (sum_at_most (length bytes) p (length bytes) offset h.small h.small l)
seek_entry-file_seek e bytes p offset other h le l = refl

pub file_read_inside :
    (bytes : List ℕ) (p : ℕ) (size : ℤ)
    → p ≤ length bytes
    → (file_read bytes p size).2 ≤ length bytes
unfolding file_read
file_read_inside bytes p (negsuc k) h = ground arith
file_read_inside bytes p (pos n) h =
    ground (arith, length-take n (drop p bytes), length-drop bytes p)

at_most_inside : (n p : ℕ) (q : Option ℕ) → p ≤ n → (at_most n p q).1 ≤ n
at_most_inside n p none h = h
at_most_inside n p (some q) h = ground arith

pub file_seek_inside :
    (bytes : List ℕ) (p : ℕ) (offset : ℤ) (whence : Whence)
    → p ≤ length bytes
    → (file_seek bytes p offset whence).1 ≤ length bytes
unfolding file_seek
file_seek_inside bytes p offset whence h =
    at_most_inside (length bytes) p (target bytes p offset whence) h
