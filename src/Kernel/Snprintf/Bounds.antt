-- ===== src/Kernel/Snprintf/Bounds.antt =====
-- kernel/snprintf.c: how much `vsnprintf` writes.
use mathlib.Core.Option.{some-injective}
use kernelreloaded.Common.{
  subst, take, Option-cases, false, true, length-append, ◌||◌, ℕ, zero, suc, ◌+◌, ◌-◌, ◌/◌, ◌%◌,
  ◌≤◌, ◌≡◌, refl, ap, inl, inr, Bool, ◌&&◌, Option, none, some, List, [], ◌∷◌, arith, ltb, ◌==◌,
  ==_ne, ltb_ge, Bool-cases, if_rule, length,
}
use kernelreloaded.Kernel.Snprintf.{
  Arg, str, word, Written, copy_str, digits, put_digits, hex, hexmap, signed, is_negative, negated,
  directive, prepend, loop, vsnprintf,
}

copy_str-length : (cs : List ℕ) (l : ℕ) → length (copy_str cs l).0 + (copy_str cs l).1 ≡ l
unfolding copy_str
copy_str-length [] l = omega arith
copy_str-length (c ∷ cs) zero = omega arith
copy_str-length (c ∷ cs) (suc l) = omega (arith, copy_str-length cs l)

put_digits-length :
    (ds : List ℕ) (l : ℕ) → 1 ≤ l → length (put_digits ds l).0 + (put_digits ds l).1 ≡ l
unfolding put_digits
put_digits-length [] l h = omega arith
put_digits-length (d ∷ ds) l h = elim (Bool-cases (l == 1)) [
  | inl one ↦ rw one (ground arith)
  | inr more ↦ rw more (omega (arith, put_digits-length ds (l - 1) (ground arith), ==_ne l 1 more))
]

hex-length : (n u : ℕ) (ds : List ℕ) → length (hex n u ds) ≡ n + length ds
unfolding hex
hex-length zero u ds = omega arith
hex-length (suc n) u ds = omega (arith, hex-length n (u / 16) (hexmap (u % 16) ∷ ds))

signed-length : (n l : ℕ) → 1 ≤ l → length (signed n l).0 + (signed n l).1 ≡ l
unfolding signed
signed-length n l h =
    let P = λ (q : List ℕ × ℕ). length q.0 + q.1 ≡ l in
    if_rule P (is_negative n) _ _
      (λ c.
        if_rule P (l == 1) _ _ (λ d. ground arith)
          (λ d. omega (arith, put_digits-length (digits 10 (negated n) []) (l - 1) (ground arith))))
      (λ c. put_digits-length (digits 10 n []) l h)

-- What a directive writes and the room it leaves fit into the room behind the `%`, and one more.
abbrev Fits : ℕ → Option Written → Type 0
Fits l none = Unit {0}
Fits l (some w) = length w.text + w.room ≤ suc l

directive-Fits : (k l : ℕ) (args : List Arg) → 1 ≤ l → Fits l (directive k l args)
unfolding directive
directive-Fits k l [] h =
    if_rule (Fits l) (k == 120 && ltb l 8) _ _ (λ c. omega arith)
      (λ c.
        if_rule (Fits l) (k == 88 && ltb l 2) _ _ (λ c. omega arith)
          (λ c.
            if_rule (Fits l) (k == 115 || k == 99 || k == 120 || k == 100 || k == 117 || k == 88) _
              _ (λ c. tt) (λ c. omega arith)))
directive-Fits k l (str s ∷ args) h =
    if_rule (Fits l) (k == 120 && ltb l 8) _ _ (λ c. omega arith)
      (λ c.
        if_rule (Fits l) (k == 88 && ltb l 2) _ _ (λ c. omega arith)
          (λ c.
            if_rule (Fits l) (k == 115) _ _ (λ c. omega (arith, copy_str-length s l))
              (λ c.
                if_rule (Fits l) (k == 99 || k == 120 || k == 100 || k == 117 || k == 88) _ _
                  (λ c. tt) (λ c. omega arith))))
directive-Fits k l (word n ∷ args) h =
    if_rule (Fits l) (k == 99) _ _ (λ c. omega arith)
      (λ c.
        if_rule (Fits l) (k == 120) _ _
          (λ c.
            if_rule (Fits l) (ltb l 8) _ _ (λ c. omega arith)
              (λ c. omega (arith, hex-length 8 n [], ltb_ge l 8 c)))
          (λ c.
            if_rule (Fits l) (k == 100) _ _ (λ c. omega (arith, signed-length n l h))
              (λ c.
                if_rule (Fits l) (k == 117) _ _
                  (λ c. omega (arith, put_digits-length (digits 10 n []) l h))
                  (λ c.
                    if_rule (Fits l) (k == 88) _ _
                      (λ c.
                        if_rule (Fits l) (ltb l 2) _ _ (λ c. omega arith)
                          (λ c. omega (arith, ltb_ge l 2 c)))
                      (λ c. if_rule (Fits l) (k == 115) _ _ (λ c. tt) (λ c. omega arith))))))

-- What the loop writes and the room it leaves fit into the room it had.
abbrev InRoom : ℕ → Option (List ℕ × ℕ) → Type 0
InRoom l none = Unit {0}
InRoom l (some (cs, r)) = length cs + r ≤ l

choose-InRoom :
    (l : ℕ) (b : Bool) (x y : Option (List ℕ × ℕ))
    → (b ≡ true → InRoom l x)
    → (b ≡ false → InRoom l y)
    → InRoom l (elim b [ false ↦ y | true ↦ x ])
choose-InRoom l true x y hx hy = hx refl
choose-InRoom l false x y hx hy = hy refl

prepend-InRoom :
    (cs : List ℕ) (m l : ℕ) (o : Option (List ℕ × ℕ))
    → length cs + m ≤ l
    → InRoom m o
    → InRoom l (prepend cs o)
prepend-InRoom cs m l none h i = tt
prepend-InRoom cs m l (some (ds, r)) h i = omega (arith, length-append cs ds)

after_directive :
    (l : ℕ) (o : Option Written) (go : Written → Option (List ℕ × ℕ))
    → Fits l o
    → ((w : Written) → length w.text + w.room ≤ suc l → InRoom (suc l) (go w))
    → InRoom (suc l) (elim o [ none ↦ none | some w ↦ go w ])
after_directive l none go f next = tt
after_directive l (some w) go f next = next w f

loop-InRoom : (l : ℕ) (fs : List ℕ) (args : List Arg) → InRoom l (loop l fs args)
unfolding loop
loop-InRoom zero fs args = omega arith
loop-InRoom (suc l) [] args = omega arith
loop-InRoom (suc l) (f ∷ []) args =
    choose-InRoom (suc l) (f == 37) _ _
      (λ c. if_rule (InRoom (suc l)) (l == 0) _ _ (λ d. omega arith) (λ d. tt)) (λ c. omega arith)
loop-InRoom (suc l) (f ∷ k ∷ []) args =
    choose-InRoom (suc l) (f == 37) _ _
      (λ c.
        if_rule (InRoom (suc l)) (l == 0) _ _ (λ d. omega arith)
          (λ d.
            after_directive l (directive k l args) _
              (directive-Fits k l args (ground (arith, ==_ne l 0 d)))
              (λ w h. if_rule (InRoom (suc l)) (k == 99 && ltb 0 w.room) _ _ (λ e. tt) (λ e. h))))
      (λ c. prepend-InRoom (f ∷ []) l (suc l) _ (omega arith) (loop-InRoom l (k ∷ []) args))
loop-InRoom (suc l) (f ∷ k ∷ g ∷ fs) args =
    choose-InRoom (suc l) (f == 37) _ _
      (λ c.
        choose-InRoom (suc l) (l == 0) _ _ (λ d. omega arith)
          (λ d.
            after_directive l (directive k l args) _
              (directive-Fits k l args (ground (arith, ==_ne l 0 d)))
              (λ w h.
                choose-InRoom (suc l) (k == 99) _ _
                  (λ e. prepend-InRoom w.text w.room (suc l) _ h (loop-InRoom w.room fs w.args))
                  (λ e.
                    prepend-InRoom w.text w.room (suc l) _ h
                      (loop-InRoom w.room (g ∷ fs) w.args)))))
      (λ c. prepend-InRoom (f ∷ []) l (suc l) _ (omega arith) (loop-InRoom l (k ∷ g ∷ fs) args))

-- Of a buffer of n bytes, `vsnprintf` writes at most n characters in front of the NUL, and it returns
-- at least as many as it wrote and at most n.
pub vsnprintf-length :
    (n ret : ℕ) (fmt : List ℕ) (args : List Arg) (cs : List ℕ)
    → vsnprintf n fmt args ≡ some (ret, some cs)
    → (length cs ≤ ret) × (ret ≤ n)
unfolding vsnprintf
vsnprintf-length zero ret fmt args cs e = cc
vsnprintf-length (suc n) ret fmt args cs e = elim (Option-cases (loop (suc n) fmt args)) [
  | inl q ↦ absurd (let e' : none ≡ some (ret, some cs) = rw (vsnprintf, q) at e in cc)
  | inr ((ds, l), q) ↦
      let e' : some (suc n - l, some ds) ≡ some (ret, some cs) = rw (vsnprintf, q) at e in
      let room : length ds + l ≤ suc n = subst (InRoom (suc n)) q (loop-InRoom (suc n) fmt args) in
      let pair = some-injective (suc n - l, some ds) (ret, some cs) e' in
      let ret_is : suc n - l ≡ ret = ap (λ (x : ℕ × Option (List ℕ)). x.0) pair in
      let text_is : ds ≡ cs = some-injective ds cs (ap (λ (x : ℕ × Option (List ℕ)). x.1) pair) in
      (omega (arith, room, ret_is, ap length text_is), omega (arith, room, ret_is))
]

-- A format without `%`.
abbrev pub Plain : List ℕ → Type 0
Plain [] = Unit {0}
Plain (f ∷ fs) = ((f == 37) ≡ false) × Plain fs

loop-Plain :
    (l : ℕ) (fs : List ℕ) (args : List Arg)
    → Plain fs
    → (r : ℕ) × (loop l fs args ≡ some (take l fs, r)) × (length (take l fs) + r ≡ l)
unfolding loop
loop-Plain zero fs args p = (0, refl, refl)
loop-Plain (suc l) [] args p = (suc l, refl, omega arith)
loop-Plain (suc zero) (f ∷ []) args p = (0, rw (loop, p.0), refl)
loop-Plain (suc (suc l)) (f ∷ []) args p = (suc l, rw (loop, p.0), omega arith)
loop-Plain (suc l) (f ∷ k ∷ []) args p =
    let (r, e, n) = loop-Plain l (k ∷ []) args p.1 in (r, rw (loop, p.0, e), omega arith)
loop-Plain (suc l) (f ∷ k ∷ g ∷ fs) args p =
    let (r, e, n) = loop-Plain l (k ∷ g ∷ fs) args p.1 in (r, rw (loop, p.0, e), omega arith)

length-take_le : (n : ℕ) (xs : List ℕ) → n ≤ length xs → length (take n xs) ≡ n
length-take_le zero xs h = refl
length-take_le (suc n) [] h = absurd (omega arith)
length-take_le (suc n) (x ∷ xs) h = omega (arith, length-take_le n xs (omega arith))

take_all : (n : ℕ) (xs : List ℕ) → length xs ≤ n → take n xs ≡ xs
take_all zero [] h = refl
take_all zero (x ∷ xs) h = absurd (omega arith)
take_all (suc n) [] h = refl
take_all (suc n) (x ∷ xs) h = ap (λ ys. x ∷ ys) (take_all n xs (omega arith))

-- A format without `%` is copied as far as the buffer has room, and the return value is the length
-- of the copy. When the format is no shorter than the buffer, the copy is as long as the buffer,
-- and the NUL that ends it is written behind the buffer.
pub vsnprintf-Plain :
    (n : ℕ) (fmt : List ℕ) (args : List Arg)
    → Plain fmt
    → 1 ≤ n
    → (vsnprintf n fmt args ≡ some (length (take n fmt), some (take n fmt)))
      × (length fmt ≤ n → take n fmt ≡ fmt)
      × (n ≤ length fmt → length (take n fmt) ≡ n)
unfolding vsnprintf
vsnprintf-Plain zero fmt args p h = absurd (omega arith)
vsnprintf-Plain (suc n) fmt args p h =
    let (r, e, sum) = loop-Plain (suc n) fmt args p in
    let ret : suc n - r ≡ length (take (suc n) fmt) = omega (arith, sum) in
    (
      rw (vsnprintf, e) (ap (λ x. some (x, some (take (suc n) fmt))) ret),
      take_all (suc n) fmt,
      length-take_le (suc n) fmt,
    )
