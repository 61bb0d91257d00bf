-- ===== src/Kernel/Snprintf.antt =====
-- kernel/snprintf.c: `vsnprintf`. A text is the list of its characters, without the NUL.
pub mod Bounds
pub mod Decimal
mod Tests
use kernelreloaded.Common.{
  ℕ, zero, suc, ◌+◌, ◌-◌, ◌/◌, ◌%◌, ◌^◌, ap, Bool, true, false, not, ◌&&◌, ◌||◌, Option, none, some,
  List, [], ◌∷◌, ◌++◌, map, ltb, leb, ◌==◌, if◌then◌else◌, is_neg, length,
}

-- An argument: a string, or a 32-bit word.
pub data Arg : Type 0 where
  str : List ℕ → Arg
  word : ℕ → Arg

-- What is written, the room `l` that is left, and the arguments that are left.
pub record Written : Type 0 where
  pub text : List ℕ
  pub room : ℕ
  pub args : List Arg

-- `hexmap`.
abbrev pub hexmap : ℕ → ℕ
hexmap d = if ltb d 10 then 48 + d else 87 + d

-- The loop of `%s`: as much of the string as there is room for.
unfoldable pub copy_str : List ℕ → ℕ → List ℕ × ℕ
copy_str [] l = ([], l)
copy_str (c ∷ cs) zero = ([], zero)
copy_str (c ∷ cs) (suc l) = let (ds, rest) = copy_str cs l in (c ∷ ds, rest)

-- The digits that the first loop at `u2` leaves in `d`, by the places of `d`.
unfoldable pub digits : ℕ → ℕ → List ℕ → List ℕ
digits zero u ds = ds
digits (suc n) u ds =
    let more = digits n (u / 10) ((48 + u % 10) ∷ ds) in
    if u / 10 == 0 then (48 + u % 10) ∷ ds else more

-- The second loop, which stops when the room is used up, behind the digit that used it up.
unfoldable pub put_digits : List ℕ → ℕ → List ℕ × ℕ
put_digits [] l = ([], l)
put_digits (d ∷ ds) l =
    let (es, rest) = put_digits ds (l - 1) in if l == 1 then (d ∷ [], 0) else (d ∷ es, rest)

-- The eight digits of `%x`, the last n of the word u in front of those in ds.
unfoldable pub hex : ℕ → ℕ → List ℕ → List ℕ
hex zero u ds = ds
hex (suc n) u ds = hex n (u / 16) (hexmap (u % 16) ∷ ds)

abbrev pub is_negative : ℕ → Bool
is_negative n = leb (2 ^ 31) n

-- `-n`, of a negative word.
abbrev pub negated : ℕ → ℕ
negated n = 2 ^ 32 - n

-- `%d`: the sign may use up the room.
unfoldable pub signed : ℕ → ℕ → List ℕ × ℕ
unfolding put_digits digits
signed n l =
    if is_negative n
    then (let (ds, rest) = put_digits (digits 10 (negated n) []) (l - 1) in
        if l == 1 then (45 ∷ [], 0) else (45 ∷ ds, rest))
    else put_digits (digits 10 n []) l

abbrev pub finish : List ℕ × ℕ → List Arg → Written
finish (cs, l) args = record { text = cs; room = l; args = args }

-- A directive with its argument, `none` where the argument is missing or of the other kind. Without
-- room for all digits, `%x` and `%X` end the text and leave their argument.
unfoldable pub directive : ℕ → ℕ → List Arg → Option Written
unfolding copy_str signed put_digits digits hex
directive k l [] =
    if k == 120 && ltb l 8
    then some (finish ([], 0) [])
    else if k == 88 && ltb l 2
    then some (finish ([], 0) [])
    else if k == 115 || k == 99 || k == 120 || k == 100 || k == 117 || k == 88
    then none
    else some (finish (k ∷ [], l) [])
directive k l (str s ∷ args) =
    if k == 120 && ltb l 8
    then some (finish ([], 0) (str s ∷ args))
    else if k == 88 && ltb l 2
    then some (finish ([], 0) (str s ∷ args))
    else if k == 115
    then some (finish (copy_str s l) args)
    else if k == 99 || k == 120 || k == 100 || k == 117 || k == 88
    then none
    else some (finish (k ∷ [], l) (str s ∷ args))
directive k l (word n ∷ args) =
    if k == 99
    then some (finish (n % 256 ∷ [], l - 1) args)
    else if k == 120
    then (if ltb l 8
        then some (finish ([], 0) (word n ∷ args))
        else some (finish (hex 8 n [], l - 8) args))
    else if k == 100
    then some (finish (signed n l) args)
    else if k == 117
    then some (finish (put_digits (digits 10 n []) l) args)
    else if k == 88
    then (if ltb l 2
        then some (finish ([], 0) (word n ∷ args))
        else some (finish (hexmap (n / 16 % 16) ∷ hexmap (n % 16) ∷ [], l - 2) args))
    else if k == 115
    then none
    else some (finish (k ∷ [], l) (word n ∷ args))

-- What a directive writes, in front of what the rest of the format writes.
abbrev pub prepend : List ℕ → Option (List ℕ × ℕ) → Option (List ℕ × ℕ)
prepend cs none = none
prepend cs (some (ds, l)) = some (cs ++ ds, l)

-- The outer loop: the characters written and the room left. `%c` skips one character of the format
-- more than it should, so that at the end of the format it, like a single `%`, runs on behind the
-- NUL while there is room: `none`.
unfoldable pub loop : ℕ → List ℕ → List Arg → Option (List ℕ × ℕ)
unfolding directive
loop zero fs args = some ([], 0)
loop (suc l) [] args = some ([], suc l)
loop (suc l) (f ∷ []) args = elim (f == 37) [
  | false ↦ some (f ∷ [], l)
  | true ↦ if l == 0 then some ([], 0) else none
]
loop (suc l) (f ∷ k ∷ []) args = elim (f == 37) [
  | false ↦ prepend (f ∷ []) (loop l (k ∷ []) args)
  | true ↦ if l == 0 then some ([], 0) else elim (directive k l args) [
    | none ↦ none
    | some w ↦ if (k == 99) && ltb 0 w.room then none else some (w.text, w.room)
  ]
]
loop (suc l) (f ∷ k ∷ g ∷ fs) args = elim (f == 37) [
  | false ↦ prepend (f ∷ []) (loop l (k ∷ g ∷ fs) args)
  | true ↦ elim (l == 0) [
    | true ↦ some ([], 0)
    | false ↦ elim (directive k l args) [
      | none ↦ none
      | some w ↦ elim (k == 99) [
        | true ↦ prepend w.text (loop w.room fs w.args)
        | false ↦ prepend w.text (loop w.room (g ∷ fs) w.args)
      ]
    ]
  ]
]

-- `vsnprintf`, with a buffer and a format that are not NULL: the return value and the characters in
-- front of the NUL that ends the text; of a length below 1 nothing is written.
unfoldable pub vsnprintf : ℕ → List ℕ → List Arg → Option (ℕ × Option (List ℕ))
unfolding loop
vsnprintf zero fmt args = some (0, none)
vsnprintf (suc n) fmt args = elim (loop (suc n) fmt args) [
  | none ↦ none
  | some (cs, l) ↦ some (suc n - l, some cs)
]
