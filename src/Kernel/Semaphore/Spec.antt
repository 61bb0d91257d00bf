-- ===== src/Kernel/Semaphore/Spec.antt =====
-- The semaphores as a program sees them: which ids are in use, and with what count.
use kernelreloaded.Common.{
  List, [], ◌∷◌, ℕ, ◌≤◌, ◌<◌, ◌≡◌, ap, true, false, Option, none, some, List, arith, if◌then◌else◌,
  ℤ, pos, negsuc, is_neg, length, get_elem?, set, get_elem?-set_self, get_elem?-set_ne,
  lt-length_of_some, get_elem?-none, has,
}
use kernelreloaded.Kernel.Semaphore.{
  Sema, Semas, EeSema, number_of_semaphores, minus_one, minus_two, create_sema, delete_sema,
  i_wait_sema, i_signal_sema, is_pos, inc_int, dec_int,
}
use kernelreloaded.Kernel.Semaphore.FreeList.{Inv}

-- `iWaitSema` takes an unsigned id; of `iSignalSema` the calls with an id that is not negative.
pub data Call : Type 0 where
  create : EeSema → Call
  delete : ℤ → Call
  wait : ℕ → Call
  signal : ℕ → Call

unfoldable pub call : Call → Semas → Option (ℤ × Semas)
call (create e) st = create_sema e st
call (delete id) st = delete_sema id st
call (wait sid) st = i_wait_sema sid st
call (signal sid) st = i_signal_sema (pos sid) st

-- An id that is not in use has no count.
abbrev pub Pool : Type 0
Pool = ℕ → Option ℤ

abbrev pub Becomes : Pool → ℕ → Option ℤ → Pool → Type 0
Becomes p i c q = (q i ≡ c) × ((j : ℕ) → (i ≡ j → ⊥) → q j ≡ p j)

abbrev pub Same : Pool → Pool → Type 0
Same p q = (j : ℕ) → q j ≡ p j

-- What a call may return, and how the pool changes. Which unused id a new semaphore gets is left
-- open, and so is what waiting and signalling return for an id that is not in use.
pub data Step (p : Pool) : Call → ℤ → Pool → Type 0 where
  created :
      {q : Pool} (e : EeSema) (i : ℕ)
      → is_neg e.init_count ≡ false
      → i < number_of_semaphores
      → p i ≡ none
      → Becomes p i (some e.init_count) q
      → Step p (create e) (pos i) q
  create_negative :
      {q : Pool} (e : EeSema)
      → is_neg e.init_count ≡ true
      → Same p q
      → Step p (create e) minus_one q
  create_exhausted :
      {q : Pool} (e : EeSema)
      → ((i : ℕ) → i < number_of_semaphores → p i ≡ none → ⊥)
      → Same p q
      → Step p (create e) minus_one q
  deleted :
      {q : Pool} (i : ℕ) (c : ℤ)
      → p i ≡ some c
      → Becomes p i none q
      → Step p (delete (pos i)) (pos i) q
  delete_negative : {q : Pool} (n : ℕ) → Same p q → Step p (delete (negsuc n)) minus_one q
  delete_unused : {q : Pool} (i : ℕ) → p i ≡ none → Same p q → Step p (delete (pos i)) minus_one q
  taken :
      {q : Pool} (i : ℕ) (c : ℤ)
      → p i ≡ some c
      → is_pos c ≡ true
      → Becomes p i (some (dec_int c)) q
      → Step p (wait i) (pos i) q
  would_block : {q : Pool} (i : ℕ) → p i ≡ some (pos 0) → Same p q → Step p (wait i) minus_two q
  wait_negative :
      {q : Pool} (i : ℕ) (c : ℤ)
      → p i ≡ some c
      → is_neg c ≡ true
      → Same p q
      → Step p (wait i) minus_one q
  wait_unused : {q : Pool} (i : ℕ) (r : ℤ) → p i ≡ none → Same p q → Step p (wait i) r q
  signalled :
      {q : Pool} (i : ℕ) (c : ℤ)
      → p i ≡ some c
      → is_neg c ≡ false
      → Becomes p i (some (inc_int c)) q
      → Step p (signal i) (pos 0) q
  signal_negative :
      {q : Pool} (i : ℕ) (c : ℤ)
      → p i ≡ some c
      → is_neg c ≡ true
      → Same p q
      → Step p (signal i) minus_one q
  signal_unused : {q : Pool} (i : ℕ) (r : ℤ) → p i ≡ none → Same p q → Step p (signal i) r q

pub data Trace : Pool → List Call → List ℤ → Pool → Type 0 where
  stop : {p : Pool} → Trace p [] [] p
  go_on :
      {c : Call} {cs : List Call} {v : ℤ} {vs : List ℤ} {p q r : Pool}
      → Step p c v q
      → Trace q cs vs r
      → Trace p (c ∷ cs) (v ∷ vs) r

abbrev pub count_of : Option Sema → Option ℤ
count_of none = none
count_of (some s) = if s.free then none else some s.count

-- The pool that an array stands for.
abbrev pub pool : List Sema → Pool
pool t i = count_of (get_elem? t i)

pub pool_used :
    (st : Semas) (is : List ℕ) (i : ℕ) (s : Sema)
    → Inv st is
    → get_elem? st.table i ≡ some s
    → has i is ≡ false
    → pool st.table i ≡ some s.count
pool_used st is i s inv got out = rw got (ground (arith, inv.marked i s got))

pub pool_unused :
    (st : Semas) (is : List ℕ) (i : ℕ) (s : Sema)
    → Inv st is
    → get_elem? st.table i ≡ some s
    → has i is ≡ true
    → pool st.table i ≡ none
pool_unused st is i s inv got fre = rw got (ground (arith, inv.marked i s got))

pub pool_far : (t : List Sema) (i : ℕ) → length t ≤ i → pool t i ≡ none
pool_far t i h = rw (get_elem?-none t i h)

pub pool-set :
    (t : List Sema) (i : ℕ) (s v : Sema)
    → get_elem? t i ≡ some s
    → Becomes (pool t) i (count_of (some v)) (pool (set t i v))
pool-set t i s v got = (
  ap count_of (get_elem?-set_self t i v (lt-length_of_some t i s got)),
  λ j ne. ap count_of (get_elem?-set_ne t i j v ne),
)
