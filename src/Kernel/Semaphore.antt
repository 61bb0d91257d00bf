-- ===== src/Kernel/Semaphore.antt =====
-- kernel/thread.c: the semaphores, kept in an array of 32 whose unused entries form a linked list.
-- A pointer into the array is its index, and NULL is `none`. An operation that would touch memory
-- outside the array is `none`. A C `int` count wraps as the target's `addu` does.
pub mod FreeList
pub mod Spec
pub mod Counts
pub mod Init
pub mod Waiting
mod Tests
use kernelreloaded.Common.{
  ℕ, zero, suc, ◌+◌, ◌-◌, ◌^◌, Bool, true, false, ◌||◌, Option, none, some, List, [], ◌∷◌, ltb, leb,
  ◌==◌, if◌then◌else◌, ℤ, pos, negsuc, is_neg, get_elem?, set, replicate,
}

abbrev pub number_of_semaphores : ℕ
number_of_semaphores = 32

-- `struct kernel_sema`; the field `free` is only tested against zero.
pub record Sema : Type 0 where
  pub count : ℤ
  pub max_count : ℤ
  pub init_count : ℤ
  pub wait_threads : ℤ
  pub attr : ℕ
  pub option : ℕ
  pub next : Option ℕ
  pub index : ℕ
  pub free : Bool

-- `semaphoreArray` and `semaphoreListHead`.
pub record Semas : Type 0 where
  pub table : List Sema
  pub head : Option ℕ

-- `ee_sema_t`, the argument of `syscallCreateSema`.
pub record EeSema : Type 0 where
  pub count : ℤ
  pub max_count : ℤ
  pub init_count : ℤ
  pub wait_threads : ℤ
  pub attr : ℕ
  pub option : ℕ

abbrev pub minus_one : ℤ
minus_one = negsuc 0

abbrev pub minus_two : ℤ
minus_two = negsuc 1

abbrev pub int_max : ℕ
int_max = 2 ^ 31 - 1

-- `count++` and `count--` on a 32-bit `int`.
abbrev pub inc_int : ℤ → ℤ
inc_int (pos n) = if n == int_max then negsuc int_max else pos (n + 1)
inc_int (negsuc zero) = pos 0
inc_int (negsuc (suc n)) = negsuc n

abbrev pub dec_int : ℤ → ℤ
dec_int (pos zero) = negsuc 0
dec_int (pos (suc n)) = pos n
dec_int (negsuc n) = if n == int_max then pos int_max else negsuc (n + 1)

abbrev pub is_pos : ℤ → Bool
is_pos (pos zero) = false
is_pos (pos (suc n)) = true
is_pos (negsuc n) = false

-- The entry that `syscallCreateSema` writes; `init_count` and `index` keep what they held.
abbrev pub fill : EeSema → Sema → Sema
fill e s = record s {
  count = e.init_count;
  max_count = e.max_count;
  wait_threads = e.wait_threads;
  attr = e.attr;
  option = e.option;
  free = false;
  next = none;
}

unfoldable pub create_sema : EeSema → Semas → Option (ℤ × Semas)
create_sema e st = if is_neg e.init_count then some (minus_one, st) else elim st.head [
  | none ↦ some (minus_one, st)
  | some h ↦ elim (get_elem? st.table h) [
    | none ↦ none
    | some s ↦ some (pos s.index, record st { table = set st.table h (fill e s); head = s.next })
  ]
]

-- `iDeleteSema` at an id that has passed the two range checks.
delete_entry : ℕ → Sema → Semas → ℤ × Semas
delete_entry id s st = if s.free then (minus_one, st) else (
  pos id,
  record st { table = set st.table id (record s { next = st.head; free = true }); head = some id },
)

unfoldable pub delete_sema : ℤ → Semas → Option (ℤ × Semas)
unfolding delete_entry
delete_sema (negsuc n) st = some (minus_one, st)
delete_sema (pos id) st =
    if leb number_of_semaphores id
    then some (minus_one, st)
    else elim (get_elem? st.table id) [ none ↦ none | some s ↦ some (delete_entry id s st) ]

wait_entry : ℕ → Sema → Semas → ℤ × Semas
wait_entry sid s st =
    if is_neg s.count
    then (minus_one, st)
    else if is_pos s.count
    then (pos sid, record st { table = set st.table sid (record s { count = dec_int s.count }) })
    else (minus_two, st)

-- `iWaitSema`, whose argument is unsigned.
unfoldable pub i_wait_sema : ℕ → Semas → Option (ℤ × Semas)
unfolding wait_entry
i_wait_sema sid st =
    if leb number_of_semaphores sid
    then some (minus_one, st)
    else elim (get_elem? st.table sid) [ none ↦ none | some s ↦ some (wait_entry sid s st) ]

signal_entry : ℕ → Sema → Semas → ℤ × Semas
signal_entry sid s st =
    if is_neg s.count
    then (minus_one, st)
    else (pos 0, record st { table = set st.table sid (record s { count = inc_int s.count }) })

-- `iSignalSema`, whose argument is signed and checked from above only.
unfoldable pub i_signal_sema : ℤ → Semas → Option (ℤ × Semas)
unfolding signal_entry
i_signal_sema (negsuc n) st = none
i_signal_sema (pos sid) st =
    if leb number_of_semaphores sid
    then some (minus_one, st)
    else elim (get_elem? st.table sid) [ none ↦ none | some s ↦ some (signal_entry sid s st) ]

-- The loop of `WaitSema`. Each round opens the interrupts once: the list holds what the interrupt
-- handlers do to the semaphores in the successive rounds. `none` means still waiting, or a fault. The
-- CP0 status, which `WaitSema` saves and restores, is left out.
unfoldable pub wait_rounds : ℕ → List (Semas → Semas) → Option (ℤ × Semas) → Option (ℤ × Semas)
wait_rounds sid rounds none = none
wait_rounds sid [] (some (pos r, st)) = some (pos r, st)
wait_rounds sid (f ∷ fs) (some (pos r, st)) = some (pos r, st)
wait_rounds sid [] (some (negsuc n, st)) = if n == 1 then none else some (negsuc n, st)
wait_rounds sid (f ∷ fs) (some (negsuc n, st)) =
    let again = wait_rounds sid fs (i_wait_sema sid (f st)) in
    if n == 1 then again else some (negsuc n, st)

unfoldable pub wait_sema : ℕ → List (Semas → Semas) → Semas → Option (ℤ × Semas)
unfolding wait_rounds
wait_sema sid rounds st = wait_rounds sid rounds (i_wait_sema sid st)

-- One entry of `init_semaphores`.
abbrev pub init_entry : ℕ → Option ℕ → Sema → Sema
init_entry i next s = record s { next = next; index = i; free = true }

-- `for (i = 0; i < NUMBER_OF_SEMAPHORES - 1; i++)`, by the entries left to do; the last entry of
-- the array is written behind the loop.
unfoldable pub init_loop : ℕ → List Sema → List Sema
init_loop i [] = []
init_loop i (s ∷ []) = init_entry i none s ∷ []
init_loop i (s ∷ t ∷ ss) = init_entry i (some (suc i)) s ∷ init_loop (suc i) (t ∷ ss)

unfoldable pub init_semaphores : List Sema → Semas
unfolding init_loop
init_semaphores table = record { table = init_loop 0 table; head = some 0 }

-- `semaphoreArray` as the kernel is loaded: all zero.
abbrev pub zero_sema : Sema
zero_sema = record {
  count = pos 0;
  max_count = pos 0;
  init_count = pos 0;
  wait_threads = pos 0;
  attr = 0;
  option = 0;
  next = none;
  index = 0;
  free = false;
}

abbrev pub boot_table : List Sema
boot_table = replicate number_of_semaphores zero_sema
