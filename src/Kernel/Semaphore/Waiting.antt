-- ===== src/Kernel/Semaphore/Waiting.antt =====
-- `WaitSema`, `iWaitSema` and `iSignalSema` on one entry: when the wait ends, and what it leaves.
use kernelreloaded.Common.{
  set-get_elem?, ◌∙◌, set-set, true, sym, ℕ, suc, ◌+◌, ◌<◌, ◌≡◌, ap, false, some, List, [], ◌∷◌,
  arith, leb, ◌==◌, ℤ, pos, get_elem?, set, get_elem?-set_self, lt-length_of_some,
}
use kernelreloaded.Kernel.Semaphore.{
  Sema, Semas, number_of_semaphores, minus_two, delete_sema, i_wait_sema, i_signal_sema, int_max,
  wait_rounds, wait_sema,
}

abbrev pub with_count : ℕ → Sema → ℤ → Semas → Semas
with_count sid s c st = record st { table = set st.table sid (record s { count = c }) }

-- `st'` is what the rounds `fs` lead to: in each the count is still zero, until in one it is not,
-- and is taken down by one.
pub data Served (sid : ℕ) : List (Semas → Semas) → Semas → Semas → Type 0 where
  now :
      {fs : List (Semas → Semas)} {st st' : Semas} (s : Sema) (n : ℕ)
      → get_elem? st.table sid ≡ some s
      → s.count ≡ pos (suc n)
      → st' ≡ with_count sid s (pos n) st
      → Served sid fs st st'
  later :
      {fs : List (Semas → Semas)} {st st' : Semas} (f : Semas → Semas) (s : Sema)
      → get_elem? st.table sid ≡ some s
      → s.count ≡ pos 0
      → Served sid fs (f st) st'
      → Served sid (f ∷ fs) st st'

module _ (st : Semas) (sid : ℕ) (s : Sema) (small : sid < number_of_semaphores)
    (got : get_elem? st.table sid ≡ some s) where
  near : leb number_of_semaphores sid ≡ false
  near = ground arith

  wait-ready :
      (n : ℕ)
      → s.count ≡ pos (suc n)
      → i_wait_sema sid st ≡ some (pos sid, with_count sid s (pos n) st)
  unfolding i_wait_sema
  wait-ready n c = rw (near, got, c)

  wait-empty : s.count ≡ pos 0 → i_wait_sema sid st ≡ some (minus_two, st)
  unfolding i_wait_sema
  wait-empty c = rw (near, got, c)

  signal-ready :
      (n : ℕ)
      → s.count ≡ pos n
      → n < int_max
      → i_signal_sema (pos sid) st ≡ some (pos 0, with_count sid s (pos (n + 1)) st)
  unfolding i_signal_sema
  signal-ready n c room =
      let open_ : (n == int_max) ≡ false = ground arith in rw (near, got, c, open_)

-- `WaitSema` returns the id, with the count taken down, as soon as a round finds it above zero.
pub wait-Served :
    (sid : ℕ) {fs : List (Semas → Semas)} {st st' : Semas}
    → sid < number_of_semaphores
    → Served sid fs st st'
    → wait_sema sid fs st ≡ some (pos sid, st')
unfolding wait_sema
wait-Served sid {fs = []} {st} small (now s n got c e) = rw (wait-ready st sid s small got n c, e)
wait-Served sid {fs = f ∷ fs} {st} small (now s n got c e) =
    rw (wait-ready st sid s small got n c, e)
wait-Served sid {st} small (later f s got c rest) =
    rw (wait-empty st sid s small got c, wait_rounds) (wait-Served sid small rest)

-- A signal is undone by a wait: both succeed, and the array and the list head are as they were.
pub signal-wait :
    (st : Semas) (sid n : ℕ) (s : Sema)
    → sid < number_of_semaphores
    → get_elem? st.table sid ≡ some s
    → s.count ≡ pos n
    → n < int_max
    → (st' : Semas) × (i_signal_sema (pos sid) st ≡ some (pos 0, st'))
      × (i_wait_sema sid st' ≡ some (pos sid, st))
signal-wait st sid n s small got c room =
    let up : Sema = record s { count = pos (n + 1) } in
    let st' = with_count sid s (pos (n + 1)) st in
    let there = get_elem?-set_self st.table sid up (lt-length_of_some st.table sid s got) in
    let same : record s { count = pos n } ≡ s = λ i. record s { count = sym c i } in
    let table =
      set-set st.table sid up (record s { count = pos n })
      ∙ ap (λ (x : Sema). set st.table sid x) same
      ∙ set-get_elem? st.table sid s got in
    (
      st',
      signal-ready st sid s small got n c room,
      wait-ready st' sid up small there n (ap pos (omega arith))
          ∙ ap (λ (t : List Sema). some (pos sid, record st { table = t })) table,
    )

-- `iDeleteSema` leaves the count alone and `iWaitSema` does not ask whether the entry is in use:
-- a wait on a semaphore deleted with a positive count succeeds.
pub delete-wait :
    (st : Semas) (id n : ℕ) (s : Sema)
    → id < number_of_semaphores
    → get_elem? st.table id ≡ some s
    → s.free ≡ false
    → s.count ≡ pos (suc n)
    → (st' : Semas) × (st'' : Semas) × (delete_sema (pos id) st ≡ some (pos id, st'))
      × (i_wait_sema id st' ≡ some (pos id, st''))
unfolding delete_sema
delete-wait st id n s small got busy c =
    let v : Sema = record s { next = st.head; free = true } in
    let st' : Semas = record st { table = set st.table id v; head = some id } in
    let there = get_elem?-set_self st.table id v (lt-length_of_some st.table id s got) in
    let far : leb number_of_semaphores id ≡ false = ground arith in
    (st', with_count id v (pos n) st', rw (far, got, busy), wait-ready st' id v small there n c)
