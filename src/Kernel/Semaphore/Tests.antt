-- ===== src/Kernel/Semaphore/Tests.antt =====
-- The semaphores after `init_semaphores`, runs of the operations, and the theorems at these states.
use kernelreloaded.Common.{
  ℤ, ℕ, ◌≡◌, refl, sym, subst, false, none, some, List, [], ◌∷◌, arith, pos, negsuc, get_or, set,
}
use kernelreloaded.Kernel.Semaphore.{
  Sema, Semas, EeSema, number_of_semaphores, create_sema, wait_sema, init_semaphores, boot_table,
  fill, zero_sema,
}
use kernelreloaded.Kernel.Semaphore.FreeList.{Inv, create-Created}
use kernelreloaded.Kernel.Semaphore.Spec.{Call, create, delete, wait, signal, pool, Trace}
use kernelreloaded.Kernel.Semaphore.Counts.{calls, calls-Trace}
use kernelreloaded.Kernel.Semaphore.Waiting.{now, later, wait-Served, with_count}
use kernelreloaded.Kernel.Semaphore.Init.{range, init-Inv}

booted : Semas
unfolding init_semaphores
booted = init_semaphores boot_table

booted-Inv : Inv booted (range 0 number_of_semaphores)
unfolding booted
booted-Inv = init-Inv boot_table refl

abbrev request : EeSema
request = record {
  count = pos 0;
  max_count = pos 5;
  init_count = pos 2;
  wait_threads = pos 0;
  attr = 0;
  option = 0;
}

-- One semaphore in use, with count 2.
one_used : Semas
unfolding booted
one_used = record {
  table = set booted.table 0 (fill request (get_or booted.table 0 zero_sema));
  head = some 1;
}

abbrev entry : Sema
entry = record {
  count = pos 2;
  max_count = pos 5;
  init_count = pos 0;
  wait_threads = pos 0;
  attr = 0;
  option = 0;
  next = none;
  index = 0;
  free = false;
}

create_runs : create_sema request booted ≡ some (pos 0, one_used)
unfolding create_sema one_used
create_runs = refl

one_used-Inv : Inv one_used (range 1 31)
unfolding one_used create_sema
one_used-Inv =
    let c = create-Created request booted refl booted-Inv in
    let e : one_used ≡ c.0 = cc (create_runs, c.1.run) in
    subst (λ s. Inv s (range 1 31)) (sym e) c.1.inv

abbrev some_calls : List Call
some_calls = create request ∷ wait 0 ∷ signal 7 ∷ delete (negsuc 4) ∷ delete (pos 0) ∷ wait 40 ∷ []

calls-Trace_example :
    (r : List ℤ × Semas) × (js : List ℕ) × (calls some_calls one_used ≡ some r)
    × Inv r.1 js
    × Trace (pool one_used.table) some_calls r.0 (pool r.1.table)
calls-Trace_example = calls-Trace some_calls one_used (range 1 31) one_used-Inv

-- An interrupt that gives semaphore 3 a count of 1, in the second round.
idle_round : Semas → Semas
idle_round st = st

granted : Semas
unfolding booted
granted = with_count 3 (get_or booted.table 3 zero_sema) (pos 1) booted

grant_round : Semas → Semas
grant_round st = granted

wait-Served_example :
    wait_sema 3 (idle_round ∷ grant_round ∷ []) booted
    ≡ some (pos 3, with_count 3 (get_or granted.table 3 zero_sema) (pos 0) granted)
unfolding idle_round grant_round granted
wait-Served_example = wait-Served 3 (omega arith) (
    later idle_round (get_or booted.table 3 zero_sema) refl refl (
      later grant_round (get_or booted.table 3 zero_sema) refl refl
        (now (get_or granted.table 3 zero_sema) 0 refl refl refl)))
