-- ===== src/Kernel/Semaphore/Counts.antt =====
-- The calls on the semaphores against the pool of Kernel/Semaphore/Spec: what they return, how the
-- count moves, and that no sequence of calls with ids that are not negative leaves the array or
-- the free list in disorder.
use kernelreloaded.Common.{
  ◌>>=◌, ℕ, zero, suc, ◌<◌, ◌≡◌, refl, sym, ap, ◌∙◌, ◌⊎◌, inl, inr, true, false, Option, none, some,
  List, [], ◌∷◌, arith, leb, ◌==◌, eq_of_==, ==_refl, ==_ne, Bool-cases, ℤ, pos, negsuc, is_neg,
  get_elem?, set, get_elem?-some, lt-length_of_some, has,
}
use kernelreloaded.Kernel.Semaphore.{
  Sema, Semas, EeSema, number_of_semaphores, minus_one, minus_two, create_sema, delete_sema,
  i_wait_sema, wait_entry, i_signal_sema, signal_entry, is_pos, inc_int, dec_int,
}
use kernelreloaded.Kernel.Semaphore.FreeList.{
  Inv, count-Inv, create-Created, create-full, delete-Inv, delete-refused, SameElse, Created,
}
use kernelreloaded.Kernel.Semaphore.Spec.{
  Call, create, delete, wait, signal, call, Pool, Becomes, Same, Step, Trace, stop, go_on, created,
  create_negative, create_exhausted, deleted, delete_negative, delete_unused, taken, would_block,
  wait_negative, wait_unused, signalled, signal_negative, signal_unused, count_of, pool, pool_used,
  pool_unused, pool_far, pool-set,
}

-- The call gives some result, which the pool allows, in a state whose free list is in order again.
pub record Refined (c : Call) (st : Semas) : Type 0 where
  pub value : ℤ
  pub after : Semas
  pub is : List ℕ
  pub result : call c st ≡ some (value, after)
  pub inv : Inv after is
  pub step : Step (pool st.table) c value (pool after.table)

sign_cases : (c : ℤ) → (is_neg c ≡ true) ⊎ (((is_neg c ≡ false) × (is_pos c ≡ true)) ⊎ (c ≡ pos 0))
sign_cases (pos zero) = inr (inr refl)
sign_cases (pos (suc n)) = inr (inl (refl, refl))
sign_cases (negsuc n) = inl refl

some_not_none : (c : ℤ) → some c ≡ none → ⊥
some_not_none c e = cc

module _ (st : Semas) (is : List ℕ) (inv : Inv st is) where
  stays :
      (c : Call) (v : ℤ)
      → call c st ≡ some (v, st)
      → Step (pool st.table) c v (pool st.table)
      → Refined c st
  stays c v e s = record { value = v; after = st; is = is; result = e; inv = inv; step = s }

  recounted :
      (c : Call) (v : ℤ) (i : ℕ) (s : Sema) (n : ℤ)
      → get_elem? st.table i ≡ some s
      → call c st ≡ some (v, record st { table = set st.table i (record s { count = n }) })
      → Step (pool st.table) c v (pool (set st.table i (record s { count = n })))
      → Refined c st
  recounted c v i s n got e step = record {
    value = v;
    after = record st { table = set st.table i (record s { count = n }) };
    is = is;
    result = e;
    inv = count-Inv st i is s n inv got;
    step = step;
  }

  entry :
      (sid : ℕ)
      → leb number_of_semaphores sid ≡ false
      → (s : Sema) × (get_elem? st.table sid ≡ some s)
  entry sid near = get_elem?-some st.table sid (ground (arith, inv.size))

  far_unused : (i : ℕ) → leb number_of_semaphores i ≡ true → pool st.table i ≡ none
  far_unused i far = pool_far st.table i (ground (arith, inv.size))

  -- A new count in an entry that is not in use does not show.
  hidden :
      (i : ℕ) (s : Sema) (n : ℤ)
      → get_elem? st.table i ≡ some s
      → s.free ≡ true
      → Same (pool st.table) (pool (set st.table i (record s { count = n })))
  hidden i s n got free j = elim (Bool-cases (i == j)) [
    | inl e ↦
        let ij = eq_of_== i j e in
        rw (← ij) ((pool-set st.table i s (record s { count = n }) got).0 ∙ rw (got, free) refl)
    | inr ne ↦ (pool-set st.table i s (record s { count = n }) got).1 j (==_ne i j ne)
  ]

  shown :
      (i : ℕ) (s : Sema)
      → get_elem? st.table i ≡ some s
      → s.free ≡ false
      → pool st.table i ≡ some s.count
  shown i s got used = rw (got, used) refl

  moved :
      (i : ℕ) (s : Sema) (n : ℤ)
      → get_elem? st.table i ≡ some s
      → s.free ≡ false
      → Becomes (pool st.table) i (some n) (pool (set st.table i (record s { count = n })))
  moved i s n got used =
      let b = pool-set st.table i s (record s { count = n }) got in (b.0 ∙ rw used refl, b.1)

  -- A step on an entry is one of an unused id, or one of an id that counts `s.count`.
  by_use :
      (i : ℕ) (s : Sema) (c : Call) (v : ℤ) (q : Pool)
      → get_elem? st.table i ≡ some s
      → (s.free ≡ true → Step (pool st.table) c v q)
      → (s.free ≡ false → pool st.table i ≡ some s.count → Step (pool st.table) c v q)
      → Step (pool st.table) c v q
  by_use i s c v q got free used = elim (Bool-cases s.free) [
    | inl f ↦ free f
    | inr f ↦ used f (shown i s got f)
  ]

  free_unused :
      (i : ℕ) (s : Sema) → get_elem? st.table i ≡ some s → s.free ≡ true → pool st.table i ≡ none
  free_unused i s got f = rw (got, f) refl

  wait_run :
      (i : ℕ) (s : Sema)
      → leb number_of_semaphores i ≡ false
      → get_elem? st.table i ≡ some s
      → call (wait i) st ≡ some (wait_entry i s st)
  unfolding call i_wait_sema
  wait_run i s near got = rw (near, got) refl

  wait_at :
      (i : ℕ) (s : Sema)
      → leb number_of_semaphores i ≡ false
      → get_elem? st.table i ≡ some s
      → Refined (wait i) st
  unfolding wait_entry
  wait_at i s near got = elim (sign_cases s.count) [
    | inl neg ↦ stays (wait i) minus_one (wait_run i s near got ∙ rw neg refl) (
        by_use i s (wait i) minus_one (pool st.table) got
          (λ f. wait_unused i minus_one (free_unused i s got f) (λ j. refl))
          (λ f u. wait_negative i s.count u neg (λ j. refl)))
    | inr (inl (nneg, more)) ↦
        recounted (wait i) (pos i) i s (dec_int s.count) got
          (wait_run i s near got ∙ rw (nneg, more) refl)
          (by_use i s (wait i) (pos i) _ got
            (λ f.
              wait_unused i (pos i) (free_unused i s got f) (hidden i s (dec_int s.count) got f))
            (λ f u. taken i s.count u more (moved i s (dec_int s.count) got f)))
    | inr (inr z) ↦ stays (wait i) minus_two (wait_run i s near got ∙ ground (arith, z)) (
        by_use i s (wait i) minus_two (pool st.table) got
          (λ f. wait_unused i minus_two (free_unused i s got f) (λ j. refl))
          (λ f u. would_block i (u ∙ ap some z) (λ j. refl)))
  ]

  wait-Refined : (i : ℕ) → Refined (wait i) st
  unfolding call i_wait_sema
  wait-Refined i = elim (Bool-cases (leb number_of_semaphores i)) [
    | inl far ↦
        stays (wait i) minus_one (rw far refl)
          (wait_unused i minus_one (far_unused i far) (λ j. refl))
    | inr near ↦ let (s, got) = entry i near in wait_at i s near got
  ]

  signal_run :
      (i : ℕ) (s : Sema)
      → leb number_of_semaphores i ≡ false
      → get_elem? st.table i ≡ some s
      → call (signal i) st ≡ some (signal_entry i s st)
  unfolding call i_signal_sema
  signal_run i s near got = rw (near, got) refl

  signal_at :
      (i : ℕ) (s : Sema)
      → leb number_of_semaphores i ≡ false
      → get_elem? st.table i ≡ some s
      → Refined (signal i) st
  unfolding signal_entry
  signal_at i s near got = elim (Bool-cases (is_neg s.count)) [
    | inl neg ↦ stays (signal i) minus_one (signal_run i s near got ∙ rw neg refl) (
        by_use i s (signal i) minus_one (pool st.table) got
          (λ f. signal_unused i minus_one (free_unused i s got f) (λ j. refl))
          (λ f u. signal_negative i s.count u neg (λ j. refl)))
    | inr nneg ↦
        recounted (signal i) (pos 0) i s (inc_int s.count) got
          (signal_run i s near got ∙ rw nneg refl)
          (by_use i s (signal i) (pos 0) _ got
            (λ f.
              signal_unused i (pos 0) (free_unused i s got f) (hidden i s (inc_int s.count) got f))
            (λ f u. signalled i s.count u nneg (moved i s (inc_int s.count) got f)))
  ]

  signal-Refined : (i : ℕ) → Refined (signal i) st
  unfolding call i_signal_sema
  signal-Refined i = elim (Bool-cases (leb number_of_semaphores i)) [
    | inl far ↦
        stays (signal i) minus_one (rw far refl)
          (signal_unused i minus_one (far_unused i far) (λ j. refl))
    | inr near ↦ let (s, got) = entry i near in signal_at i s near got
  ]

  deleted_Becomes :
      (i : ℕ) (st' : Semas)
      → i < number_of_semaphores
      → Inv st' (i ∷ is)
      → SameElse i st.table st'.table
      → Becomes (pool st.table) i none (pool st'.table)
  deleted_Becomes i st' h inv' same =
      let found = get_elem?-some st'.table i (omega (arith, inv'.size)) in
      (
        pool_unused st' (i ∷ is) i found.0 inv' found.1 (ground (arith, ==_refl i)),
        λ j ne. ap count_of (same j ne),
      )

  delete_at : (i : ℕ) → leb number_of_semaphores i ≡ false → Refined (delete (pos i)) st
  unfolding call
  delete_at i near =
      let (s, got) = entry i near in
      elim (Bool-cases (has i is)) [
        | inl unused ↦
            stays (delete (pos i)) minus_one (delete-refused st i is inv (inr unused))
              (delete_unused i (pool_unused st is i s inv got unused) (λ j. refl))
        | inr used ↦
            let (st', run, inv', same) = delete-Inv st i is inv (ground arith) used in
            record {
              value = pos i;
              after = st';
              is = i ∷ is;
              result = run;
              inv = inv';
              step =
                  deleted i s.count (pool_used st is i s inv got used)
                    (deleted_Becomes i st' (ground arith) inv' same);
            }
      ]

  delete-Refined : (id : ℤ) → Refined (delete id) st
  unfolding call delete_sema
  delete-Refined (negsuc n) =
      stays (delete (negsuc n)) minus_one refl (delete_negative n (λ j. refl))
  delete-Refined (pos i) = elim (Bool-cases (leb number_of_semaphores i)) [
    | inl far ↦
        stays (delete (pos i)) minus_one (delete-refused st i is inv (inl (ground arith)))
          (delete_unused i (far_unused i far) (λ j. refl))
    | inr near ↦ delete_at i near
  ]

  none_unused : is ≡ [] → (i : ℕ) → i < number_of_semaphores → pool st.table i ≡ none → ⊥
  none_unused e i h p =
      let (s, got) = get_elem?-some st.table i (omega (arith, inv.size)) in
      let u : has i is ≡ false = rw e refl in
      some_not_none s.count (sym (pool_used st is i s inv got u) ∙ p)

head_lt :
    (st : Semas) (i : ℕ) (is : List ℕ) {s : Sema}
    → Inv st is
    → get_elem? st.table i ≡ some s
    → i < number_of_semaphores
head_lt st i is {s} inv got = omega (arith, lt-length_of_some st.table i s got, inv.size)

created_Becomes :
    (e : EeSema) (st st' : Semas) (i : ℕ) (is : List ℕ)
    → Inv st (i ∷ is)
    → Created e st i is st'
    → Becomes (pool st.table) i (some e.init_count) (pool st'.table)
created_Becomes e st st' i is inv c = (rw c.filled refl, λ j ne. ap count_of (c.others j ne))

create_good :
    (e : EeSema) (st : Semas) (is : List ℕ)
    → Inv st is
    → is_neg e.init_count ≡ false
    → Refined (create e) st
unfolding call
create_good e st [] inv good =
    stays st [] inv (create e) minus_one (create-full e st inv)
      (create_exhausted e (none_unused st [] inv refl) (λ j. refl))
create_good e st (i ∷ is) inv good =
    let (st', c) = create-Created e st good inv in
    record {
      value = pos i;
      after = st';
      is = is;
      result = c.run;
      inv = c.inv;
      step =
          created e i good (head_lt st i (i ∷ is) inv c.was)
            (pool_unused st (i ∷ is) i c.old inv c.was (ground (arith, ==_refl i)))
            (created_Becomes e st st' i is inv c);
    }

create-Refined : (e : EeSema) (st : Semas) (is : List ℕ) → Inv st is → Refined (create e) st
unfolding call create_sema
create-Refined e st is inv = elim (Bool-cases (is_neg e.init_count)) [
  | inl neg ↦ stays st is inv (create e) minus_one (rw neg refl) (create_negative e neg (λ j. refl))
  | inr good ↦ create_good e st is inv good
]

pub call-Refined : (c : Call) (st : Semas) (is : List ℕ) → Inv st is → Refined c st
call-Refined (create e) st is inv = create-Refined e st is inv
call-Refined (delete id) st is inv = delete-Refined st is inv id
call-Refined (wait sid) st is inv = wait-Refined st is inv sid
call-Refined (signal sid) st is inv = signal-Refined st is inv sid

unfoldable pub calls : List Call → Semas → Option (List ℤ × Semas)
calls [] st = some ([], st)
calls (c ∷ cs) st = do (v, st') ← call c st; (vs, st'') ← calls cs st'; some (v ∷ vs, st'')

calls_more :
    (c : Call) (cs : List Call) (st st' : Semas) (v : ℤ) {r : List ℤ × Semas}
    → call c st ≡ some (v, st')
    → calls cs st' ≡ some r
    → calls (c ∷ cs) st ≡ some (v ∷ r.0, r.1)
unfolding calls
calls_more c cs st st' v e f = rw e (rw f refl)

-- A sequence of calls on the array, in which no `iSignalSema` has a negative id, touches no memory
-- outside it and returns what a sequence of steps of the pool allows; the array it leaves stands for
-- the pool at their end, with its free list in order.
pub calls-Trace :
    (cs : List Call) (st : Semas) (is : List ℕ)
    → Inv st is
    → (r : List ℤ × Semas) × (js : List ℕ) × (calls cs st ≡ some r)
      × Inv r.1 js
      × Trace (pool st.table) cs r.0 (pool r.1.table)
unfolding calls
calls-Trace [] st is inv = (([], st), is, refl, inv, stop)
calls-Trace (c ∷ cs) st is inv =
    let o = call-Refined c st is inv in
    let (r, js, run, inv', tr) = calls-Trace cs o.after o.is o.inv in
    (
      (o.value ∷ r.0, r.1),
      js,
      calls_more c cs st o.after o.value o.result run,
      inv',
      go_on o.step tr,
    )

-- `iSignalSema` compares its signed argument with the upper bound only: a negative id always reads
-- in front of the array.
pub signal_below : (n : ℕ) (st : Semas) → i_signal_sema (negsuc n) st ≡ none
unfolding i_signal_sema
signal_below n st = refl
