-- ===== src/Kernel/Semaphore/FreeList.antt =====
-- The list of unused semaphores: `semaphoreListHead` leads through exactly the entries that are
-- marked free, and every operation keeps it so.
use kernelreloaded.Common.{
  ◌⊎◌, ◌≤◌, subst, get_elem?-set_inv, ℕ, ◌<◌, ◌≡◌, refl, sym, ap, ◌∙◌, inl, inr, true, false,
  Option, none, some, List, [], ◌∷◌, arith, leb, ◌==◌, eq_of_==, ==_refl, ==_ne, Bool-cases, ℤ, pos,
  is_neg, length, get_elem?, set, has, length-set, get_elem?-set_self, get_elem?-set_ne,
  lt-length_of_some, get_elem?-some,
}
use kernelreloaded.Kernel.Semaphore.{
  Sema, Semas, EeSema, number_of_semaphores, minus_one, fill, create_sema, delete_sema,
}

-- From `p` the `next` pointers lead through the distinct entries `is` to NULL.
pub data Chain (t : List Sema) : Option ℕ → List ℕ → Type 0 where
  nil : {p : Option ℕ} → p ≡ none → Chain t p []
  cons :
      {p : Option ℕ} {is : List ℕ} (i : ℕ) (s : Sema)
      → p ≡ some i
      → get_elem? t i ≡ some s
      → has i is ≡ false
      → Chain t s.next is
      → Chain t p (i ∷ is)

-- The array has its 32 entries, each knows its index, and the free ones are those of the list.
pub record Inv (st : Semas) (is : List ℕ) : Type 0 where
  pub size : length st.table ≡ number_of_semaphores
  pub indexed : (i : ℕ) (s : Sema) → get_elem? st.table i ≡ some s → s.index ≡ i
  pub marked : (i : ℕ) (s : Sema) → get_elem? st.table i ≡ some s → s.free ≡ has i is
  pub chain : Chain st.table st.head is

abbrev pub SameElse : ℕ → List Sema → List Sema → Type 0
SameElse i t u = (j : ℕ) → (i ≡ j → ⊥) → get_elem? u j ≡ get_elem? t j

has-cons_ne : (i j : ℕ) (is : List ℕ) → (i ≡ j → ⊥) → has j (i ∷ is) ≡ has j is
has-cons_ne i j is h = elim (Bool-cases (j == i)) [
  | inl e ↦ absurd (h (sym (eq_of_== j i e)))
  | inr n ↦ rw n
]

has_split : (i j : ℕ) (is : List ℕ) → has i (j ∷ is) ≡ false → ((i ≡ j → ⊥) × (has i is ≡ false))
has_split i j is h = elim (Bool-cases (i == j)) [
  | inl e ↦ absurd (ground arith)
  | inr n ↦ (==_ne i j n, rw n at h)
]

-- A write to an entry that is not on the chain leaves it.
pub Chain-set :
    (t : List Sema) (i : ℕ) (v : Sema) {p : Option ℕ} {is : List ℕ}
    → has i is ≡ false
    → Chain t p is
    → Chain (set t i v) p is
Chain-set t i v h (nil e) = nil e
Chain-set t i v h (cons {is} j s e got out c) =
    let both = has_split i j is h in
    cons j s e (get_elem?-set_ne t i j v both.0 ∙ got) out (Chain-set t i v both.1 c)

-- So does a write that keeps the entry's pointer.
Chain-next :
    (t : List Sema) (i : ℕ) (s v : Sema) {p : Option ℕ} {is : List ℕ}
    → get_elem? t i ≡ some s
    → s.next ≡ v.next
    → Chain t p is
    → Chain (set t i v) p is
Chain-next t i s v got same (nil e) = nil e
Chain-next t i s v got same (cons {is} j w e at out c) = elim (Bool-cases (i == j)) [
  | inl hit ↦
      let ij : i ≡ j = eq_of_== i j hit in
      let sw : s ≡ w = cc in
      cons j v e (rw (← ij) (get_elem?-set_self t i v (lt-length_of_some t i s got))) out (
        subst (λ q. Chain (set t i v) q is) (ap (λ (x : Sema). x.next) (sym sw) ∙ same)
          (Chain-next t i s v got same c))
  | inr miss ↦
      cons j w e (get_elem?-set_ne t i j v (==_ne i j miss) ∙ at) out
        (Chain-next t i s v got same c)
]

-- One entry changes to `v`, with the same index and with the mark that the new list wants.
module _ (st : Semas) {is js : List ℕ} (i : ℕ) (s v : Sema) (head : Option ℕ) (inv : Inv st is)
    (got : get_elem? st.table i ≡ some s) (same_index : v.index ≡ s.index)
    (mark : v.free ≡ has i js) (rest : (j : ℕ) → (i ≡ j → ⊥) → has j js ≡ has j is)
    (chain : Chain (set st.table i v) head js) where
  at_index : (j : ℕ) (w : Sema) → get_elem? (set st.table i v) j ≡ some w → w.index ≡ j
  at_index j w e = elim (get_elem?-set_inv st.table i j v w e) [
    | inl (ij, vw) ↦ ap (λ (x : Sema). x.index) (sym vw) ∙ same_index ∙ inv.indexed i s got ∙ ij
    | inr (ne, old) ↦ inv.indexed j w old
  ]

  at_mark : (j : ℕ) (w : Sema) → get_elem? (set st.table i v) j ≡ some w → w.free ≡ has j js
  at_mark j w e = elim (get_elem?-set_inv st.table i j v w e) [
    | inl (ij, vw) ↦ ap (λ (x : Sema). x.free) (sym vw) ∙ mark ∙ ap (λ k. has k js) ij
    | inr (ne, old) ↦ inv.marked j w old ∙ sym (rest j ne)
  ]

  pub Inv-set : Inv (record st { table = set st.table i v; head = head }) js
  Inv-set = record {
    size = length-set st.table i v ∙ inv.size;
    indexed = at_index;
    marked = at_mark;
    chain = chain;
  }

-- The outcome of a successful `syscallCreateSema` that takes entry `i` off the list.
pub record Created (e : EeSema) (st : Semas) (i : ℕ) (is : List ℕ) (st' : Semas) : Type 0 where
  pub run : create_sema e st ≡ some (pos i, st')
  pub inv : Inv st' is
  pub old : Sema
  pub was : get_elem? st.table i ≡ some old
  pub filled : get_elem? st'.table i ≡ some (fill e old)
  pub others : SameElse i st.table st'.table

create-Chain :
    (e : EeSema) (st : Semas) (p : Option ℕ) {i : ℕ} {is : List ℕ}
    → is_neg e.init_count ≡ false
    → st.head ≡ p
    → Inv st (i ∷ is)
    → Chain st.table p (i ∷ is)
    → (st' : Semas) × Created e st i is st'
unfolding create_sema
create-Chain e st p {is} good hp inv (cons i s pi got out c) = (
  record st { table = set st.table i (fill e s); head = s.next },
  record {
    run = rw (good, hp, pi, got) (ground (arith, inv.indexed i s got));
    inv =
        Inv-set st i s (fill e s) s.next inv got refl (sym out)
          (λ j ne. sym (has-cons_ne i j is ne)) (Chain-set st.table i (fill e s) out c);
    old = s;
    was = got;
    filled = get_elem?-set_self st.table i (fill e s) (lt-length_of_some st.table i s got);
    others = λ j ne. get_elem?-set_ne st.table i j (fill e s) ne;
  },
)

-- With a free entry at hand and an initial count that is not negative, `syscallCreateSema` takes
-- the head of the free list, fills that entry and touches no other.
pub create-Created :
    (e : EeSema) (st : Semas) {i : ℕ} {is : List ℕ}
    → is_neg e.init_count ≡ false
    → Inv st (i ∷ is)
    → (st' : Semas) × Created e st i is st'
create-Created e st good inv = create-Chain e st st.head good refl inv inv.chain

empty-head : (t : List Sema) (p : Option ℕ) → Chain t p [] → p ≡ none
empty-head t p (nil e) = e

-- With no free entry it fails and changes nothing.
pub create-full : (e : EeSema) (st : Semas) → Inv st [] → create_sema e st ≡ some (minus_one, st)
unfolding create_sema
create-full e st inv = ground (arith, empty-head st.table st.head inv.chain)

-- `iDeleteSema` of an entry in use puts it at the front of the free list.
pub delete-Inv :
    (st : Semas) (id : ℕ) (is : List ℕ)
    → Inv st is
    → id < number_of_semaphores
    → has id is ≡ false
    → (st' : Semas) × (delete_sema (pos id) st ≡ some (pos id, st'))
      × Inv st' (id ∷ is)
      × SameElse id st.table st'.table
unfolding delete_sema
delete-Inv st id is inv small used =
    let found = get_elem?-some st.table id (omega (arith, inv.size)) in
    let s = found.0 in
    let got = found.1 in
    let v : Sema = record s { next = st.head; free = true } in
    let busy : s.free ≡ false = inv.marked id s got ∙ used in
    (
      record st { table = set st.table id v; head = some id },
      rw got (ground (arith, busy)),
      Inv-set st id s v (some id) inv got refl (ground (arith, ==_refl id))
          (λ j ne. has-cons_ne id j is ne)
          (cons id v refl (get_elem?-set_self st.table id v (lt-length_of_some st.table id s got))
            used (Chain-set st.table id v used inv.chain)),
      λ j ne. get_elem?-set_ne st.table id j v ne,
    )

-- `iDeleteSema` refuses an id out of range and one whose entry is in the free list, so that no entry
-- is freed twice.
pub delete-refused :
    (st : Semas) (id : ℕ) (is : List ℕ)
    → Inv st is
    → (number_of_semaphores ≤ id) ⊎ (has id is ≡ true)
    → delete_sema (pos id) st ≡ some (minus_one, st)
unfolding delete_sema
delete-refused st id is inv (inl far) = ground arith
delete-refused st id is inv (inr unused) = elim (Bool-cases (leb number_of_semaphores id)) [
  | inl far ↦ rw far
  | inr near ↦
      let found = get_elem?-some st.table id (ground (arith, inv.size)) in
      rw (near, found.1) (ground (arith, inv.marked id found.0 found.1))
]

-- The count of an entry changes, and nothing else: the free list stays.
pub count-Inv :
    (st : Semas) (i : ℕ) (is : List ℕ) (s : Sema) (c : ℤ)
    → Inv st is
    → get_elem? st.table i ≡ some s
    → Inv (record st { table = set st.table i (record s { count = c }) }) is
count-Inv st i is s c inv got =
    Inv-set st i s (record s { count = c }) st.head inv got refl (inv.marked i s got) (λ j ne. refl)
      (Chain-next st.table i s (record s { count = c }) got refl inv.chain)
