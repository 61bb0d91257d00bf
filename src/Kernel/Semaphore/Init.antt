-- ===== src/Kernel/Semaphore/Init.antt =====
-- `init_semaphores` strings all entries of the array into the free list, in order.
use kernelreloaded.Common.{
  ℕ, zero, suc, ◌+◌, ◌≤◌, ◌<◌, ◌≡◌, refl, sym, ◌∙◌, inl, inr, true, false, Option, none, some, List,
  [], ◌∷◌, arith, ◌==◌, if◌then◌else◌, Bool-cases, length, get_elem?, get_elem?-some,
  lt-length_of_some, has,
}
use kernelreloaded.Kernel.Semaphore.{
  Sema, number_of_semaphores, init_entry, init_loop, init_semaphores,
}
use kernelreloaded.Kernel.Semaphore.FreeList.{Inv, Chain, nil, cons}

-- The k indices from i on.
abbrev pub range : ℕ → ℕ → List ℕ
range i zero = []
range i (suc k) = i ∷ range (suc i) k

has-range : (j i k : ℕ) → i ≤ j → j < i + k → has j (range i k) ≡ true
has-range j i zero lo hi = absurd (omega arith)
has-range j i (suc k) lo hi = elim (Bool-cases (j == i)) [
  | inl e ↦ rw e
  | inr n ↦ rw n (has-range j (suc i) k (ground arith) (omega arith))
]

not-has-range : (j i k : ℕ) → j < i → has j (range i k) ≡ false
not-has-range j i zero lo = refl
not-has-range j i (suc k) lo = ground (arith, not-has-range j (suc i) k (omega arith))

abbrev next_of : ℕ → ℕ → ℕ → Option ℕ
next_of i j n = if suc j == n then none else some (suc (i + j))

get_elem?-init_loop :
    (i : ℕ) (ts : List Sema) (j : ℕ) (s : Sema)
    → get_elem? ts j ≡ some s
    → get_elem? (init_loop i ts) j ≡ some (init_entry (i + j) (next_of i j (length ts)) s)
unfolding init_loop
get_elem?-init_loop i [] j s e = ground arith
get_elem?-init_loop i (t ∷ []) zero s e = ground arith
get_elem?-init_loop i (t ∷ []) (suc j) s e = ground arith
get_elem?-init_loop i (t ∷ u ∷ ts) zero s e = ground arith
get_elem?-init_loop i (t ∷ u ∷ ts) (suc j) s e =
    let k : suc i + j ≡ i + suc j = omega arith in
    let ih = get_elem?-init_loop (suc i) (u ∷ ts) j s e in ground (arith, ih, k)

length-init_loop : (i : ℕ) (ts : List Sema) → length (init_loop i ts) ≡ length ts
unfolding init_loop
length-init_loop i [] = refl
length-init_loop i (t ∷ []) = refl
length-init_loop i (t ∷ u ∷ ts) = omega (arith, length-init_loop (suc i) (u ∷ ts))

module _ (ts : List Sema) where
  entry :
      (j : ℕ)
      → j < length ts
      → (s : Sema) × (get_elem? (init_loop 0 ts) j
          ≡ some (init_entry j (if suc j == length ts then none else some (suc j)) s))
  entry j h =
      let (s, got) = get_elem?-some ts j h in (s, ground (arith, get_elem?-init_loop 0 ts j s got))

  init-Chain : (k j : ℕ) → j + suc k ≡ length ts → Chain (init_loop 0 ts) (some j) (range j (suc k))
  init-Chain zero j e =
      let (s, got) = entry j (omega arith) in
      let end : (suc j == length ts) ≡ true = ground arith in cons j _ refl got refl (nil (rw end))
  init-Chain (suc k) j e =
      let (s, got) = entry j (omega arith) in
      let more : (suc j == length ts) ≡ false = ground arith in
      cons j _ refl got (not-has-range j (suc j) (suc k) (omega arith))
        (rw more (init-Chain k (suc j) (omega arith)))

  init_at :
      (j : ℕ) (s : Sema)
      → get_elem? (init_loop 0 ts) j ≡ some s
      → (j < length ts) × (s.index ≡ j) × (s.free ≡ true)
  init_at j s e =
      let h = lt-length_of_some (init_loop 0 ts) j s e in
      let (w, got) = entry j (omega (arith, length-init_loop 0 ts)) in
      (omega (arith, length-init_loop 0 ts), ground arith, ground arith)

  -- After `init_semaphores` all 32 entries are free, and the list leads through them in order.
  pub init-Inv :
      length ts ≡ number_of_semaphores → Inv (init_semaphores ts) (range 0 number_of_semaphores)
  unfolding init_semaphores
  init-Inv e = record {
    size = length-init_loop 0 ts ∙ e;
    indexed = λ j s got. (init_at j s got).1;
    marked = λ j s got.
        let a = init_at j s got in
        a.2 ∙ sym (has-range j 0 number_of_semaphores (omega arith) (omega (arith, a.0)));
    chain = init-Chain 31 0 (omega arith);
  }
