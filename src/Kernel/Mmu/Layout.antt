-- ===== src/Kernel/Mmu/Layout.antt =====
-- kernel/mmu.c: the TLB that `mmu_init_module` leaves does not depend on what it held before.
use kernelreloaded.Common.{
  false, ltb, subst, ◌∙◌, some, ◌≤◌, length-append, ℕ, zero, suc, ◌+◌, ◌*◌, ◌%◌, ◌≡◌, refl, ap,
  List, [], ◌∷◌, ◌++◌, arith, length, set,
}
use kernelreloaded.Kernel.Mmu.Tlb.{
  Entry, Cp0, Mapping, mapping, map_memory, map_all, entry_lo, entry_hi_of, flush_entry, flush_loop,
  flush_tlbs, page_16m, kseg0, u32,
}
use kernelreloaded.Kernel.Mmu.Setup.{
  mmu_init, first_mappings, kernel_mappings, cached_user_mappings, uncached_user_mappings,
  accelerated_user_mappings, zero_reg_address,
}
use Prim.Native.Nat.{bit_or}

-- The TLB alone, as the calls of `mapMemory` write it.
abbrev pub mapped : List Mapping → List Entry → List Entry
mapped [] t = t
mapped (mapping index vaddr paddr1 flags1 paddr2 flags2 pagesize ∷ ms) t = mapped ms (
    set t index (record {
      page_mask = pagesize;
      hi = entry_hi_of pagesize vaddr;
      lo0 = entry_lo pagesize paddr1 flags1;
      lo1 = entry_lo pagesize paddr2 flags2;
    }))

map_all-tlb : (ms : List Mapping) (c : Cp0) → (map_all ms c).tlb ≡ mapped ms c.tlb
unfolding map_all map_memory
map_all-tlb [] c = refl
map_all-tlb (mapping i v p f q g s ∷ ms) c = map_all-tlb ms (map_memory (mapping i v p f q g s) c)

-- The entries that the loop of `flush_tlbs` writes, from an index on.
abbrev pub flushed : ℕ → ℕ → List Entry
flushed zero entry = []
flushed (suc n) entry =
    record {
      page_mask = page_16m;
      hi = (kseg0 + entry * (bit_or page_16m 0x1fff + 1)) % u32;
      lo0 = 0;
      lo1 = 0;
    }
    ∷ flushed n (suc entry)

set-append :
    (ps : List Entry) (x v : Entry) (xs : List Entry)
    → set (ps ++ x ∷ xs) (length ps) v ≡ (ps ++ v ∷ []) ++ xs
set-append [] x v xs = refl
set-append (p ∷ ps) x v xs = ap (λ ys. p ∷ ys) (set-append ps x v xs)

append_one : (ps : List Entry) (v : Entry) (xs : List Entry) → (ps ++ v ∷ []) ++ xs ≡ ps ++ v ∷ xs
append_one [] v xs = refl
append_one (p ∷ ps) v xs = ap (λ t. p ∷ t) (append_one ps v xs)

flush_loop-tlb :
    (n : ℕ) (ps xs : List Entry) (c : Cp0)
    → length xs ≡ n
    → c.tlb ≡ ps ++ xs
    → c.page_mask ≡ page_16m
    → c.entry_lo0 ≡ 0
    → c.entry_lo1 ≡ 0
    → (flush_loop n (length ps) c).tlb ≡ ps ++ flushed n (length ps)
unfolding flush_loop
flush_loop-tlb zero ps [] c l t m a b = t
flush_loop-tlb zero ps (x ∷ xs) c l t m a b = absurd (omega arith)
flush_loop-tlb (suc n) ps [] c l t m a b = absurd (omega arith)
flush_loop-tlb (suc n) ps (x ∷ xs) c l t m a b =
    let v : Entry = record {
      page_mask = page_16m;
      hi = (kseg0 + length ps * (bit_or page_16m 0x1fff + 1)) % u32;
      lo0 = 0;
      lo1 = 0;
    } in
    let c' = flush_entry (length ps) c in
    let n_len : length (ps ++ v ∷ []) ≡ suc (length ps) = length-append ps (v ∷ []) ∙ omega arith in
    let written : c'.tlb ≡ (ps ++ v ∷ []) ++ xs = rw (t, m, a, b) (set-append ps x v xs) in
    let rest = flush_loop-tlb n (ps ++ v ∷ []) xs c' (omega arith) written m a b in
    subst (λ k. (flush_loop n k c').tlb ≡ (ps ++ v ∷ []) ++ flushed n k) n_len rest
    ∙ append_one ps v (flushed n (suc (length ps)))

flush_tlbs-tlb : (c : Cp0) → length c.tlb ≡ 48 → (flush_tlbs c).tlb ≡ flushed 48 0
unfolding flush_tlbs
flush_tlbs-tlb c l =
    flush_loop-tlb 48 [] c.tlb
      (record c { wired = 0; page_mask = page_16m; entry_lo0 = 0; entry_lo1 = 0 }) l refl refl refl
      refl

-- The entries that `mmu_init_module` leaves.
abbrev pub page_table : List Entry
page_table = mapped accelerated_user_mappings (
    mapped uncached_user_mappings
      (mapped cached_user_mappings (mapped kernel_mappings (mapped first_mappings (flushed 48 0)))))

-- On a TLB of 48 entries, and with an image below the zero register area, `mmu_init_module` returns
-- and leaves the entries of `page_table`, whatever the TLB held before.
pub mmu_init_lem :
    (end : ℕ) (c : Cp0)
    → length c.tlb ≡ 48
    → end ≤ kseg0 + zero_reg_address
    → (c' : Cp0) × (mmu_init end c ≡ some c') × (c'.tlb ≡ page_table)
unfolding mmu_init
mmu_init_lem end c l h =
    let fits : ltb (kseg0 + zero_reg_address) end ≡ false = ground arith in
    let c0 : Cp0 = record (flush_tlbs c) { wired = 31 } in
    let c1 = map_all first_mappings c0 in
    let c2 = map_all kernel_mappings c1 in
    let c3 = map_all cached_user_mappings c2 in
    let c4 = map_all uncached_user_mappings c3 in
    let e1 = map_all-tlb first_mappings c0 ∙ ap (mapped first_mappings) (flush_tlbs-tlb c l) in
    let e2 = map_all-tlb kernel_mappings c1 ∙ ap (mapped kernel_mappings) e1 in
    let e3 = map_all-tlb cached_user_mappings c2 ∙ ap (mapped cached_user_mappings) e2 in
    let e4 = map_all-tlb uncached_user_mappings c3 ∙ ap (mapped uncached_user_mappings) e3 in
    (
      map_all accelerated_user_mappings c4,
      rw fits refl,
      map_all-tlb accelerated_user_mappings c4 ∙ ap (mapped accelerated_user_mappings) e4,
    )
