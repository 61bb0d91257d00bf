-- ===== src/Kernel/Mmu/User.antt =====
-- kernel/mmu.c: what the page table of `mmu_init_module` maps the user's memory to.
use kernelreloaded.Common.{
  &&_true, ℕ, ◌+◌, ◌-◌, ◌≤◌, ◌<◌, ◌≡◌, refl, sym, ap, subst, ◌∙◌, ◌⊎◌, inl, inr, Bool, true, false,
  ◌&&◌, Option, none, some, List, [], ◌∷◌, arith, ltb, leb, if◌then◌else◌, ltb→lt, ltb_ge,
  Bool-cases, length, get_elem?, get_or,
}
use mathlib.Core.Option.{some-injective}
use kernelreloaded.Kernel.Mmu.Tlb.{Entry, Cp0, kseg0}
use kernelreloaded.Kernel.Mmu.Setup.{mmu_init, zero_reg_address}
use kernelreloaded.Kernel.Mmu.Translate.{
  Page, translate, frame, hit, base, translate-hit, disjoint_unique,
}
use kernelreloaded.Kernel.Mmu.Layout.{page_table, mmu_init_lem}

lt_or_ge : (a b : ℕ) → (a < b) ⊎ (b ≤ a)
lt_or_ge a b = elim (Bool-cases (ltb a b)) [
  | inl h ↦ inl (ltb→lt a b h)
  | inr h ↦ inr (ltb_ge a b h)
]

abbrev pub entry_at : ℕ → Entry
entry_at i = get_or page_table i (record { page_mask = 0; hi = 0; lo0 = 0; lo1 = 0 })

by_entry :
    (i va : ℕ) {p : Option Page}
    → get_elem? page_table i ≡ some (entry_at i)
    → hit (entry_at i) va ≡ true
    → frame (entry_at i) va ≡ p
    → translate page_table va ≡ p
by_entry i va g h f = translate-hit page_table i (entry_at i) va refl g h ∙ f

-- Where the user's address leads: both pages of the entries 15 and 24 are at 0x180000.
abbrev pub user_addr : ℕ → ℕ
user_addr a = if leb 0x1c0000 a && ltb a 0x200000 then a - 0x40000 else a

cached_user :
    (a : ℕ)
    → 0x80000 ≤ a
    → a < 0x2000000
    → translate page_table (a) ≡ some (record { addr = user_addr a; cache = 3; writable = true })
cached_user a h k = elim (lt_or_ge a 0x100000) [
  | inl l ↦ by_entry 13 (a) refl (ground arith) (ground arith)
  | inr g ↦ elim (lt_or_ge a 0x180000) [
    | inl l ↦ by_entry 14 (a) refl (ground arith) (ground arith)
    | inr g ↦ elim (lt_or_ge a 0x200000) [
      | inl l ↦ by_entry 15 (a) refl (ground arith) (ground arith)
      | inr g ↦ elim (lt_or_ge a 0x400000) [
        | inl l ↦ by_entry 16 (a) refl (ground arith) (ground arith)
        | inr g ↦ elim (lt_or_ge a 0x600000) [
          | inl l ↦ by_entry 17 (a) refl (ground arith) (ground arith)
          | inr g ↦ elim (lt_or_ge a 0x800000) [
            | inl l ↦ by_entry 18 (a) refl (ground arith) (ground arith)
            | inr g ↦ elim (lt_or_ge a 0x1000000) [
              | inl l ↦ by_entry 19 (a) refl (ground arith) (ground arith)
              | inr g ↦ elim (lt_or_ge a 0x1800000) [
                | inl l ↦ by_entry 20 (a) refl (ground arith) (ground arith)
                | inr g ↦ by_entry 21 (a) refl (ground arith) (ground arith)
              ]
            ]
          ]
        ]
      ]
    ]
  ]
]

uncached_user :
    (a : ℕ)
    → 0x80000 ≤ a
    → a < 0x2000000
    → translate page_table (a + 0x20000000)
      ≡ some (record { addr = user_addr a; cache = 2; writable = true })
uncached_user a h k = elim (lt_or_ge a 0x100000) [
  | inl l ↦ by_entry 22 (a + 0x20000000) refl (ground arith) (ground arith)
  | inr g ↦ elim (lt_or_ge a 0x180000) [
    | inl l ↦ by_entry 23 (a + 0x20000000) refl (ground arith) (ground arith)
    | inr g ↦ elim (lt_or_ge a 0x200000) [
      | inl l ↦ by_entry 24 (a + 0x20000000) refl (ground arith) (ground arith)
      | inr g ↦ elim (lt_or_ge a 0x400000) [
        | inl l ↦ by_entry 25 (a + 0x20000000) refl (ground arith) (ground arith)
        | inr g ↦ elim (lt_or_ge a 0x600000) [
          | inl l ↦ by_entry 26 (a + 0x20000000) refl (ground arith) (ground arith)
          | inr g ↦ elim (lt_or_ge a 0x800000) [
            | inl l ↦ by_entry 27 (a + 0x20000000) refl (ground arith) (ground arith)
            | inr g ↦ elim (lt_or_ge a 0x1000000) [
              | inl l ↦ by_entry 28 (a + 0x20000000) refl (ground arith) (ground arith)
              | inr g ↦ elim (lt_or_ge a 0x1800000) [
                | inl l ↦ by_entry 29 (a + 0x20000000) refl (ground arith) (ground arith)
                | inr g ↦ by_entry 30 (a + 0x20000000) refl (ground arith) (ground arith)
              ]
            ]
          ]
        ]
      ]
    ]
  ]
]

accelerated_user :
    (a : ℕ)
    → 0x100000 ≤ a
    → a < 0x2000000
    → translate page_table (a + 0x30000000) ≡ some (record { addr = a; cache = 7; writable = true })
accelerated_user a h k = elim (lt_or_ge a 0x180000) [
  | inl l ↦ by_entry 31 (a + 0x30000000) refl (ground arith) (ground arith)
  | inr g ↦ elim (lt_or_ge a 0x200000) [
    | inl l ↦ by_entry 32 (a + 0x30000000) refl (ground arith) (ground arith)
    | inr g ↦ elim (lt_or_ge a 0x400000) [
      | inl l ↦ by_entry 33 (a + 0x30000000) refl (ground arith) (ground arith)
      | inr g ↦ elim (lt_or_ge a 0x600000) [
        | inl l ↦ by_entry 34 (a + 0x30000000) refl (ground arith) (ground arith)
        | inr g ↦ elim (lt_or_ge a 0x800000) [
          | inl l ↦ by_entry 35 (a + 0x30000000) refl (ground arith) (ground arith)
          | inr g ↦ elim (lt_or_ge a 0x1000000) [
            | inl l ↦ by_entry 36 (a + 0x30000000) refl (ground arith) (ground arith)
            | inr g ↦ elim (lt_or_ge a 0x1800000) [
              | inl l ↦ by_entry 37 (a + 0x30000000) refl (ground arith) (ground arith)
              | inr g ↦ by_entry 38 (a + 0x30000000) refl (ground arith) (ground arith)
            ]
          ]
        ]
      ]
    ]
  ]
]

-- The three views of the user's memory in a TLB.
pub record UserViews (t : List Entry) : Type 0 where
  pub cached :
      (a : ℕ)
      → 0x80000 ≤ a
      → a < 0x2000000
      → translate t a ≡ some (record { addr = user_addr a; cache = 3; writable = true })
  pub uncached :
      (a : ℕ)
      → 0x80000 ≤ a
      → a < 0x2000000
      → translate t (a + 0x20000000)
        ≡ some (record { addr = user_addr a; cache = 2; writable = true })
  pub accelerated :
      (a : ℕ)
      → 0x100000 ≤ a
      → a < 0x2000000
      → translate t (a + 0x30000000) ≡ some (record { addr = a; cache = 7; writable = true })

-- After `mmu_init_module`, with an image that ends below the zero register area, every address of
-- the user's memory from 0x80000 to 32 MB is readable and writable, cached at offset 0, uncached at
-- 0x20000000 and, from 1 MB on, uncached accelerated at 0x30000000; it leads to the same physical
-- address, except that the first two views take 0x1c0000 to 0x1fffff to the 256 KB below it.
pub mmu_init-UserViews :
    (end : ℕ) (c : Cp0)
    → length c.tlb ≡ 48
    → end ≤ kseg0 + zero_reg_address
    → (c' : Cp0) × (mmu_init end c ≡ some c') × UserViews c'.tlb
mmu_init-UserViews end c l h =
    let (c', e, t) = mmu_init_lem end c l h in
    (
      c',
      e,
      subst UserViews (sym t) (record {
        cached = cached_user;
        uncached = uncached_user;
        accelerated = accelerated_user;
      }),
    )

-- After `mmu_init_module` at most one entry of the TLB matches an address, the entries that
-- `flush_tlbs` left included.
pub mmu_init_unique :
    (end : ℕ) (c c' : Cp0) (i j va : ℕ) (e f : Entry)
    → length c.tlb ≡ 48
    → end ≤ kseg0 + zero_reg_address
    → mmu_init end c ≡ some c'
    → get_elem? c'.tlb i ≡ some e
    → get_elem? c'.tlb j ≡ some f
    → hit e va ≡ true
    → hit f va ≡ true
    → i ≡ j
mmu_init_unique end c c' i j va e f l h m g k hi hj =
    let (c'', m', t) = mmu_init_lem end c l h in
    let same : c'.tlb ≡ page_table = ap (λ x. x.tlb) (some-injective c' c'' (sym m ∙ m')) ∙ t in
    disjoint_unique page_table i j e f va refl (sym (ap (λ x. get_elem? x i) same) ∙ g)
      (sym (ap (λ x. get_elem? x j) same) ∙ k) hi hj

abbrev all_from : ℕ → List Entry → Bool
all_from lo [] = true
all_from lo (e ∷ es) = leb lo (base e) && all_from lo es

translate_below :
    (lo va : ℕ) (es : List Entry) → all_from lo es ≡ true → va < lo → translate es va ≡ none
translate_below lo va [] a h = refl
translate_below lo va (e ∷ es) a h =
    let (b, bs) = &&_true (leb lo (base e)) (all_from lo es) a in
    let miss : hit e va ≡ false = ground arith in rw miss (translate_below lo va es bs h)

-- After `mmu_init_module` no address below 0x80000 is mapped, so that an access through a null
-- pointer faults.
pub mmu_init-null :
    (end : ℕ) (c c' : Cp0) (va : ℕ)
    → length c.tlb ≡ 48
    → end ≤ kseg0 + zero_reg_address
    → mmu_init end c ≡ some c'
    → va < 0x80000
    → translate c'.tlb va ≡ none
mmu_init-null end c c' va l h m v =
    let (c'', m', t) = mmu_init_lem end c l h in
    let same : c'.tlb ≡ page_table = ap (λ x. x.tlb) (some-injective c' c'' (sym m ∙ m')) ∙ t in
    ap (λ x. translate x va) same ∙ translate_below 0x80000 va page_table refl v
