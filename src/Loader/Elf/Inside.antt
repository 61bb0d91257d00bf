-- ===== src/Loader/Elf/Inside.antt =====
-- What the tests of `check_sections32` promise about `copy_sections32`.
use kernelreloaded.Common.{
  ap, ◌||◌, ◌==◌, refl, inr, false, ◌∙◌, some, inl, Bool-cases, ◌^◌, pos, Bool, ℕ, ◌+◌, ◌≤◌, ◌<◌,
  ◌≡◌, ◌⊎◌, true, List, [], ◌∷◌, arith,
}
use kernelreloaded.Loader.Elf.{
  Phdr, Elf, Memory, elf_magic, phys_addr, is_load, section_size, covers, raised, check_sections,
  copy_section, copy_loop, copy_sections,
}
use kernelreloaded.Loader.Elf.Copies.{Fits, section-outside, section-skipped}
use kernelreloaded.Loader.Elf.Checks.{Placed, SmallMemory, IsWhole, Passed, check_sections-Passed}

-- One of the sections holds the entry point.
abbrev pub Covered : ℕ → List Phdr → Type 0
Covered entry [] = ⊥
Covered entry (h ∷ hs) =
    ((is_load h ≡ true)
      × ((phys_addr h.paddr ≤ entry) × (entry < phys_addr h.paddr + section_size h)))
    ⊎ Covered entry hs

covers_of :
    (entry : ℕ) (h : Phdr)
    → IsWhole h
    → covers entry h ≡ true
    → (phys_addr h.paddr ≤ entry) × (entry < phys_addr h.paddr + section_size h)
unfolding covers
covers_of entry h whole e = ground (arith, whole)

-- Neither of the two sizes goes beyond the larger one.
pub size_lem : (h : Phdr) → (h.filesz ≤ section_size h) × (h.memsz ≤ section_size h)
unfolding section_size
size_lem h = ground arith

raised_lem :
    (filesize start end : ℕ) (h : Phdr) (highest : ℕ)
    → Placed filesize start end h
    → IsWhole h
    → highest < end
    → (highest ≤ raised start h highest)
      × (phys_addr h.paddr + section_size h ≤ raised start h highest)
      × (raised start h highest < end)
unfolding raised
raised_lem filesize start end h highest p whole low = ground (arith, p.low, p.high, p.mapped, whole)

-- Every section that is loaded lies between the two addresses.
abbrev pub AllBetween : (start top : ℕ) → List Phdr → Type 0
AllBetween start top [] = Unit {0}
AllBetween start top (h ∷ hs) =
    (is_load h ≡ true → (start ≤ phys_addr h.paddr) × (phys_addr h.paddr + section_size h ≤ top))
    × AllBetween start top hs

module _ (filesize start end entry : ℕ) where
  pub Passed-AllBetween :
      (hs : List Phdr) (c : Bool) (highest r : ℕ)
      → highest < end
      → Passed filesize start end entry hs c highest r
      → (highest ≤ r) × (r < end) × AllBetween start r hs
  Passed-AllBetween [] c highest r low (_, e) = (omega (arith, e), omega (arith, e), tt)
  Passed-AllBetween (h ∷ hs) c highest r low (inl (no_load, p)) =
      let (a, b, rest) = Passed-AllBetween hs c highest r low p in
      (a, b, ((λ l. absurd (cc)), rest))
  Passed-AllBetween (h ∷ hs) c highest r low (inr ((load, (placed, whole)), p)) =
      let (x, y, z) = raised_lem filesize start end h highest placed whole low in
      let (a, b, rest) =
        Passed-AllBetween hs (c || covers entry h) (raised start h highest) r z p in
      (omega (arith, a, x), b, ((λ l. (placed.low, omega (arith, a, y))), rest))

  Passed-Covered :
      (hs : List Phdr) (c : Bool) (highest r : ℕ)
      → Passed filesize start end entry hs c highest r
      → (c ≡ true) ⊎ Covered entry hs
  Passed-Covered [] c highest r (e, _) = inl e
  Passed-Covered (h ∷ hs) c highest r (inl (no_load, p)) = elim (Passed-Covered hs c highest r p) [
    | inl e ↦ inl e
    | inr d ↦ inr (inr d)
  ]
  Passed-Covered (h ∷ hs) c highest r (inr ((load, (placed, whole)), p)) =
      elim (Passed-Covered hs (c || covers entry h) (raised start h highest) r p) [
        | inr d ↦ inr (inr d)
        | inl e ↦ elim (Bool-cases c) [
          | inl e' ↦ inl e'
          | inr e' ↦ inr (inl (load, covers_of entry h whole (ground arith)))
        ]
      ]

pub section_lem :
    (buffer : ℕ → ℕ) (start top : ℕ) (h : Phdr) (mem : Memory) (x : ℕ)
    → top < 2 ^ 28
    → (is_load h ≡ true → (start ≤ phys_addr h.paddr) × (phys_addr h.paddr + section_size h ≤ top))
    → (x < start) ⊎ (top ≤ x)
    → copy_section buffer h mem x ≡ mem x
section_lem buffer start top h mem x small between out = elim (Bool-cases (is_load h)) [
  | inr no_load ↦ section-skipped buffer h mem no_load x
  | inl load ↦
      let (lo, hi) = between load in
      let (a, b) = size_lem h in
      let fits : Fits h = record { file = omega (arith, hi, a); memory = omega (arith, hi, b) } in
      section-outside buffer h mem load fits x (elim out [
        | inl l ↦ inl (omega (arith, lo))
        | inr g ↦ inr (omega (arith, hi, a), omega (arith, hi, b))
      ])
]

-- The copying of sections between two addresses.
pub copy_loop-outside :
    (buffer : ℕ → ℕ) (start top : ℕ) (hs : List Phdr) (mem : Memory) (x : ℕ)
    → top < 2 ^ 28
    → AllBetween start top hs
    → (x < start) ⊎ (top ≤ x)
    → copy_loop buffer hs mem x ≡ mem x
unfolding copy_loop
copy_loop-outside buffer start top [] mem x small all out = refl
copy_loop-outside buffer start top (h ∷ hs) mem x small (one, all) out =
    copy_loop-outside buffer start top hs (copy_section buffer h mem) x small all out
    ∙ section_lem buffer start top h mem x small one out

-- When `check_sections32` returns 0 for a file whose memory sizes are below 2 GiB, the address it
-- leaves in `*highest` is below the end of the range, one of the sections holds the entry point,
-- and `copy_sections32` returns the entry point and leaves all memory before the start of the range
-- and from `*highest` on as it was.
pub copy_sections-check_sections :
    (filesize start end : ℕ) (f : Elf) (mem : Memory) (x : ℕ)
    → SmallMemory f.phdrs
    → (check_sections filesize start end f).0 ≡ pos 0
    → (x < phys_addr start) ⊎ ((check_sections filesize start end f).1 ≤ x)
    → ((check_sections filesize start end f).1 < phys_addr end)
      × Covered (phys_addr f.entry) f.phdrs
      × ((copy_sections f mem).0 ≡ some f.entry)
      × ((copy_sections f mem).1 x ≡ mem x)
unfolding copy_sections
copy_sections-check_sections filesize start end f mem x small e out =
    let (m, lo, hi, p) = check_sections-Passed filesize start end f small e in
    let start' = phys_addr start in
    let end' = phys_addr end in
    let r = (check_sections filesize start end f).1 in
    let entry = phys_addr f.entry in
    let (_, below, between) =
      Passed-AllBetween filesize start' end' entry f.phdrs false 0 r (omega (arith, hi)) p in
    let cov = Passed-Covered filesize start' end' entry f.phdrs false 0 r p in
    let hit : (f.magic == elf_magic) ≡ true = ap (λ y. y == elf_magic) m in
    (
      below,
      elim cov [ inl e' ↦ absurd (ground arith) | inr d ↦ d ],
      rw hit refl,
      rw hit (copy_loop-outside f.buffer start' r f.phdrs mem x (omega (arith, below)) between out),
    )
