-- ===== src/Loader/Elf/Loaded.antt =====
-- The memory behind `copy_sections32`: every section is there whole.
use kernelreloaded.Common.{
  sym, false, pos, ◌||◌, ◌==◌, subst, ℕ, ◌+◌, ◌^◌, ◌≤◌, ◌<◌, ◌≡◌, refl, ap, ◌∙◌, ◌⊎◌, inl, inr,
  Bool, true, List, [], ◌∷◌, arith, ltb, if◌then◌else◌, Bool-cases,
}
use mathlib.Core.List.Memᴰ
use mathlib.Core.List.{Memᴰ}
use kernelreloaded.Loader.Elf.{
  Phdr, Elf, Memory, elf_magic, phys_addr, is_load, section_size, covers, raised, check_sections,
  copy_section, copy_loop, copy_sections,
}
use kernelreloaded.Loader.Elf.Copies.{section-skipped, Fits, section-file, section-zero}
use kernelreloaded.Loader.Elf.Checks.{SmallMemory, IsTaken, Passed, check_sections-Passed}
use kernelreloaded.Loader.Elf.Inside.{AllBetween, Passed-AllBetween, size_lem, section_lem}

-- Two sections share no byte.
abbrev pub Apart : Phdr → Phdr → Type 0
Apart h k =
    (phys_addr h.paddr + section_size h ≤ phys_addr k.paddr)
    ⊎ (phys_addr k.paddr + section_size k ≤ phys_addr h.paddr)

abbrev ApartFrom : Phdr → List Phdr → Type 0
ApartFrom h [] = Unit {0}
ApartFrom h (k ∷ ks) = (is_load k ≡ true → Apart h k) × ApartFrom h ks

-- No two of the sections that are loaded share a byte.
abbrev pub Separate : List Phdr → Type 0
Separate [] = Unit {0}
Separate (h ∷ hs) = (is_load h ≡ true → ApartFrom h hs) × Separate hs

-- What byte `i` of a section is to be.
abbrev pub content : (ℕ → ℕ) → Phdr → ℕ → ℕ
content buffer h i = if ltb i h.filesz then buffer (h.offset + i) else 0

section-content :
    (buffer : ℕ → ℕ) (h : Phdr) (mem : Memory) (i : ℕ)
    → is_load h ≡ true
    → phys_addr h.paddr + section_size h < 2 ^ 28
    → i < section_size h
    → copy_section buffer h mem (phys_addr h.paddr + i) ≡ content buffer h i
unfolding section_size
section-content buffer h mem i load top l =
    let (a, b) = size_lem h in
    let fits : Fits h = record { file = omega (arith, a, top); memory = omega (arith, b, top) } in
    elim (Bool-cases (ltb i h.filesz)) [
      | inl lo ↦ section-file buffer h mem load fits i (ground arith) ∙ rw lo refl
      | inr hi ↦ section-zero buffer h mem load fits i (ground arith) (ground arith) ∙ rw hi refl
    ]

-- The sections that share no byte with `h` leave its bytes.
rest-outside :
    (buffer : ℕ → ℕ) (start top : ℕ) (h : Phdr) (hs : List Phdr) (mem : Memory) (i : ℕ)
    → top < 2 ^ 28
    → AllBetween start top hs
    → ApartFrom h hs
    → i < section_size h
    → copy_loop buffer hs mem (phys_addr h.paddr + i) ≡ mem (phys_addr h.paddr + i)
unfolding copy_loop
rest-outside buffer start top h [] mem i small below apart l = refl
rest-outside buffer start top h (k ∷ ks) mem i small (b, below) (a, apart) l =
    rest-outside buffer start top h ks (copy_section buffer k mem) i small below apart l
    ∙ elim (Bool-cases (is_load k)) [
      | inr no_load ↦ section-skipped buffer k mem no_load (phys_addr h.paddr + i)
      | inl load ↦
          section_lem buffer (phys_addr k.paddr) (phys_addr k.paddr + section_size k) k mem
            (phys_addr h.paddr + i) (omega (arith, (b load).1)) (λ e. (omega arith, omega arith))
            (elim (a load) [ inl x ↦ inl (omega (arith, x)) | inr x ↦ inr (omega (arith, x)) ])
    ]

copy_loop-content :
    (buffer : ℕ → ℕ) (start top : ℕ) (hs : List Phdr) (mem : Memory) (h : Phdr) (i : ℕ)
    → top < 2 ^ 28
    → AllBetween start top hs
    → Separate hs
    → Memᴰ h hs
    → is_load h ≡ true
    → i < section_size h
    → copy_loop buffer hs mem (phys_addr h.paddr + i) ≡ content buffer h i
unfolding copy_loop
copy_loop-content buffer start top [] mem h i small below sep m load l = absurd (Memᴰ.not-nil m)
copy_loop-content buffer start top (k ∷ ks) mem h i small (b, below) (a, sep) (Memᴰ.head e) load l =
    let load' : is_load k ≡ true = ap is_load (sym e) ∙ load in
    subst
      (λ z.
        copy_loop buffer ks (copy_section buffer k mem) (phys_addr z.paddr + i)
        ≡ content buffer z i)
      (sym e)
      (rest-outside buffer start top k ks (copy_section buffer k mem) i small below (a load')
          (subst (λ z. i < section_size z) e l)
        ∙ section-content buffer k mem i load' (omega (arith, (b load').1))
            (subst (λ z. i < section_size z) e l))
copy_loop-content buffer start top (k ∷ ks) mem h i small (b, below) (a, sep) (Memᴰ.tail m) load l =
    copy_loop-content buffer start top ks (copy_section buffer k mem) h i small below sep m load l

Passed-IsTaken :
    (filesize start end entry : ℕ) (hs : List Phdr) (c : Bool) (highest r : ℕ) (h : Phdr)
    → Passed filesize start end entry hs c highest r
    → Memᴰ h hs
    → is_load h ≡ true
    → IsTaken filesize start end h
Passed-IsTaken filesize start end entry [] c highest r h p m load = absurd (Memᴰ.not-nil m)
Passed-IsTaken filesize start end entry (k ∷ ks) c highest r h (inl (no_load, p)) (Memᴰ.head e)
      load =
    absurd (cc)
Passed-IsTaken filesize start end entry (k ∷ ks) c highest r h (inr (t, p)) (Memᴰ.head e) load =
    subst (IsTaken filesize start end) (sym e) t
Passed-IsTaken filesize start end entry (k ∷ ks) c highest r h (inl (no_load, p)) (Memᴰ.tail m)
      load =
    Passed-IsTaken filesize start end entry ks c highest r h p m load
Passed-IsTaken filesize start end entry (k ∷ ks) c highest r h (inr (t, p)) (Memᴰ.tail m) load =
    Passed-IsTaken filesize start end entry ks (c || covers entry k) (raised start k highest) r h p
      m load

-- When `check_sections32` returns 0 for a file whose memory sizes are below 2 GiB and whose loaded
-- sections share no byte, then every byte of every such section holds, after `copy_sections32`, the
-- byte of the file, or 0 behind the section's part of the file, and that part is inside of the file.
pub copy_sections-content :
    (filesize start end : ℕ) (f : Elf) (mem : Memory) (h : Phdr) (i : ℕ)
    → SmallMemory f.phdrs
    → (check_sections filesize start end f).0 ≡ pos 0
    → Separate f.phdrs
    → Memᴰ h f.phdrs
    → is_load h ≡ true
    → i < section_size h
    → ((copy_sections f mem).1 (phys_addr h.paddr + i) ≡ content f.buffer h i)
      × ((h.filesz ≤ i) ⊎ (h.offset + i < filesize))
unfolding copy_sections
copy_sections-content filesize start end f mem h i small e sep m load l =
    let (magic, lo, hi, p) = check_sections-Passed filesize start end f small e in
    let start' = phys_addr start in
    let end' = phys_addr end in
    let r = (check_sections filesize start end f).1 in
    let entry = phys_addr f.entry in
    let (_, below, between) =
      Passed-AllBetween filesize start' end' entry f.phdrs false 0 r (omega (arith, hi)) p in
    let (_, (placed, _)) = Passed-IsTaken filesize start' end' entry f.phdrs false 0 r h p m load in
    let hit : (f.magic == elf_magic) ≡ true = ap (λ y. y == elf_magic) magic in
    (
      rw hit (
          copy_loop-content f.buffer start' r f.phdrs mem h i (omega (arith, below)) between sep m
            load l),
      elim (Bool-cases (ltb i h.filesz)) [
        | inr behind ↦ inl (ground (arith, behind))
        | inl in_file ↦
            (let lt : i < h.filesz = ground (arith, in_file) in
              inr (omega (arith, placed.in_file (omega (arith, lt)), lt)))
      ],
    )
