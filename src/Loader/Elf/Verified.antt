-- ===== src/Loader/Elf/Verified.antt =====
-- The comparison by `verify_sections32` after the copying.
use kernelreloaded.Common.{
  ◌%◌, pos, ltb, false, ℕ, zero, suc, ◌+◌, ◌-◌, ◌^◌, ◌≤◌, ◌<◌, ◌≡◌, refl, ap, ◌∙◌, inl, inr, true,
  List, [], ◌∷◌, arith, ◌==◌, ==_refl, Bool-cases,
}
use mathlib.Core.List.{Memᴰ}
use kernelreloaded.Loader.Elf.{
  Phdr, Elf, Memory, elf_magic, phys_addr, is_load, section_size, check_sections, copy_sections,
  same_bytes, zero_bytes, verify_section, verify_loop, verify_sections,
}
use kernelreloaded.Loader.Elf.Copies.{step_address, zeroes_at, Fits}
use kernelreloaded.Loader.Elf.Checks.{SmallMemory, check_sections-Passed}
use kernelreloaded.Loader.Elf.Inside.{AllBetween, Passed-AllBetween, size_lem}
use kernelreloaded.Loader.Elf.Loaded.{Separate, content, copy_sections-content}

-- No section has more bytes in the file than in memory.
abbrev pub AllOrdered : List Phdr → Type 0
AllOrdered [] = Unit {0}
AllOrdered (h ∷ hs) = (h.filesz ≤ h.memsz) × AllOrdered hs

same_bytes_lem :
    (n i : ℕ) (source : ℕ → ℕ) (dest : ℕ) (mem : Memory)
    → phys_addr dest + (i + n) < 2 ^ 28
    → ((j : ℕ) → j < i + n → mem (phys_addr dest + j) ≡ source j)
    → same_bytes n i source dest mem ≡ true
unfolding same_bytes
same_bytes_lem zero i source dest mem fits same = refl
same_bytes_lem (suc n) i source dest mem fits same =
    let a = ap mem (step_address dest i (omega arith)) ∙ same i (omega arith) in
    let hit : (mem (phys_addr (dest + i)) == source i) ≡ true =
      ap (λ y. y == source i) a ∙ ==_refl (source i) in
    rw hit
      (same_bytes_lem n (suc i) source dest mem (omega arith) (λ j l. same j (omega (arith, l))))

zero_bytes_lem :
    (n dest : ℕ) (mem : Memory)
    → ((0 < n) → mem (phys_addr dest) ≡ 0)
    → zero_bytes n dest mem ≡ true
unfolding zero_bytes
zero_bytes_lem zero dest mem z = refl
zero_bytes_lem (suc n) dest mem z =
    let a = z (omega arith) in
    let hit : (mem (phys_addr dest) == 0) ≡ true = ap (λ y. y == 0) a in
    rw hit (zero_bytes_lem n dest mem (λ l. a))

content_file :
    (buffer : ℕ → ℕ) (h : Phdr) (i : ℕ) → i < h.filesz → content buffer h i ≡ buffer (h.offset + i)
content_file buffer h i l = let t : ltb i h.filesz ≡ true = ground arith in rw t refl

content_zero : (buffer : ℕ → ℕ) (h : Phdr) (i : ℕ) → h.filesz ≤ i → content buffer h i ≡ 0
content_zero buffer h i l = let t : ltb i h.filesz ≡ false = ground arith in rw t refl

verify_section-skipped :
    (buffer : ℕ → ℕ) (h : Phdr) (mem : Memory)
    → is_load h ≡ false
    → verify_section buffer h mem ≡ true
unfolding verify_section
verify_section-skipped buffer h mem no_load = rw no_load refl

verify_section_lem :
    (buffer : ℕ → ℕ) (h : Phdr) (mem : Memory)
    → phys_addr h.paddr + section_size h < 2 ^ 28
    → h.filesz ≤ h.memsz
    → is_load h ≡ true
    → ((i : ℕ) → i < section_size h → mem (phys_addr h.paddr + i) ≡ content buffer h i)
    → verify_section buffer h mem ≡ true
unfolding verify_section
verify_section_lem buffer h mem top le load all =
    let (a, b) = size_lem h in
    let fits : Fits h = record { file = omega (arith, a, top); memory = omega (arith, b, top) } in
    let same =
      same_bytes_lem h.filesz 0 (λ i. buffer (h.offset + i)) h.paddr mem (omega (arith, fits.file))
        (λ j l. all j (omega (arith, a)) ∙ content_file buffer h j (omega (arith, l))) in
    let size = (h.memsz + (2 ^ 32 - h.filesz)) % 2 ^ 32 in
    let zeroes = zero_bytes_lem size (h.paddr + h.filesz) mem (λ l.
      ap mem (zeroes_at h fits)
      ∙ all h.filesz (omega (arith, fits.file, fits.memory, b))
      ∙ content_zero buffer h h.filesz (omega arith)) in
    rw (load, same, zeroes) refl

verify_loop_lem :
    (buffer : ℕ → ℕ) (start top : ℕ) (hs : List Phdr) (mem : Memory)
    → top < 2 ^ 28
    → AllBetween start top hs
    → AllOrdered hs
    → ((h : Phdr)
        → Memᴰ h hs
        → is_load h ≡ true
        → (i : ℕ) → i < section_size h
        → mem (phys_addr h.paddr + i) ≡ content buffer h i)
    → verify_loop buffer hs mem ≡ true
unfolding verify_loop
verify_loop_lem buffer start top [] mem small between ordered all = refl
verify_loop_lem buffer start top (h ∷ hs) mem small (b, between) (o, ordered) all =
    let one : verify_section buffer h mem ≡ true = elim (Bool-cases (is_load h)) [
      | inr no_load ↦ verify_section-skipped buffer h mem no_load
      | inl load ↦
          verify_section_lem buffer h mem (omega (arith, (b load).1)) o load
            (all h (Memᴰ.head refl) load)
    ] in
    rw one
      (verify_loop_lem buffer start top hs mem small between ordered (λ k m. all k (Memᴰ.tail m)))

-- When `check_sections32` returns 0 for a file whose memory sizes are below 2 GiB, whose loaded
-- sections share no byte, and none of whose sections has more bytes in the file than in memory,
-- then `verify_sections32` finds no fault in the memory that `copy_sections32` leaves.
pub verify_sections-copy_sections :
    (filesize start end : ℕ) (f : Elf) (mem : Memory)
    → SmallMemory f.phdrs
    → (check_sections filesize start end f).0 ≡ pos 0
    → Separate f.phdrs
    → AllOrdered f.phdrs
    → verify_sections f (copy_sections f mem).1 ≡ true
unfolding verify_sections
verify_sections-copy_sections filesize start end f mem small e sep ordered =
    let (magic, lo, hi, p) = check_sections-Passed filesize start end f small e in
    let r = (check_sections filesize start end f).1 in
    let (_, below, between) =
      Passed-AllBetween filesize (phys_addr start) (phys_addr end) (phys_addr f.entry) f.phdrs false
        0 r (omega (arith, hi)) p in
    let hit : (f.magic == elf_magic) ≡ true = ap (λ y. y == elf_magic) magic in
    rw hit (
      verify_loop_lem f.buffer (phys_addr start) r f.phdrs (copy_sections f mem).1
        (omega (arith, below)) between ordered
        (λ h m load i l.
          (copy_sections-content filesize start end f mem h i small e sep m load l).0))
