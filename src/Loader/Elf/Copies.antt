-- ===== src/Loader/Elf/Copies.antt =====
-- The bytes that the copying of one section writes.
use kernelreloaded.Common.{
  sym, ℕ, zero, suc, ◌+◌, ◌-◌, ◌%◌, ◌^◌, ◌≤◌, ◌<◌, ◌≡◌, refl, ap, ◌∙◌, ◌⊎◌, inl, inr, true, false,
  arith, ◌==◌, eq_of_==, Bool-cases,
}
use kernelreloaded.Loader.Elf.{
  Phdr, Memory, phys_addr, is_load, store, copy_bytes, as_int, copy_section,
}

pub step_address :
    (dest i : ℕ) → phys_addr dest + i < 2 ^ 28 → phys_addr (dest + i) ≡ phys_addr dest + i
step_address dest i h = omega arith

-- Outside of the bytes written, memory stays.
pub copy_bytes-outside :
    (n i : ℕ) (source : ℕ → ℕ) (dest : ℕ) (mem : Memory) (x : ℕ)
    → phys_addr dest + (i + n) < 2 ^ 28
    → (x < phys_addr dest + i) ⊎ (phys_addr dest + (i + n) ≤ x)
    → copy_bytes n i source dest mem x ≡ mem x
unfolding copy_bytes
copy_bytes-outside zero i source dest mem x fits out = refl
copy_bytes-outside (suc n) i source dest mem x fits out =
    let a = step_address dest i (omega arith) in
    let miss : (x == phys_addr (dest + i)) ≡ false = ground (arith, a) in
    copy_bytes-outside n (suc i) source dest (store mem (dest + i) (source i)) x (omega arith)
      (elim out [ inl lo ↦ inl (omega arith) | inr hi ↦ inr (omega arith) ])
    ∙ rw miss refl

-- Byte `j` of the source stands at byte `j` of the destination.
pub copy_bytes-inside :
    (n i : ℕ) (source : ℕ → ℕ) (dest : ℕ) (mem : Memory) (j : ℕ)
    → phys_addr dest + (i + n) < 2 ^ 28
    → i ≤ j
    → j < i + n
    → copy_bytes n i source dest mem (phys_addr dest + j) ≡ source j
unfolding copy_bytes
copy_bytes-inside zero i source dest mem j fits lo hi = absurd (omega arith)
copy_bytes-inside (suc n) i source dest mem j fits lo hi = elim (Bool-cases (i == j)) [
  | inl e ↦
      let a = step_address dest i (omega arith) in
      let ij = eq_of_== i j e in
      let hit : (phys_addr dest + j == phys_addr (dest + i)) ≡ true = ground (arith, a) in
      copy_bytes-outside n (suc i) source dest (store mem (dest + i) (source i))
        (phys_addr dest + j) (omega arith) (inl (omega arith))
      ∙ rw hit (ap source ij)
  | inr n' ↦
      copy_bytes-inside n (suc i) source dest (store mem (dest + i) (source i)) j (omega arith)
        (ground arith) (omega arith)
]

-- Where a section lies: its sizes are no negative `int`, and memory goes on behind it.
pub record Fits (h : Phdr) : Type 0 where
  pub file : phys_addr h.paddr + h.filesz < 2 ^ 28
  pub memory : phys_addr h.paddr + h.memsz < 2 ^ 28

-- How many bytes of zero follow.
abbrev pub rest : Phdr → ℕ
rest h = as_int ((h.memsz + (2 ^ 32 - h.filesz)) % 2 ^ 32)

rest_lem : (h : Phdr) → Fits h → rest h ≡ h.memsz - h.filesz
rest_lem h f = ground (arith, f.file, f.memory)

as_int_lem : (n : ℕ) → n < 2 ^ 28 → as_int n ≡ n
as_int_lem n h = ground arith

pub zeroes_at : (h : Phdr) → Fits h → phys_addr (h.paddr + h.filesz) ≡ phys_addr h.paddr + h.filesz
zeroes_at h f = omega (arith, f.file)

pub section-skipped :
    (buffer : ℕ → ℕ) (h : Phdr) (mem : Memory)
    → is_load h ≡ false
    → (x : ℕ) → copy_section buffer h mem x ≡ mem x
unfolding copy_section
section-skipped buffer h mem no_load x = rw no_load refl

module _ (buffer : ℕ → ℕ) (h : Phdr) (mem : Memory) (load : is_load h ≡ true) (f : Fits h) where
  abbrev source : ℕ → ℕ
  source i = buffer (h.offset + i)

  abbrev copied : Memory
  copied = copy_bytes h.filesz 0 source h.paddr mem

  section_run :
      copy_section buffer h mem
      ≡ copy_bytes (h.memsz - h.filesz) 0 (λ i. 0) (h.paddr + h.filesz) copied
  unfolding copy_section
  section_run = rw (load, rest_lem h f, as_int_lem h.filesz (omega (arith, f.file))) refl

  pub section-outside :
      (x : ℕ)
      → (x < phys_addr h.paddr)
        ⊎ ((phys_addr h.paddr + h.filesz ≤ x) × (phys_addr h.paddr + h.memsz ≤ x))
      → copy_section buffer h mem x ≡ mem x
  section-outside x out =
      let z = zeroes_at h f in
      ap (λ m. m x) section_run
      ∙ copy_bytes-outside (h.memsz - h.filesz) 0 (λ i. 0) (h.paddr + h.filesz) copied x
          (omega (arith, z, f.file, f.memory))
          (elim out [
            | inl lo ↦ inl (omega (arith, z))
            | inr hi ↦ inr (omega (arith, z, hi.0, hi.1))
          ])
      ∙ copy_bytes-outside h.filesz 0 source h.paddr mem x (omega (arith, f.file))
          (elim out [ inl lo ↦ inl (omega arith) | inr hi ↦ inr (omega (arith, hi.0)) ])

  pub section-file :
      (i : ℕ)
      → i < h.filesz
      → copy_section buffer h mem (phys_addr h.paddr + i) ≡ buffer (h.offset + i)
  section-file i l =
      let z = zeroes_at h f in
      ap (λ m. m (phys_addr h.paddr + i)) section_run
      ∙ copy_bytes-outside (h.memsz - h.filesz) 0 (λ j. 0) (h.paddr + h.filesz) copied
          (phys_addr h.paddr + i) (omega (arith, z, f.file, f.memory)) (inl (omega (arith, z)))
      ∙ copy_bytes-inside h.filesz 0 source h.paddr mem i (omega (arith, f.file)) (omega arith)
          (omega arith)

  pub section-zero :
      (i : ℕ) → h.filesz ≤ i → i < h.memsz → copy_section buffer h mem (phys_addr h.paddr + i) ≡ 0
  section-zero i lo hi =
      let z = zeroes_at h f in
      let same : phys_addr (h.paddr + h.filesz) + (i - h.filesz) ≡ phys_addr h.paddr + i =
        omega (arith, z) in
      ap (λ m. m (phys_addr h.paddr + i)) section_run
      ∙ ap (copy_bytes (h.memsz - h.filesz) 0 (λ j. 0) (h.paddr + h.filesz) copied) (sym same)
      ∙ copy_bytes-inside (h.memsz - h.filesz) 0 (λ j. 0) (h.paddr + h.filesz) copied (i - h.filesz)
          (omega (arith, z, f.file, f.memory)) (omega arith) (omega arith)
