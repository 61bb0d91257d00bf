-- ===== src/Loader/Elf/Checks.antt =====
-- What `check_sections32` has found out when it returns 0.
use kernelreloaded.Common.{
  ℕ, ◌+◌, ◌%◌, ◌^◌, ◌≤◌, ◌<◌, ◌≡◌, refl, ap, ◌∙◌, ◌⊎◌, inl, inr, Bool, true, false, ◌||◌, none,
  some, List, [], ◌∷◌, arith, ltb, leb, ◌==◌, eq_of_==, Bool-cases, Option-cases, pos,
}
use kernelreloaded.Loader.Elf.{
  Phdr, Elf, elf_magic, phys_addr, is_load, section_size, accessible, check_file, check_place,
  covers, raised, check_loop, check_sections,
}

-- The section lies between the two addresses and in the file.
pub record Placed (filesize start end : ℕ) (h : Phdr) : Type 0 where
  pub low : start ≤ phys_addr h.paddr
  pub high : phys_addr h.paddr + section_size h < end
  pub mapped : accessible h.paddr ≡ true
  pub in_file : 0 < h.filesz → h.offset + h.filesz < filesize

-- The end of the section is computed without a wrap-around.
abbrev pub IsWhole : Phdr → Type 0
IsWhole h = (phys_addr h.paddr + section_size h) % 2 ^ 32 ≡ phys_addr h.paddr + section_size h

-- The memory sizes are no negative `int`.
abbrev pub SmallMemory : List Phdr → Type 0
SmallMemory [] = Unit {0}
SmallMemory (h ∷ hs) = (h.memsz < 2 ^ 31) × SmallMemory hs

file_ok :
    (filesize : ℕ) (h : Phdr)
    → check_file filesize h ≡ none
    → (h.filesz ≤ 2 ^ 27) × (0 < h.filesz → h.offset + h.filesz < filesize)
unfolding check_file
file_ok filesize h e = ground arith

place_ok :
    (start end : ℕ) (h : Phdr)
    → check_place start end h ≡ none
    → (accessible h.paddr ≡ true)
      × (start ≤ phys_addr h.paddr)
      × ((phys_addr h.paddr + section_size h) % 2 ^ 32 < end)
unfolding check_place
place_ok start end h e = ground arith

file_code : (filesize : ℕ) (h : Phdr) → check_file filesize h ≡ some (pos 0) → ⊥
unfolding check_file
file_code filesize h e = ground arith

place_code : (start end : ℕ) (h : Phdr) → check_place start end h ≡ some (pos 0) → ⊥
unfolding check_place
place_code start end h e = ground arith

place_of :
    (filesize start end : ℕ) (h : Phdr)
    → end < 2 ^ 28
    → h.memsz < 2 ^ 31
    → check_file filesize h ≡ none
    → check_place start end h ≡ none
    → Placed filesize start end h × IsWhole h
unfolding section_size
place_of filesize start end h top small file place =
    let (size, inside) = file_ok filesize h file in
    let (m, lo, hi) = place_ok start end h place in
    let s = section_size h in
    let bounds : (h.filesz ≤ s) × (h.memsz ≤ s) × (s < 2 ^ 31) = ground arith in
    let whole : (phys_addr h.paddr + s) % 2 ^ 32 ≡ phys_addr h.paddr + s =
      omega (arith, bounds.2) in
    (record { low = lo; high = omega (arith, hi, whole); mapped = m; in_file = inside }, whole)

-- The section has passed the tests.
abbrev pub IsTaken : (filesize start end : ℕ) → Phdr → Type 0
IsTaken filesize start end h = (is_load h ≡ true) × (Placed filesize start end h × IsWhole h)

module _ (filesize start end entry : ℕ) where
  -- How the loop comes to the end, with `copied_entry` and `*highest` at its start and `*highest` at its end.
  abbrev pub Passed : List Phdr → Bool → ℕ → ℕ → Type 0
  Passed [] c highest r = (c ≡ true) × (highest ≡ r)
  Passed (h ∷ hs) c highest r =
      ((is_load h ≡ false) × Passed hs c highest r)
      ⊎ (IsTaken filesize start end h × Passed hs (c || covers entry h) (raised start h highest) r)

  pub check_loop-Passed :
      (hs : List Phdr) (c : Bool) (highest : ℕ)
      → end < 2 ^ 28
      → SmallMemory hs
      → (check_loop filesize start end entry hs c highest).0 ≡ pos 0
      → Passed hs c highest (check_loop filesize start end entry hs c highest).1
  unfolding check_loop
  check_loop-Passed [] true highest top small e = (refl, refl)
  check_loop-Passed [] false highest top small e = absurd (ground arith)
  check_loop-Passed (h ∷ hs) c highest top (s, small) e = elim (Bool-cases (is_load h)) [
    | inr no_load ↦
        inl (no_load, rw no_load (check_loop-Passed hs c highest top small (rw no_load at e)))
    | inl load ↦ elim (Option-cases (check_file filesize h)) [
      | inr (code, f) ↦ absurd (file_code filesize h (f ∙ ap some (rw (load, f) at e)))
      | inl f ↦ elim (Option-cases (check_place start end h)) [
        | inr (code, q) ↦ absurd (place_code start end h (q ∙ ap some (rw (load, f, q) at e)))
        | inl q ↦ inr (
          (load, place_of filesize start end h top s f q),
          rw (load, f, q)
              (check_loop-Passed hs (c || covers entry h) (raised start h highest) top small
                (rw (load, f, q) at e)),
        )
      ]
    ]
  ]

-- The tests on the file header have been passed.
pub check_sections-Passed :
    (filesize start end : ℕ) (f : Elf)
    → SmallMemory f.phdrs
    → (check_sections filesize start end f).0 ≡ pos 0
    → (f.magic ≡ elf_magic)
      × (phys_addr start ≤ phys_addr f.entry)
      × (phys_addr f.entry < phys_addr end)
      × Passed filesize
          (phys_addr start)
          (phys_addr end)
          (phys_addr f.entry)
          f.phdrs
          false
          0
          (check_sections filesize start end f).1
unfolding check_sections
check_sections-Passed filesize start end f small e = elim (Bool-cases (f.magic == elf_magic)) [
  | inr m ↦ absurd (ground arith)
  | inl m ↦ elim (Bool-cases (accessible f.entry)) [
    | inr a ↦ absurd (ground (arith, m, a))
    | inl a ↦ elim (Bool-cases (ltb (phys_addr f.entry) (phys_addr start))) [
      | inl l ↦ absurd (ground (arith, m, a, l))
      | inr l ↦ elim (Bool-cases (leb (phys_addr end) (phys_addr f.entry))) [
        | inl g ↦ absurd (ground (arith, m, a, l, g))
        | inr g ↦ (
          eq_of_== f.magic elf_magic m,
          ground arith,
          ground arith,
          rw (m, a, l, g)
              (check_loop-Passed filesize (phys_addr start) (phys_addr end) (phys_addr f.entry)
                f.phdrs false 0 (omega arith) small (rw (m, a, l, g) at e)),
        )
      ]
    ]
  ]
]
