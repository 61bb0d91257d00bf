-- ===== src/Loader/Elf.antt =====
-- loader/loader.c: the image of the kernel, an ELF file of the 32-bit class. It is checked before the
-- loader gives up its own memory, copied to where it runs, and compared. copy_sections of
-- kernel/loader.c is the same function.
-- `buffer` is what stands in memory from the file's first byte on; `phdrs` are the `phnum` program
-- headers behind the file header. Memory is addressed by PHYSADDR. The messages are left out.
-- `start` and `end` of check_sections32 are those that check_sections is given, cut by PHYSADDR.
pub mod Copies
pub mod Checks
pub mod Inside
pub mod Loaded
mod Verified
mod Tests
use kernelreloaded.Common.{
  ℕ, zero, suc, ◌+◌, ◌-◌, ◌*◌, ◌/◌, ◌%◌, ◌^◌, Bool, true, false, not, ◌&&◌, ◌||◌, Option, none,
  some, List, [], ◌∷◌, ltb, leb, ◌==◌, if◌then◌else◌, ℤ, pos, negsuc, set,
}

-- `Elf32_Phdr_t`
pub record Phdr : Type 0 where
  pub kind : ℕ
  pub offset : ℕ
  pub paddr : ℕ
  pub filesz : ℕ
  pub memsz : ℕ

-- `Elf32_Ehdr_t`, with the program headers and the bytes of the file
pub record Elf : Type 0 where
  pub magic : ℕ
  pub entry : ℕ
  pub phdrs : List Phdr
  pub buffer : ℕ → ℕ

abbrev pub Memory : Type 0
Memory = ℕ → ℕ

-- `ELFMAGIC`
abbrev pub elf_magic : ℕ
elf_magic = 0x464c457f

-- `PHYSADDR`
abbrev pub phys_addr : ℕ → ℕ
phys_addr x = x % 2 ^ 28

-- `type == PT_LOAD && memsz != 0`
unfoldable pub is_load : Phdr → Bool
is_load h = h.kind == 1 && not (h.memsz == 0)

unfoldable pub section_size : Phdr → ℕ
section_size h = if ltb h.memsz h.filesz then h.filesz else h.memsz

-- `area == 0x8 || area == 0xa`
abbrev pub accessible : ℕ → Bool
accessible x = x / 2 ^ 28 == 0x8 || x / 2 ^ 28 == 0xa

-- Whether the section is in the file: the code to return, or `none`.
unfoldable pub check_file : ℕ → Phdr → Option ℤ
check_file filesize h =
    if h.filesz == 0
    then none
    else if ltb (128 * 1024 * 1024) h.filesz
    then some (negsuc 30)
    else if ltb (128 * 1024 * 1024) h.offset
    then some (negsuc 30)
    else if leb filesize ((h.offset + h.filesz) % 2 ^ 32)
    then some (negsuc 29)
    else none

-- Whether the section may be put where it says.
unfoldable pub check_place : (start end : ℕ) → Phdr → Option ℤ
unfolding section_size
check_place start end h =
    if accessible h.paddr
    then (let dest = phys_addr h.paddr in
        if ltb dest start
        then some (negsuc 2)
        else if leb end ((dest + section_size h) % 2 ^ 32)
        then some (negsuc 3)
        else none)
    else some (negsuc 1)

-- The two conditions that set `copied_entry`.
unfoldable pub covers : ℕ → Phdr → Bool
unfolding section_size
covers entry h =
    let dest = phys_addr h.paddr in leb dest entry && ltb entry ((dest + section_size h) % 2 ^ 32)

-- `*highest`, raised by a section that passes the tests before its end is computed.
unfoldable pub raised : ℕ → Phdr → ℕ → ℕ
unfolding section_size
raised start h highest =
    let last = (phys_addr h.paddr + section_size h) % 2 ^ 32 in
    if accessible h.paddr && leb start (phys_addr h.paddr) && ltb highest last
    then last
    else highest

-- The loop of `check_sections32`: what it returns and `*highest`, with both and `copied_entry` so far.
unfoldable pub check_loop : (filesize start end entry : ℕ) → List Phdr → Bool → ℕ → ℤ × ℕ
unfolding is_load check_file check_place covers raised
check_loop filesize start end entry [] copied_entry highest =
    (if copied_entry then pos 0 else negsuc 4, highest)
check_loop filesize start end entry (h ∷ hs) copied_entry highest =
    let skip = check_loop filesize start end entry hs copied_entry highest in
    let highest' = raised start h highest in
    let next = check_loop filesize start end entry hs (copied_entry || covers entry h) highest' in
    if is_load h
    then elim (check_file filesize h) [
      | some code ↦ (code, highest)
      | none ↦ elim (check_place start end h) [ some code ↦ (code, highest') | none ↦ next ]
    ]
    else skip

-- `check_sections32`, called with a place for `*highest` and no `destaddr`.
unfoldable pub check_sections : (filesize start end : ℕ) → Elf → ℤ × ℕ
unfolding check_loop
check_sections filesize start end f =
    if f.magic == elf_magic
    then if accessible f.entry
      then if ltb (phys_addr f.entry) (phys_addr start)
        then (negsuc 20, 0)
        else if leb (phys_addr end) (phys_addr f.entry)
        then (negsuc 20, 0)
        else check_loop filesize (phys_addr start) (phys_addr end) (phys_addr f.entry) f.phdrs false
            0
      else (negsuc 19, 0)
    else (negsuc 0, 0)

-- One byte is written.
abbrev pub store : Memory → ℕ → ℕ → Memory
store mem a v x = if x == phys_addr a then v else mem x

-- `kmemcpy` and `memset`, by the bytes left to do, from byte `i` on.
unfoldable pub copy_bytes : (n i : ℕ) → (source : ℕ → ℕ) → (dest : ℕ) → Memory → Memory
copy_bytes zero i source dest mem = mem
copy_bytes (suc n) i source dest mem =
    copy_bytes n (suc i) source dest (store mem (dest + i) (source i))

-- A size that is negative as an `int` copies nothing.
abbrev pub as_int : ℕ → ℕ
as_int n = if ltb n (2 ^ 31) then n else 0

-- One program header in `copy_sections32`.
unfoldable pub copy_section : (ℕ → ℕ) → Phdr → Memory → Memory
unfolding is_load copy_bytes
copy_section buffer h mem =
    if is_load h
    then (let copied = copy_bytes (as_int h.filesz) 0 (λ i. buffer (h.offset + i)) h.paddr mem in
        copy_bytes (as_int ((h.memsz + (2 ^ 32 - h.filesz)) % 2 ^ 32)) 0 (λ i. 0)
          (h.paddr + h.filesz) copied)
    else mem

unfoldable pub copy_loop : (ℕ → ℕ) → List Phdr → Memory → Memory
unfolding copy_section
copy_loop buffer [] mem = mem
copy_loop buffer (h ∷ hs) mem = copy_loop buffer hs (copy_section buffer h mem)

-- `copy_sections32`: the entry point, or `none` for NULL.
unfoldable pub copy_sections : Elf → Memory → Option ℕ × Memory
unfolding copy_loop
copy_sections f mem =
    if f.magic == elf_magic then (some f.entry, copy_loop f.buffer f.phdrs mem) else (none, mem)

-- `memcmp` finds no difference, by the bytes left to compare, from byte `i` on.
unfoldable pub same_bytes : (n i : ℕ) → (source : ℕ → ℕ) → (dest : ℕ) → Memory → Bool
same_bytes zero i source dest mem = true
same_bytes (suc n) i source dest mem =
    mem (phys_addr (dest + i)) == source i && same_bytes n (suc i) source dest mem

-- The loop over the zeroes, which reads the same byte in every round.
unfoldable pub zero_bytes : ℕ → (dest : ℕ) → Memory → Bool
zero_bytes zero dest mem = true
zero_bytes (suc n) dest mem = mem (phys_addr dest) == 0 && zero_bytes n dest mem

-- One program header in `verify_sections32`: whether there is no `panic`.
unfoldable pub verify_section : (ℕ → ℕ) → Phdr → Memory → Bool
unfolding is_load same_bytes zero_bytes
verify_section buffer h mem =
    not (is_load h)
    || (same_bytes h.filesz 0 (λ i. buffer (h.offset + i)) h.paddr mem
        && zero_bytes ((h.memsz + (2 ^ 32 - h.filesz)) % 2 ^ 32) (h.paddr + h.filesz) mem)

unfoldable pub verify_loop : (ℕ → ℕ) → List Phdr → Memory → Bool
unfolding verify_section
verify_loop buffer [] mem = true
verify_loop buffer (h ∷ hs) mem = verify_section buffer h mem && verify_loop buffer hs mem

-- `verify_sections32`
unfoldable pub verify_sections : Elf → Memory → Bool
unfolding verify_loop
verify_sections f mem = f.magic == elf_magic && verify_loop f.buffer f.phdrs mem
