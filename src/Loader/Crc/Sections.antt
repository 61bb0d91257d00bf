-- ===== src/Loader/Crc/Sections.antt =====
-- The sections that are checked: `crc32check` of loader/crc32check.c, and `find_segment` and
-- `fix_segments` of tools/crc32gen/crc32gen.c. The messages are left out.
use kernelreloaded.Common.{
  length, leb, ◌%◌, drop, same_text, ◌>>=◌, take, ℕ, zero, suc, ◌+◌, ◌-◌, ◌^◌, Bool, true, false,
  ◌&&◌, Option, none, some, List, [], ◌∷◌, ltb, ◌==◌, if◌then◌else◌, ℤ, pos, negsuc,
}
use kernelreloaded.Loader.Crc.{gen_crc, CrcTables, calc_crc}

-- `crc32_section_t`
pub record CrcSection : Type 0 where
  pub crc : ℕ
  pub fileoffset : ℕ
  pub start : ℕ
  pub end : ℕ
  pub section : List ℕ

-- What `find_segment` uses of an `Elf32_Shdr`; the name is read from the table of strings.
pub record SectionHeader : Type 0 where
  pub sh_name : List ℕ
  pub sh_offset : ℕ
  pub sh_size : ℕ

-- The file that crc32gen maps, with its section headers decoded.
pub record ElfFile : Type 0 where
  pub magic : Bool
  pub headers : List SectionHeader
  pub bytes : List ℕ

unfoldable pub find_header : List SectionHeader → List ℕ → Option SectionHeader
find_header [] name = none
find_header (h ∷ hs) name =
    let rest = find_header hs name in if same_text h.sh_name name then some h else rest

-- `find_segment`: the offset of the data and the size, or `none` for -1.
unfoldable pub find_segment : ElfFile → List ℕ → Option SectionHeader
unfolding find_header
find_segment f name = if f.magic then find_header f.headers name else none

-- The bytes at `data + sh_offset`, as many as `sh_size`; `none` where they go on behind the file.
unfoldable pub segment_bytes : ElfFile → SectionHeader → Option (List ℕ)
segment_bytes f h =
    if leb (h.sh_offset + h.sh_size) (length f.bytes)
    then some (take h.sh_size (drop h.sh_offset f.bytes))
    else none

-- One round of the loop of `fix_segments`; the size is an `int` there.
unfoldable pub fix_section : ElfFile → CrcSection → Option CrcSection
unfolding find_segment segment_bytes
fix_section f e = elim (find_segment f e.section) [
  | none ↦ some e
  | some h ↦
      let patched =
        segment_bytes f h
        >>= (λ bytes. some (record e { crc = gen_crc bytes; fileoffset = h.sh_offset })) in
      if ltb 0 h.sh_size && ltb h.sh_size (2 ^ 31) then patched else some e
]

unfoldable pub fix_segments : ElfFile → List CrcSection → Option (List CrcSection)
unfolding fix_section
fix_segments f [] = some []
fix_segments f (e ∷ es) = do e' ← fix_section f e; es' ← fix_segments f es; some (e' ∷ es')

-- The bytes of memory from `start` on, as many as `size`.
unfoldable pub memory_bytes : (ℕ → ℕ) → ℕ → ℕ → List ℕ
memory_bytes mem start zero = []
memory_bytes mem start (suc n) = mem start ∷ memory_bytes mem (start + 1) n

-- `end - start`, of two pointers of 32 bits; the loop of `calc_crc` makes no round for a negative one.
abbrev pub section_length : CrcSection → ℕ
section_length e = let d = (e.end + 2 ^ 32 - e.start) % 2 ^ 32 in if ltb d (2 ^ 31) then d else 0

-- `crc32check`, from an entry of `crc` on.
unfoldable pub crc32check : (ℕ → ℕ) → CrcTables → List CrcSection → Option (ℤ × CrcTables)
unfolding memory_bytes
crc32check mem t [] = some (pos 0, t)
crc32check mem t (e ∷ es) = do
  (v, t') ← calc_crc t (memory_bytes mem e.start (section_length e))
  elim (e.crc == v) [ true ↦ crc32check mem t' es | false ↦ some (negsuc 0, t') ]
