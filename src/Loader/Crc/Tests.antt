-- ===== src/Loader/Crc/Tests.antt =====
-- The checksums on a small file and a small memory.
use kernelreloaded.Common.{
  none, inr, negsuc, inl, ℕ, ◌*◌, ◌%◌, ◌≡◌, refl, true, false, some, List, [], ◌∷◌, arith, pos,
  replicate,
}
use kernelreloaded.Loader.Crc.{gen_crc, gen_loop, gen_bits, gen_bit, CrcTables, calc_crc}
use kernelreloaded.Common.Words.{xor, shr}
use kernelreloaded.Loader.Crc.Table.{Sound, calc_crc-gen_crc}
use kernelreloaded.Loader.Crc.Sections.{
  CrcSection, SectionHeader, ElfFile, find_segment, find_header, segment_bytes, fix_segments,
  memory_bytes, crc32check,
}
use kernelreloaded.Loader.Crc.Check.{
  IsMemory, Loaded, Checked, write, crc32check-Checked, crc32check-fix_segments, crc32check_change,
}

abbrev no_tables : CrcTables
no_tables = record { crc_table = replicate 256 0; crc_reverse = replicate 256 0; ready = false }

no_tables-Sound : Sound no_tables
no_tables-Sound = record { size = refl; size_reverse = refl; built = λ e. cc }

abbrev memory : ℕ → ℕ
memory a = a * 7 % 256

memory-IsMemory : IsMemory memory
memory-IsMemory a = omega arith

abbrev text_name : List ℕ
text_name = 0x74 ∷ 0x78 ∷ []

abbrev entry : CrcSection
entry = record { crc = 0; fileoffset = 0; start = 8; end = 11; section = text_name }

abbrev header : SectionHeader
header = record { sh_name = text_name; sh_offset = 1; sh_size = 3 }

abbrev file : ElfFile
file = record { magic = true; headers = header ∷ []; bytes = 0 ∷ 56 ∷ 63 ∷ 70 ∷ [] }

entry-Loaded : Loaded file memory entry
unfolding find_segment find_header segment_bytes memory_bytes
entry-Loaded = record {
  header = header;
  found = refl;
  some_bytes = omega arith;
  int_size = omega arith;
  loaded = refl;
}

-- The checksum of "1" by the loop of crc32gen.
gen_crc_of_1 : gen_crc (0x31 ∷ []) ≡ 0x5c007b8a
unfolding gen_crc gen_loop gen_bits gen_bit xor shr
gen_crc_of_1 = refl

calc_crc-gen_crc_example :
    (t' : CrcTables) × (calc_crc no_tables (1 ∷ 2 ∷ []) ≡ some (gen_crc (1 ∷ 2 ∷ []), t'))
    × Sound t'
calc_crc-gen_crc_example = calc_crc-gen_crc no_tables (1 ∷ 2 ∷ []) no_tables-Sound (omega arith)

crc32check-Checked_example : Checked memory no_tables (entry ∷ [])
crc32check-Checked_example =
    crc32check-Checked memory no_tables (entry ∷ []) memory-IsMemory no_tables-Sound

crc32check-fix_segments_example :
    (es' : List CrcSection) × (t' : CrcTables) × (fix_segments file (entry ∷ []) ≡ some es')
    × (crc32check memory no_tables es' ≡ some (pos 0, t'))
    × Sound t'
crc32check-fix_segments_example =
    crc32check-fix_segments file memory no_tables (entry ∷ []) memory-IsMemory no_tables-Sound
      (entry-Loaded, tt)

-- The header says that the section goes on behind the file.
short_file : segment_bytes (record file { bytes = 0 ∷ 56 ∷ [] }) header ≡ none
unfolding segment_bytes
short_file = refl

abbrev fixed : CrcSection
fixed = record entry { crc = gen_crc (56 ∷ 63 ∷ 70 ∷ []); fileoffset = 1 }

fixed-Checked : Checked memory no_tables (fixed ∷ [])
fixed-Checked = crc32check-Checked memory no_tables (fixed ∷ []) memory-IsMemory no_tables-Sound

fixed_passes : (t' : CrcTables) × (crc32check memory no_tables (fixed ∷ []) ≡ some (pos 0, t'))
unfolding memory_bytes
fixed_passes = elim fixed-Checked.verdict [
  | inl (r, i) ↦ (fixed-Checked.after, r)
  | inr (r, n) ↦ absurd (n (refl, tt))
]

crc32check_change_example :
    (u : CrcTables) × (crc32check (write memory 9 1) no_tables (fixed ∷ []) ≡ some (negsuc 0, u))
crc32check_change_example =
    crc32check_change memory no_tables fixed_passes.0 (fixed ∷ []) 9 1 memory-IsMemory
      no_tables-Sound fixed_passes.1 (inl (omega arith)) (omega arith) (λ e. omega (arith, e))
