-- ===== src/Loader/Crc.antt =====
-- loader/crc32check.c, which checks the loader's own sections when it starts, and
-- tools/crc32gen/crc32gen.c, which writes the checksums into the linked file.
-- A `uint32_t` is a number below 2^32. A read behind an array or behind the file is `none`.
pub mod Bytes
pub mod Table
pub mod Sections
pub mod Change
pub mod Check
mod Tests
use kernelreloaded.Common.{
  ◌>>=◌, ℕ, zero, suc, ◌+◌, ◌-◌, ◌*◌, ◌/◌, ◌%◌, ◌^◌, ◌<◌, Bool, true, Option, none, some, List, [],
  ◌∷◌, leb, ◌==◌, if◌then◌else◌, get_elem?, set, has,
}
use kernelreloaded.Common.Bits.{bit, set_bit}
use kernelreloaded.Common.Words.{xor, shr}

-- `CRC32MASK`
abbrev pub crc32_mask : ℕ
crc32_mask = 0x04C11DB7

-- `crc32 << 1`
abbrev pub shift : ℕ → ℕ
shift c = c * 2 % 2 ^ 32

-- One round of the inner loop of crc32gen's `calc_crc`.
unfoldable pub gen_bit : ℕ → ℕ → ℕ
gen_bit c databit = if c / 2 ^ 31 == databit then shift c else xor 32 (shift c) crc32_mask

-- The inner loop, by the rounds left to do and by `n`.
unfoldable pub gen_bits : ℕ → ℕ → ℕ → ℕ → ℕ
gen_bits zero n d c = c
gen_bits (suc k) n d c = gen_bits k (n + 1) d (gen_bit c (shr n d % 2))

unfoldable pub gen_loop : List ℕ → ℕ → ℕ
gen_loop [] c = c
gen_loop (d ∷ ds) c = gen_loop ds (gen_bits 8 0 d c)

-- crc32gen's `calc_crc`
unfoldable pub gen_crc : List ℕ → ℕ
unfolding gen_loop
gen_crc bytes = gen_loop bytes 0

-- The two halves of a round of the inner loop of `build_crc_table`.
unfoldable pub table_step : ℕ → ℕ
table_step c = if leb 0x80000000 c then xor 32 (shift c) crc32_mask else shift c

unfoldable pub reverse_step : ℕ → ℕ → ℕ → ℕ
reverse_step i n r = if bit i n then set_bit r (7 - n) else r

-- The inner loop of `build_crc_table`, by the rounds left to do, on `crc32` and `r`.
unfoldable pub table_rounds : ℕ → ℕ → ℕ → ℕ → ℕ → ℕ × ℕ
table_rounds zero n i c r = (c, r)
table_rounds (suc k) n i c r = table_rounds k (n + 1) i (table_step c) (reverse_step i n r)

-- `crc_table`, `crc_reverse` and `crc_table_ready`
pub record CrcTables : Type 0 where
  pub crc_table : List ℕ
  pub crc_reverse : List ℕ
  pub ready : Bool

unfoldable pub table_entry : ℕ → ℕ × ℕ
unfolding table_rounds
table_entry i = table_rounds 8 0 i (i * 2 ^ 24 % 2 ^ 32) 0

-- The outer loop, by the entries left to do.
unfoldable pub table_loop : ℕ → ℕ → CrcTables → CrcTables
table_loop zero i t = t
table_loop (suc k) i t =
    let e = table_entry i in
    table_loop k (suc i)
      (record t { crc_table = set t.crc_table i e.0; crc_reverse = set t.crc_reverse i e.1 })

unfoldable pub build_crc_table : CrcTables → CrcTables
unfolding table_loop
build_crc_table t = record (table_loop 256 0 t) { ready = true }

-- The body of the loop of `calc_crc`; `idx` has eight bits.
unfoldable pub crc_byte : CrcTables → ℕ → ℕ → Option ℕ
crc_byte t d c = do
  r ← get_elem? t.crc_reverse d
  e ← get_elem? t.crc_table (xor 8 (c / 2 ^ 24) r)
  some (xor 32 (c * 2 ^ 8 % 2 ^ 32) e)

unfoldable pub crc_loop : CrcTables → List ℕ → ℕ → Option ℕ
unfolding crc_byte
crc_loop t [] c = some c
crc_loop t (d ∷ ds) c = do c' ← crc_byte t d c; crc_loop t ds c'

unfoldable pub tables_for : CrcTables → CrcTables
unfolding build_crc_table
tables_for t = if t.ready then t else build_crc_table t

unfoldable pub calc_crc : CrcTables → List ℕ → Option (ℕ × CrcTables)
unfolding crc_loop tables_for
calc_crc t bytes = do c ← crc_loop (tables_for t) bytes 0; some (c, tables_for t)
