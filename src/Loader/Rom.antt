-- ===== src/Loader/Rom.antt =====
-- loader/rom.c: files that are linked into the loader, with the files of the host behind them.
-- The functions on a `FILE` of the host are parameters, over a state `S` of the host.
pub mod Entry
pub mod Files
mod Tests
use kernelreloaded.Common.{
  drop, same_text, take, ℕ, zero, suc, ◌+◌, ◌-◌, ◌/◌, Bool, true, false, ◌&&◌, Option, none, some,
  List, [], ◌∷◌, ◌++◌, ◌==◌, if◌then◌else◌, ℤ, pos, negsuc, set, has,
}
use kernelreloaded.Common.Ints.{add_int, sub_int, le_int, lt_int}

-- `rom_entry_t`; `start` is what stands in memory from there on.
pub record RomEntry : Type 0 where
  pub filename : List ℕ
  pub start : Option (List ℕ)
  pub size : ℤ

-- `rom_stream_t`: a file of the host by its `FILE`, or an entry of `rom_files` and a position.
pub data Stream (F : Type 0) : Type 0 where
  host : F → Stream F
  rom : RomEntry → ℤ → Stream F

-- `rom_getFile`: the entries end with the first that has no start.
unfoldable pub rom_get_file : List RomEntry → List ℕ → Option RomEntry
rom_get_file [] name = none
rom_get_file (e ∷ es) name =
    let rest = rom_get_file es name in
    elim e.start [ none ↦ none | some bytes ↦ if same_text e.filename name then some e else rest ]

-- `whence`
pub data Whence : Type 0 where
  seek_set : Whence
  seek_cur : Whence
  seek_end : Whence
  other : Whence

abbrev pub minus_one : ℤ
minus_one = negsuc 0

abbrev pub minus_two : ℤ
minus_two = negsuc 1

-- What `memcpy` takes from `start + pos`.
unfoldable pub copied : List ℕ → ℤ → ℤ → List ℕ
copied bytes (pos p) (pos n) = take n (drop p bytes)
copied bytes (negsuc p) size = []
copied bytes (pos p) (negsuc n) = []

-- `rom_read` on a file of that size and start.
unfoldable pub read_bytes : ℤ → Option (List ℕ) → ℤ → ℤ → ℤ × List ℕ × ℤ
unfolding copied
read_bytes file_size none p size =
    if le_int file_size p
    then (minus_one, [], p)
    else if le_int size (pos 0)
    then (size, [], p)
    else (minus_two, [], p)
read_bytes file_size (some bytes) p size =
    if le_int file_size p
    then (minus_one, [], p)
    else if le_int size (pos 0)
    then (size, [], p)
    else if lt_int file_size (pos 0)
    then (minus_two, [], p)
    else let remaining = sub_int file_size p in
      let n = if lt_int remaining size then remaining else size in
      (n, copied bytes p n, add_int p n)

-- `rom_read` on an entry: what it returns, the bytes it writes to the buffer, and the position.
unfoldable pub read_entry : RomEntry → ℤ → ℤ → ℤ × List ℕ × ℤ
unfolding read_bytes
read_entry e p size = read_bytes e.size e.start p size

abbrev pub new_position : RomEntry → ℤ → ℤ → Whence → Option ℤ
new_position e p offset seek_set = some offset
new_position e p offset seek_cur = some (add_int p offset)
new_position e p offset seek_end = some (add_int e.size offset)
new_position e p offset other = none

-- `rom_seek` on an entry.
unfoldable pub seek_entry : RomEntry → ℤ → ℤ → Whence → ℤ × ℤ
seek_entry e p offset whence = elim (new_position e p offset whence) [
  | none ↦ (minus_one, p)
  | some q ↦
      if lt_int q (pos 0)
      then (minus_one, p)
      else if lt_int e.size q
      then (minus_one, p)
      else (pos 0, q)
]

-- The text "host:".
abbrev host_prefix : List ℕ
host_prefix = 0x68 ∷ 0x6f ∷ 0x73 ∷ 0x74 ∷ 0x3a ∷ []

-- `rom_max_filename`, with the byte for the NUL.
abbrev pub max_filename : ℕ
max_filename = 200

-- What the C library and the host offer.
pub record Host (F S : Type 0) : Type 0 where
  pub fopen : List ℕ → List ℕ → S → Option F × S
  pub fread : F → ℤ → S → (ℤ × List ℕ) × S
  pub fseek : F → ℤ → Whence → S → ℤ × S
  pub ftell : F → S → ℤ
  pub feof : F → S → ℤ
  pub fclose : F → S → ℤ × S

module _ {F S : Type 0} (lib : Host F S) where
  -- `rom_open`; `memory` tells whether `malloc` finds room for the stream.
  unfoldable pub rom_open : List RomEntry → Bool → List ℕ → List ℕ → S → Option (Stream F) × S
  unfolding rom_get_file
  rom_open files memory name mode s = elim (rom_get_file files name) [
    | some e ↦ (if memory then some (rom e (pos 0)) else none, s)
    | none ↦
        let (opened, s') = lib.fopen (take (max_filename - 1) (host_prefix ++ name)) mode s in
        elim opened [
          | none ↦ (none, s')
          | some f ↦ if memory then (some (host f), s') else (none, (lib.fclose f s').1)
        ]
  ]

  unfoldable pub rom_read : Stream F → ℤ → S → (ℤ × List ℕ) × Stream F × S
  unfolding read_entry
  rom_read (host f) size s = let (r, s') = lib.fread f size s in (r, host f, s')
  rom_read (rom e p) size s = let (r, bytes, q) = read_entry e p size in ((r, bytes), rom e q, s)

  unfoldable pub rom_seek : Stream F → ℤ → Whence → S → ℤ × Stream F × S
  unfolding seek_entry
  rom_seek (host f) offset whence s = let (r, s') = lib.fseek f offset whence s in (r, host f, s')
  rom_seek (rom e p) offset whence s = let (r, q) = seek_entry e p offset whence in (r, rom e q, s)

  unfoldable pub rom_tell : Stream F → S → ℤ
  rom_tell (host f) s = lib.ftell f s
  rom_tell (rom e p) s = p

  unfoldable pub rom_eof : Stream F → S → ℤ
  rom_eof (host f) s = lib.feof f s
  rom_eof (rom e p) s = if le_int e.size p then pos 1 else pos 0

  -- `rom_close`; the stream is freed.
  unfoldable pub rom_close : Stream F → S → ℤ × S
  rom_close (host f) s = lib.fclose f s
  rom_close (rom e p) s = (pos 0, s)
