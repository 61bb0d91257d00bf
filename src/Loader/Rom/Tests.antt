-- ===== src/Loader/Rom/Tests.antt =====
-- A file of three bytes, read through a stream.
use kernelreloaded.Common.{ℕ, ◌≤◌, ◌≡◌, refl, true, none, some, List, [], ◌∷◌, arith, pos, negsuc}
use kernelreloaded.Loader.Rom.{
  RomEntry, Stream, rom, seek_set, seek_end, Host, rom_open, rom_get_file,
}
use kernelreloaded.Loader.Rom.Entry.{Holds, file_read, file_seek}
use kernelreloaded.Loader.Rom.Files.{Op, read, seek, tell, eof, file_run, run, rom_open-file_run}

-- A host that has no files.
abbrev empty_host : Host ℕ ℕ
empty_host = record {
  fopen = λ name mode s. (none, s);
  fread = λ f size s. ((pos 0, []), s);
  fseek = λ f offset whence s. (negsuc 0, s);
  ftell = λ f s. pos 0;
  feof = λ f s. pos 1;
  fclose = λ f s. (pos 0, s);
}

abbrev entry : RomEntry
entry = record { filename = 0x61 ∷ []; start = some (7 ∷ 8 ∷ 9 ∷ []); size = pos 3 }

abbrev load : List Op
load = seek (pos 0) seek_end ∷ tell ∷ seek (pos 0) seek_set ∷ read (pos 5) ∷ eof ∷ read (pos 5) ∷ []

-- The size is asked for, and the whole file read.
file_run_whole :
    (file_run (7 ∷ 8 ∷ 9 ∷ []) 0 load).0
    ≡ (pos 0, [])
      ∷ (pos 3, [])
      ∷ (pos 0, [])
      ∷ (pos 3, 7 ∷ 8 ∷ 9 ∷ [])
      ∷ (pos 1, [])
      ∷ (negsuc 0, [])
      ∷ []
unfolding file_run file_read file_seek
file_run_whole = refl

entry-Holds : Holds entry (7 ∷ 8 ∷ 9 ∷ [])
entry-Holds = record { start = refl; size = refl; small = omega arith }

found : rom_get_file (entry ∷ []) (0x61 ∷ []) ≡ some entry
unfolding rom_get_file
found = refl

rom_open-file_run_example :
    (st : Stream ℕ) × (p : ℕ) × (rom_open empty_host (entry ∷ []) true (0x61 ∷ []) (0x72 ∷ []) 0
      ≡ (some st, 0))
    × (run empty_host st 0 load ≡ ((file_run (7 ∷ 8 ∷ 9 ∷ []) 0 load).0, rom entry (pos p), 0))
    × (p ≤ 3)
rom_open-file_run_example =
    rom_open-file_run empty_host (entry ∷ []) (0x61 ∷ []) (0x72 ∷ []) entry (7 ∷ 8 ∷ 9 ∷ []) 0 load
      found entry-Holds (omega arith)
