-- ===== src/Loader/Rom/Files.antt =====
-- A stream on a file of the loader, used through the functions of loader/rom.c.
use kernelreloaded.Common.{
  ℕ, ◌≤◌, ◌≡◌, refl, ap, true, some, List, [], ◌∷◌, arith, leb, if◌then◌else◌, ℤ, pos, length,
}
use kernelreloaded.Common.Ints.{IsInt, le_int}
use kernelreloaded.Loader.Rom.{
  RomEntry, Stream, rom, Whence, Host, rom_get_file, rom_open, rom_read, rom_seek, rom_tell,
  rom_eof,
}
use kernelreloaded.Loader.Rom.Entry.{
  Holds, file_read, file_seek, read_entry-file_read, seek_entry-file_seek, file_read_inside,
  file_seek_inside,
}

-- What a user of a stream does, and what is returned: the result, and the bytes in the buffer.
pub data Op : Type 0 where
  read : ℤ → Op
  seek : ℤ → Whence → Op
  tell : Op
  eof : Op

abbrev pub Reply : Type 0
Reply = ℤ × List ℕ

abbrev pub IntArgs : List Op → Type 0
IntArgs [] = Unit {0}
IntArgs (read size ∷ ops) = IsInt size × IntArgs ops
IntArgs (seek offset whence ∷ ops) = IsInt offset × IntArgs ops
IntArgs (tell ∷ ops) = IntArgs ops
IntArgs (eof ∷ ops) = IntArgs ops

-- The uses of a file of bytes, at a position in it.
unfoldable pub file_run : List ℕ → ℕ → List Op → List Reply × ℕ
file_run bytes p [] = ([], p)
file_run bytes p (read size ∷ ops) =
    let (r, chunk, q) = file_read bytes p size in
    let (rs, end) = file_run bytes q ops in ((r, chunk) ∷ rs, end)
file_run bytes p (seek offset whence ∷ ops) =
    let (r, q) = file_seek bytes p offset whence in
    let (rs, end) = file_run bytes q ops in ((r, []) ∷ rs, end)
file_run bytes p (tell ∷ ops) = let (rs, end) = file_run bytes p ops in ((pos p, []) ∷ rs, end)
file_run bytes p (eof ∷ ops) =
    let (rs, end) = file_run bytes p ops in
    ((if leb (length bytes) p then pos 1 else pos 0, []) ∷ rs, end)

module _ {F S : Type 0} (lib : Host F S) where
  -- The same uses of a stream.
  unfoldable pub run : Stream F → S → List Op → List Reply × Stream F × S
  run st s [] = ([], st, s)
  run st s (read size ∷ ops) =
      let (r, st', s') = rom_read lib st size s in
      let (rs, end, t) = run st' s' ops in (r ∷ rs, end, t)
  run st s (seek offset whence ∷ ops) =
      let (r, st', s') = rom_seek lib st offset whence s in
      let (rs, end, t) = run st' s' ops in ((r, []) ∷ rs, end, t)
  run st s (tell ∷ ops) = let (rs, end, t) = run st s ops in ((rom_tell lib st s, []) ∷ rs, end, t)
  run st s (eof ∷ ops) = let (rs, end, t) = run st s ops in ((rom_eof lib st s, []) ∷ rs, end, t)

  run-file_run :
      (ops : List Op) (e : RomEntry) (bytes : List ℕ) (p : ℕ) (s : S)
      → Holds e bytes
      → p ≤ length bytes
      → IntArgs ops
      → (run (rom e (pos p)) s ops
          ≡ ((file_run bytes p ops).0, rom e (pos (file_run bytes p ops).1), s))
        × ((file_run bytes p ops).1 ≤ length bytes)
  unfolding run file_run rom_read rom_seek rom_tell rom_eof
  run-file_run [] e bytes p s h le ints = (refl, le)
  run-file_run (read size ∷ ops) e bytes p s h le (i, is) =
      let q = (file_read bytes p size).2 in
      let ih = run-file_run ops e bytes q s h (file_read_inside bytes p size le) is in
      (rw (read_entry-file_read e bytes p size h i, ih.0) refl, ih.1)
  run-file_run (seek offset whence ∷ ops) e bytes p s h le (i, is) =
      let q = (file_seek bytes p offset whence).1 in
      let ih = run-file_run ops e bytes q s h (file_seek_inside bytes p offset whence le) is in
      (rw (seek_entry-file_seek e bytes p offset whence h le i, ih.0) refl, ih.1)
  run-file_run (tell ∷ ops) e bytes p s h le is =
      let ih = run-file_run ops e bytes p s h le is in (rw ih.0 refl, ih.1)
  run-file_run (eof ∷ ops) e bytes p s h le is =
      let ih = run-file_run ops e bytes p s h le is in
      let at_end = λ (z : ℤ). if le_int z (pos p) then pos 1 else pos 0 in
      (
        rw ih.0 (
            ap
              (λ (z : ℤ). (
                (at_end z, []) ∷ (file_run bytes p ops).0,
                rom e (pos (file_run bytes p ops).1),
                s,
              ))
              h.size),
        ih.1,
      )

  -- A file that is linked into the loader, opened by its name when there is memory for the stream,
  -- answers any sequence of reads, seeks and questions for the position and the end as a file of its
  -- bytes does from position 0 on, though the code adds positions with wrap around. The position
  -- stays in the file, and the host is not asked.
  pub rom_open-file_run :
      (files : List RomEntry) (name mode : List ℕ) (e : RomEntry) (bytes : List ℕ) (s : S)
      (ops : List Op)
      → rom_get_file files name ≡ some e
      → Holds e bytes
      → IntArgs ops
      → (st : Stream F) × (p : ℕ) × (rom_open lib files true name mode s ≡ (some st, s))
        × (run st s ops ≡ ((file_run bytes 0 ops).0, rom e (pos p), s))
        × (p ≤ length bytes)
  unfolding rom_open
  rom_open-file_run files name mode e bytes s ops found h is =
      let r = run-file_run ops e bytes 0 s h (omega arith) is in
      (rom e (pos 0), (file_run bytes 0 ops).1, rw (found, rom_open) refl, r.0, r.1)
