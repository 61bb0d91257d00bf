-- ===== src/Loader/Crc/Table.antt =====
-- The tables that `build_crc_table` leaves, and the checksum by them.
use kernelreloaded.Common.{
  ap, ◌^◌, ◌/◌, sym, refl, if_rule, ℕ, zero, suc, ◌+◌, ◌<◌, ◌≡◌, subst, ◌∙◌, inl, inr, true, some,
  List, [], ◌∷◌, arith, ◌==◌, eq_of_==, ==_ne, Bool-cases, length, get_elem?, set, length-set,
  get_elem?-set_self, get_elem?-set_ne,
}
use kernelreloaded.Common.Words.{xor, xor_lt_8, xor_lt_32}
use kernelreloaded.Loader.Crc.{
  gen_bits, gen_loop, gen_crc, CrcTables, table_entry, table_loop, build_crc_table, crc_byte,
  crc_loop, tables_for, calc_crc,
}
use kernelreloaded.Loader.Crc.Bytes.{Word, reversed, table_entry_lem, byte-gen_bits}

abbrev pub AllBytes : List ℕ → Type 0
AllBytes [] = Unit {0}
AllBytes (d ∷ ds) = (d < 256) × AllBytes ds

abbrev pub FilledAt : CrcTables → ℕ → Type 0
FilledAt t j =
    (get_elem? t.crc_table j ≡ some (table_entry j).0)
    × (get_elem? t.crc_reverse j ≡ some (table_entry j).1)

-- Both arrays have 256 entries, and those before `i` are filled.
pub record Filled (i : ℕ) (t : CrcTables) : Type 0 where
  pub size : length t.crc_table ≡ 256
  pub size_reverse : length t.crc_reverse ≡ 256
  pub entries : (j : ℕ) → j < i → FilledAt t j

-- The tables are as the program starts, or filled.
pub record Sound (t : CrcTables) : Type 0 where
  pub size : length t.crc_table ≡ 256
  pub size_reverse : length t.crc_reverse ≡ 256
  pub built : t.ready ≡ true → Filled 256 t

set_at :
    (xs : List ℕ) (i j : ℕ) (v : ℕ → ℕ)
    → i < length xs
    → (j < i → get_elem? xs j ≡ some (v j))
    → j < suc i
    → get_elem? (set xs i (v i)) j ≡ some (v j)
set_at xs i j v h old lt = elim (Bool-cases (i == j)) [
  | inl e ↦ rw (eq_of_== i j e) (get_elem?-set_self xs j (v j) (ground arith))
  | inr n ↦ get_elem?-set_ne xs i j (v i) (==_ne i j n) ∙ old (ground arith)
]

put-Filled :
    (i : ℕ) (t : CrcTables)
    → i < 256
    → Filled i t
    → Filled (suc i) (record t {
      crc_table = set t.crc_table i (table_entry i).0;
      crc_reverse = set t.crc_reverse i (table_entry i).1;
    })
put-Filled i t h f = record {
  size = length-set t.crc_table i _ ∙ f.size;
  size_reverse = length-set t.crc_reverse i _ ∙ f.size_reverse;
  entries = λ j lt. (
    set_at t.crc_table i j (λ k. (table_entry k).0) (omega (arith, f.size)) (λ l. (f.entries j l).0)
        lt,
    set_at t.crc_reverse i j (λ k. (table_entry k).1) (omega (arith, f.size_reverse))
        (λ l. (f.entries j l).1) lt,
  );
}

table_loop-Filled :
    (k i : ℕ) (t : CrcTables) → k + i ≡ 256 → Filled i t → Filled 256 (table_loop k i t)
unfolding table_loop
table_loop-Filled zero i t e f = subst (λ n. Filled n t) (omega arith) f
table_loop-Filled (suc k) i t e f =
    table_loop-Filled k (suc i) _ (omega arith) (put-Filled i t (omega arith) f)

empty-Filled : (t : CrcTables) → Sound t → Filled 0 t
empty-Filled t s = record {
  size = s.size;
  size_reverse = s.size_reverse;
  entries = λ j lt. absurd (omega arith);
}

ready-Filled : (t : CrcTables) → Filled 256 t → Filled 256 (record t { ready = true })
ready-Filled t f = record { size = f.size; size_reverse = f.size_reverse; entries = f.entries }

tables_for-Filled : (t : CrcTables) → Sound t → Filled 256 (tables_for t)
unfolding tables_for build_crc_table
tables_for-Filled t s =
    if_rule (Filled 256) t.ready t (build_crc_table t) s.built
      (λ e. ready-Filled (table_loop 256 0 t) (table_loop-Filled 256 0 t refl (empty-Filled t s)))

pub Filled-Sound : (t : CrcTables) → Filled 256 t → Sound t
Filled-Sound t f = record { size = f.size; size_reverse = f.size_reverse; built = λ e. f }

crc_byte-gen_bits :
    (t : CrcTables) (d c : ℕ)
    → Filled 256 t
    → Word c
    → d < 256
    → crc_byte t d c ≡ some (gen_bits 8 0 d c)
unfolding crc_byte
crc_byte-gen_bits t d c f hc hd =
    let i = xor 8 (c / 2 ^ 24) (reversed d) in
    let hi : i < 256 = omega (arith, xor_lt_8 (c / 2 ^ 24) (reversed d)) in
    rw ((f.entries d hd).1, table_entry_lem d hd, (f.entries i hi).0, table_entry_lem i hi)
      (ap some (byte-gen_bits c d hc))

pub gen_bits-Word : (c d : ℕ) → Word c → Word (gen_bits 8 0 d c)
gen_bits-Word c d hc = rw (sym (byte-gen_bits c d hc)) (xor_lt_32 _ _)

crc_loop-gen_loop :
    (t : CrcTables) (ds : List ℕ) (c : ℕ)
    → Filled 256 t
    → Word c
    → AllBytes ds
    → crc_loop t ds c ≡ some (gen_loop ds c)
unfolding crc_loop gen_loop
crc_loop-gen_loop t [] c f hc hs = refl
crc_loop-gen_loop t (d ∷ ds) c f hc (hd, hs) =
    rw (crc_byte-gen_bits t d c f hc hd)
      (crc_loop-gen_loop t ds (gen_bits 8 0 d c) f (gen_bits-Word c d hc) hs)

-- The checksum that the loader computes with its tables, whether they are built by this call or by
-- an earlier one, is the one that crc32gen computes bit by bit. The code reads no array out of its
-- bounds on the way, and leaves its tables fit for the next call.
pub calc_crc-gen_crc :
    (t : CrcTables) (bytes : List ℕ)
    → Sound t
    → AllBytes bytes
    → (t' : CrcTables) × (calc_crc t bytes ≡ some (gen_crc bytes, t')) × Sound t'
unfolding calc_crc gen_crc
calc_crc-gen_crc t bytes s hs =
    let f = tables_for-Filled t s in
    (
      tables_for t,
      rw (crc_loop-gen_loop (tables_for t) bytes 0 f (omega arith) hs) refl,
      Filled-Sound (tables_for t) f,
    )
