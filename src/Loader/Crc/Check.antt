-- ===== src/Loader/Crc/Check.antt =====
-- `crc32check` of loader/crc32check.c, on the sections that crc32gen.c has filled in.
use kernelreloaded.Common.{
  ltb, subst, ap, ◌≤◌, ◌≢◌, ◌<◌, [], ℤ, if◌then◌else◌, ◌++◌, if_rule, arith, Option, ℕ, zero, suc,
  ◌+◌, ◌^◌, ◌<◌, ◌≡◌, refl, sym, ◌∙◌, ◌⊎◌, inl, inr, true, false, some, List, [], ◌∷◌, ◌==◌,
  eq_of_==, ==_ne, Bool-cases, pos, negsuc,
}
use kernelreloaded.Loader.Crc.{gen_crc, CrcTables, calc_crc}
use kernelreloaded.Loader.Crc.Table.{AllBytes, Sound, calc_crc-gen_crc}
use kernelreloaded.Loader.Crc.Change.{gen_crc_change}
use kernelreloaded.Loader.Crc.Sections.{
  CrcSection, SectionHeader, ElfFile, find_segment, segment_bytes, fix_section, fix_segments,
  memory_bytes, section_length, crc32check,
}

abbrev pub IsMemory : (ℕ → ℕ) → Type 0
IsMemory mem = (a : ℕ) → mem a < 256

-- The bytes of a section, as `crc32check` reads them.
abbrev pub section_bytes : (ℕ → ℕ) → CrcSection → List ℕ
section_bytes mem e = memory_bytes mem e.start (section_length e)

-- Each section has the checksum that its entry states.
abbrev pub Intact : (ℕ → ℕ) → List CrcSection → Type 0
Intact mem [] = Unit {0}
Intact mem (e ∷ es) = (e.crc ≡ gen_crc (section_bytes mem e)) × Intact mem es

memory_bytes-AllBytes : (mem : ℕ → ℕ) (a n : ℕ) → IsMemory mem → AllBytes (memory_bytes mem a n)
unfolding memory_bytes
memory_bytes-AllBytes mem a zero h = tt
memory_bytes-AllBytes mem a (suc n) h = (h a, memory_bytes-AllBytes mem (a + 1) n h)

-- What `crc32check` returns, and whether the sections are as they should be.
pub record Checked (mem : ℕ → ℕ) (t : CrcTables) (es : List CrcSection) : Type 0 where
  pub after : CrcTables
  pub sound : Sound after
  pub verdict :
      ((crc32check mem t es ≡ some (pos 0, after)) × Intact mem es)
      ⊎ ((crc32check mem t es ≡ some (negsuc 0, after)) × (Intact mem es → ⊥))

goes_on :
    (mem : ℕ → ℕ) (t t' : CrcTables) (e : CrcSection) (es : List CrcSection) (v : ℕ)
    → calc_crc t (section_bytes mem e) ≡ some (v, t')
    → (e.crc == v) ≡ true
    → crc32check mem t (e ∷ es) ≡ crc32check mem t' es
unfolding crc32check
goes_on mem t t' e es v run b = rw run (ground (arith, b))

stops :
    (mem : ℕ → ℕ) (t t' : CrcTables) (e : CrcSection) (es : List CrcSection) (v : ℕ)
    → calc_crc t (section_bytes mem e) ≡ some (v, t')
    → (e.crc == v) ≡ false
    → crc32check mem t (e ∷ es) ≡ some (negsuc 0, t')
unfolding crc32check
stops mem t t' e es v run b = rw run (ground (arith, b))

first_bad :
    (mem : ℕ → ℕ) (t t' : CrcTables) (e : CrcSection) (es : List CrcSection) (v : ℕ)
    → calc_crc t (section_bytes mem e) ≡ some (v, t')
    → v ≡ gen_crc (section_bytes mem e)
    → Sound t'
    → (e.crc == v) ≡ false
    → Checked mem t (e ∷ es)
first_bad mem t t' e es v run val s b = record {
  after = t';
  sound = s;
  verdict = inr (stops mem t t' e es v run b, λ h. ==_ne e.crc v b (h.0 ∙ sym val));
}

first_good :
    (mem : ℕ → ℕ) (t t' : CrcTables) (e : CrcSection) (es : List CrcSection) (v : ℕ)
    → calc_crc t (section_bytes mem e) ≡ some (v, t')
    → v ≡ gen_crc (section_bytes mem e)
    → (e.crc == v) ≡ true
    → Checked mem t' es
    → Checked mem t (e ∷ es)
first_good mem t t' e es v run val b c = record {
  after = c.after;
  sound = c.sound;
  verdict = elim c.verdict [
    | inl (r, i) ↦ inl (goes_on mem t t' e es v run b ∙ r, (eq_of_== e.crc v b ∙ val, i))
    | inr (r, n) ↦ inr (goes_on mem t t' e es v run b ∙ r, λ h. n h.1)
  ];
}

-- `crc32check` returns 0 exactly when each section has the checksum that its entry states, as
-- crc32gen computes it, and -1 otherwise; it reads no array out of its bounds, and leaves its
-- tables fit for the next call.
pub crc32check-Checked :
    (mem : ℕ → ℕ) (t : CrcTables) (es : List CrcSection) → IsMemory mem → Sound t → Checked mem t es
unfolding crc32check
crc32check-Checked mem t [] m s = record { after = t; sound = s; verdict = inl (refl, tt) }
crc32check-Checked mem t (e ∷ es) m s =
    let (t', run, s') =
      calc_crc-gen_crc t (section_bytes mem e) s
        (memory_bytes-AllBytes mem e.start (section_length e) m) in
    let v = gen_crc (section_bytes mem e) in
    let rest = crc32check-Checked mem t' es m s' in
    elim (Bool-cases (e.crc == v)) [
      | inl b ↦ first_good mem t t' e es v run refl b rest
      | inr b ↦ first_bad mem t t' e es v run refl s' b
    ]

failed_not_passed :
    (r : Option (ℤ × CrcTables)) (t u : CrcTables)
    → r ≡ some (pos 0, t)
    → r ≡ some (negsuc 0, u)
    → ⊥
failed_not_passed r t u e f = cc

passed-Intact :
    (mem : ℕ → ℕ) (t t' : CrcTables) (es : List CrcSection)
    → IsMemory mem
    → Sound t
    → crc32check mem t es ≡ some (pos 0, t')
    → Intact mem es
passed-Intact mem t t' es m s run =
    let c = crc32check-Checked mem t es m s in
    elim c.verdict [
      | inl (q, i) ↦ i
      | inr (q, n) ↦ absurd (failed_not_passed (crc32check mem t es) t' c.after run q)
    ]

-- The file's segment of that name is what stands in memory at the section's addresses.
pub record Loaded (f : ElfFile) (mem : ℕ → ℕ) (e : CrcSection) : Type 0 where
  pub header : SectionHeader
  pub found : find_segment f e.section ≡ some header
  pub some_bytes : 0 < header.sh_size
  pub int_size : header.sh_size < 2 ^ 31
  pub loaded : segment_bytes f header ≡ some (section_bytes mem e)

abbrev pub AllLoaded : ElfFile → (ℕ → ℕ) → List CrcSection → Type 0
AllLoaded f mem [] = Unit {0}
AllLoaded f mem (e ∷ es) = Loaded f mem e × AllLoaded f mem es

fix_section_lem :
    (f : ElfFile) (mem : ℕ → ℕ) (e : CrcSection) (l : Loaded f mem e)
    → fix_section f e
      ≡ some (record e { crc = gen_crc (section_bytes mem e); fileoffset = l.header.sh_offset })
unfolding fix_section
fix_section_lem f mem e l =
    let lo : ltb 0 l.header.sh_size ≡ true = ground (arith, l.some_bytes) in
    let hi : ltb l.header.sh_size (2 ^ 31) ≡ true = ground (arith, l.int_size) in
    rw (fix_section, l.found, lo, hi, l.loaded) refl

fix_segments-Intact :
    (f : ElfFile) (mem : ℕ → ℕ) (es : List CrcSection)
    → AllLoaded f mem es
    → (es' : List CrcSection) × (fix_segments f es ≡ some es') × Intact mem es'
unfolding fix_segments
fix_segments-Intact f mem [] l = ([], refl, tt)
fix_segments-Intact f mem (e ∷ es) (l, ls) =
    let (es', run, i) = fix_segments-Intact f mem es ls in
    (
      record e { crc = gen_crc (section_bytes mem e); fileoffset = l.header.sh_offset } ∷ es',
      rw (fix_section_lem f mem e l, run) refl,
      (refl, i),
    )

-- Where each section of the entries is found in the file, whole, not empty and smaller than 2^31
-- bytes, with the bytes that it has in memory, crc32gen reads nothing behind the file, and with the
-- entries that it writes `crc32check` returns 0.
pub crc32check-fix_segments :
    (f : ElfFile) (mem : ℕ → ℕ) (t : CrcTables) (es : List CrcSection)
    → IsMemory mem
    → Sound t
    → AllLoaded f mem es
    → (es' : List CrcSection) × (t' : CrcTables) × (fix_segments f es ≡ some es')
      × (crc32check mem t es' ≡ some (pos 0, t'))
      × Sound t'
crc32check-fix_segments f mem t es m s l =
    let (es', run, good) = fix_segments-Intact f mem es l in
    let c = crc32check-Checked mem t es' m s in
    elim c.verdict [ inl (r, i) ↦ (es', c.after, run, r, c.sound) | inr (r, n) ↦ absurd (n good) ]

abbrev pub write : (ℕ → ℕ) → ℕ → ℕ → ℕ → ℕ
write mem a v x = if x == a then v else mem x

-- The address lies in one of the sections, as far as they are read.
abbrev pub Covered : ℕ → List CrcSection → Type 0
Covered a [] = ⊥
Covered a (e ∷ es) = ((e.start ≤ a) × (a < e.start + section_length e)) ⊎ Covered a es

write-elsewhere :
    (mem : ℕ → ℕ) (a v s n : ℕ) → a < s → memory_bytes (write mem a v) s n ≡ memory_bytes mem s n
unfolding memory_bytes
write-elsewhere mem a v s zero h = refl
write-elsewhere mem a v s (suc n) h =
    let ne : (s == a) ≡ false = ground arith in
    rw (ne, write-elsewhere mem a v (s + 1) n (omega arith)) refl

-- Where the address lies in the range, the bytes differ in that place only.
record Split (mem : ℕ → ℕ) (a v s n : ℕ) : Type 0 where
  front : List ℕ
  back : List ℕ
  before : memory_bytes mem s n ≡ front ++ (mem a ∷ back)
  after : memory_bytes (write mem a v) s n ≡ front ++ (v ∷ back)

write-Split : (mem : ℕ → ℕ) (a v s n : ℕ) → s ≤ a → a < s + n → Split mem a v s n
unfolding memory_bytes
write-Split mem a v s zero lo hi = absurd (omega arith)
write-Split mem a v s (suc n) lo hi = elim (Bool-cases (s == a)) [
  | inl e ↦ record {
    front = [];
    back = memory_bytes mem (s + 1) n;
    before = ap (λ x. mem x ∷ memory_bytes mem (s + 1) n) (eq_of_== s a e);
    after = rw (e, write-elsewhere mem a v (s + 1) n (ground arith)) refl;
  }
  | inr ne ↦
      let r = write-Split mem a v (s + 1) n (ground arith) (omega arith) in
      record {
        front = mem s ∷ r.front;
        back = r.back;
        before = ap (λ xs. mem s ∷ xs) r.before;
        after = rw (ne, r.after) refl;
      }
]

write-IsMemory : (mem : ℕ → ℕ) (a v : ℕ) → IsMemory mem → v < 256 → IsMemory (write mem a v)
write-IsMemory mem a v m hv x = if_rule (λ b. b < 256) (x == a) v (mem x) (λ e. hv) (λ e. m x)

section_change :
    (mem : ℕ → ℕ) (a v : ℕ) (e : CrcSection)
    → IsMemory mem
    → v < 256
    → e.start ≤ a
    → a < e.start + section_length e
    → gen_crc (section_bytes mem e) ≡ gen_crc (section_bytes (write mem a v) e)
    → mem a ≡ v
section_change mem a v e m hv lo hi same =
    let n = section_length e in
    let r = write-Split mem a v e.start n lo hi in
    gen_crc_change r.front r.back (mem a) v
      (subst AllBytes r.before (memory_bytes-AllBytes mem e.start n m))
      (subst AllBytes r.after
        (memory_bytes-AllBytes (write mem a v) e.start n (write-IsMemory mem a v m hv)))
      (ap gen_crc (sym r.before) ∙ same ∙ ap gen_crc r.after)

unchanged_byte :
    (mem : ℕ → ℕ) (a v : ℕ) (es : List CrcSection)
    → IsMemory mem
    → v < 256
    → Covered a es
    → Intact mem es
    → Intact (write mem a v) es
    → mem a ≡ v
unchanged_byte mem a v [] m hv c i j = absurd c
unchanged_byte mem a v (e ∷ es) m hv (inl (lo, hi)) (i, is) (j, js) =
    section_change mem a v e m hv lo hi (sym i ∙ j)
unchanged_byte mem a v (e ∷ es) m hv (inr c) (i, is) (j, js) =
    unchanged_byte mem a v es m hv c is js

-- When `crc32check` returns 0, and then one byte of memory in one of the sections takes another
-- value, it returns -1.
pub crc32check_change :
    (mem : ℕ → ℕ) (t t' : CrcTables) (es : List CrcSection) (a v : ℕ)
    → IsMemory mem
    → Sound t
    → crc32check mem t es ≡ some (pos 0, t')
    → Covered a es
    → v < 256
    → v ≢ mem a
    → (u : CrcTables) × (crc32check (write mem a v) t es ≡ some (negsuc 0, u))
crc32check_change mem t t' es a v m s run c hv ne =
    let i = passed-Intact mem t t' es m s run in
    let r = crc32check-Checked (write mem a v) t es (write-IsMemory mem a v m hv) s in
    elim r.verdict [
      | inl (q, j) ↦ absurd (ne (sym (unchanged_byte mem a v es m hv c i j)))
      | inr (q, n) ↦ (r.after, q)
    ]
