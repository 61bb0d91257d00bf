-- ===== src/Kernel/Mmu/Translate.antt =====
-- How the TLB of the processor translates an address, and that the first entry that matches decides
-- where the entries lie apart.
use kernelreloaded.Common.{
  inr, inl, Bool-cases, sym, subst, &&_true, ℕ, zero, suc, ◌+◌, ◌-◌, ◌*◌, ◌/◌, ◌%◌, ◌^◌, ◌≡◌, refl,
  ap, Bool, true, ◌&&◌, ◌||◌, Option, none, some, List, [], ◌∷◌, arith, ltb, leb, ◌==◌,
  if◌then◌else◌, get_elem?,
}
use kernelreloaded.Kernel.Mmu.Tlb.{Entry}

-- The two pages of an entry: their size together, where they start, and whether an address is in
-- them.
abbrev pub span : Entry → ℕ
span e = e.page_mask + 0x2000

abbrev pub base : Entry → ℕ
base e = e.hi - e.hi % span e

abbrev pub hit : Entry → ℕ → Bool
hit e va = leb (base e) va && ltb va (base e + span e)

pub record Page : Type 0 where
  pub addr : ℕ
  pub cache : ℕ
  pub writable : Bool

-- The page that one half of an entry names, at an offset in it; `none` where it is not valid.
abbrev pub page_of : ℕ → ℕ → Option Page
page_of lo offset =
    if lo / 2 % 2 == 1
    then some (record {
      addr = lo / 2 ^ 6 % 2 ^ 20 * 2 ^ 12 + offset;
      cache = lo / 2 ^ 3 % 8;
      writable = lo / 2 ^ 2 % 2 == 1;
    })
    else none

abbrev pub frame : Entry → ℕ → Option Page
frame e va =
    let half = span e / 2 in
    if ltb va (base e + half)
    then page_of e.lo0 (va - base e)
    else page_of e.lo1 (va - base e - half)

abbrev pub translate : List Entry → ℕ → Option Page
translate [] va = none
translate (e ∷ es) va = if hit e va then frame e va else translate es va

abbrev pub apart : Entry → Entry → Bool
apart e f = leb (base e + span e) (base f) || leb (base f + span f) (base e)

abbrev pub all_apart : Entry → List Entry → Bool
all_apart e [] = true
all_apart e (f ∷ fs) = apart e f && all_apart e fs

abbrev pub disjoint : List Entry → Bool
disjoint [] = true
disjoint (e ∷ es) = all_apart e es && disjoint es

apart_ranges :
    (b s c t va : ℕ)
    → (leb (b + s) c || leb (c + t) b) ≡ true
    → (leb b va && ltb va (b + s)) ≡ true
    → (leb c va && ltb va (c + t)) ≡ true
    → ⊥
apart_ranges b s c t va a h k = ground arith

apart_hit : (e f : Entry) (va : ℕ) → apart e f ≡ true → hit e va ≡ true → hit f va ≡ true → ⊥
apart_hit e f va a h k = apart_ranges (base e) (span e) (base f) (span f) va a h k

apart_elem :
    (e f : Entry) (es : List Entry) (i va : ℕ)
    → all_apart e es ≡ true
    → get_elem? es i ≡ some f
    → hit e va ≡ true
    → hit f va ≡ true
    → ⊥
apart_elem e f [] i va a g h k = cc
apart_elem e f (x ∷ es) zero va a g h k =
    let (p, q) = &&_true (apart e x) (all_apart e es) a in
    let x_f : x ≡ f = cc in apart_hit e f va (subst (λ y. apart e y ≡ true) x_f p) h k
apart_elem e f (x ∷ es) (suc i) va a g h k =
    apart_elem e f es i va (&&_true (apart e x) (all_apart e es) a).1 g h k

-- At most one entry of entries that lie apart matches an address.
pub disjoint_unique :
    (es : List Entry) (i j : ℕ) (e f : Entry) (va : ℕ)
    → disjoint es ≡ true
    → get_elem? es i ≡ some e
    → get_elem? es j ≡ some f
    → hit e va ≡ true
    → hit f va ≡ true
    → i ≡ j
disjoint_unique [] i j e f va d g k h h' = cc
disjoint_unique (x ∷ es) zero zero e f va d g k h h' = refl
disjoint_unique (x ∷ es) zero (suc j) e f va d g k h h' =
    let x_e : x ≡ e = cc in
    absurd (
      apart_elem x f es j va (&&_true (all_apart x es) (disjoint es) d).0 k
        (subst (λ y. hit y va ≡ true) (sym x_e) h) h')
disjoint_unique (x ∷ es) (suc i) zero e f va d g k h h' =
    let x_f : x ≡ f = cc in
    absurd (
      apart_elem x e es i va (&&_true (all_apart x es) (disjoint es) d).0 g
        (subst (λ y. hit y va ≡ true) (sym x_f) h') h)
disjoint_unique (x ∷ es) (suc i) (suc j) e f va d g k h h' =
    ap suc (disjoint_unique es i j e f va (&&_true (all_apart x es) (disjoint es) d).1 g k h h')

-- Among entries that lie apart, the one that matches translates the address.
pub translate-hit :
    (es : List Entry) (i : ℕ) (e : Entry) (va : ℕ)
    → disjoint es ≡ true
    → get_elem? es i ≡ some e
    → hit e va ≡ true
    → translate es va ≡ frame e va
translate-hit [] i e va d g h = cc
translate-hit (x ∷ es) zero e va d g h =
    let x_e : x ≡ e = cc in rw (subst (λ y. hit y va ≡ true) (sym x_e) h) (ap (λ y. frame y va) x_e)
translate-hit (x ∷ es) (suc i) e va d g h =
    let (a, d') = &&_true (all_apart x es) (disjoint es) d in
    elim (Bool-cases (hit x va)) [
      | inl k ↦ absurd (apart_elem x e es i va a g k h)
      | inr k ↦ rw k (translate-hit es i e va d' g h)
    ]
