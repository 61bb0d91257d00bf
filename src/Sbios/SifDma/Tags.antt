-- ===== src/Sbios/SifDma/Tags.antt =====
-- What one transfer writes: how many tags, which ones, and that the payload and the second tag
-- together carry all the data.
use kernelreloaded.Common.{
  sym, refl, lt-length_of_some, length-set, true, get_elem?-set_self, some, false, zero, ap, ◌∷◌,
  suc, ◌++◌, length, [], ◌/◌, ◌∙◌, get_elem?-set_ne, set, List, Bool-cases, ℕ, ◌+◌, ◌-◌, ◌*◌, ◌%◌,
  ◌^◌, ◌≤◌, ◌<◌, ◌≡◌, ◌⊎◌, inl, inr, not, ◌||◌, arith, leb, if◌then◌else◌, get_elem?,
}
use mathlib.Core.List.{append-nil}
use kernelreloaded.Sbios.SifDma.Place.{
  iop_tag_addr, iop_addr, qwc_of, dma_transfer, next_tag, copy_payload, put_iop,
}
use kernelreloaded.Sbios.SifDma.State.{
  Dma, EeTag, IopTag, Memory, Transfer, TagId, ref, attr_dmatag, attr_int_i, u32, phys, id_qwc_irq,
  qwc_payload_first_pkt,
}
use kernelreloaded.Sbios.SifDma.Ring.{advance, next_tag_lem, steps}

-- The tags that the counting loop of `SifSetDma` reserves for a transfer.
abbrev pub reserved : Transfer → ℕ
reserved t = if attr_dmatag t || leb t.size (qwc_payload_first_pkt * 16) then 1 else 2

-- Rounding the size up to quadwords does not overflow.
abbrev pub Fits : Transfer → Type 0
Fits t = t.size + 15 < u32

-- The two tests agree: the data are split exactly when two tags were reserved.
split_agrees :
    (t : Transfer) → Fits t → leb 8 (qwc_of t.size) ≡ not (leb t.size (qwc_payload_first_pkt * 16))
split_agrees t fits = ground arith

-- A transfer advances the ring by the tags that were reserved for it.
pub transfer-advance :
    (m : Memory) (t : Transfer) (id : TagId) (d : Dma)
    → Fits t
    → ((dma_transfer m t id d).dmatag_index, (dma_transfer m t id d).dma_count)
      ≡ advance (reserved t) (d.dmatag_index, d.dma_count)
unfolding dma_transfer
transfer-advance m t id d fits = ground (arith, split_agrees t fits)

-- The tag at k is out of reach of n steps from index i: it is the link at the end of the array, or
-- lies further along the ring, or is the tag at i itself.
abbrev pub Outside : ℕ → ℕ → ℕ → Type 0
Outside i n k = (31 ≤ k) ⊎ ((k < 31) × (n < steps i k))

Outside-ne : (i n k : ℕ) → i < 31 → Outside i n k → 1 ≤ n → ((i + 1) % 31 ≡ k → ⊥)
Outside-ne i n k hi (inl far) h e = omega arith
Outside-ne i n k hi (inr (small, far)) h e = omega arith

Outside-ne2 : (i n k : ℕ) → i < 31 → Outside i n k → 2 ≤ n → (((i + 1) % 31 + 1) % 31 ≡ k → ⊥)
Outside-ne2 i n k hi (inl far) h e = omega arith
Outside-ne2 i n k hi (inr (small, far)) h e = omega arith

pub Outside-step : (i a n k : ℕ) → i < 31 → a ≤ n → Outside i n k → Outside ((i + a) % 31) (n - a) k
Outside-step i a n k hi h (inl far) = inl far
Outside-step i a n k hi h (inr (small, far)) = inr (small, omega arith)

module _ (ts : List EeTag) (i c n k : ℕ) (hi : i < 31) (hc : c < 2 ^ 16) (out : Outside i n k) where
  first_ne : 1 ≤ n → ((next_tag (i, c)).0 ≡ k → ⊥)
  first_ne h = rw (next_tag_lem i c hi hc) (Outside-ne i n k hi out h)

  second_ne : 2 ≤ n → ((next_tag (next_tag (i, c))).0 ≡ k → ⊥)
  second_ne h =
      rw
        (
          next_tag_lem i c hi hc,
          next_tag_lem ((i + 1) % 31) ((c + (i + 1) / 31) % 2 ^ 16) (omega arith) (omega arith),
        )
        (Outside-ne2 i n k hi out h)

  one_write : (v : EeTag) → 1 ≤ n → get_elem? (set ts (next_tag (i, c)).0 v) k ≡ get_elem? ts k
  one_write v h = get_elem?-set_ne ts (next_tag (i, c)).0 k v (first_ne h)

  two_writes :
      (v w : EeTag)
      → 2 ≤ n
      → get_elem? (set (set ts (next_tag (i, c)).0 v) (next_tag (next_tag (i, c))).0 w) k
        ≡ get_elem? ts k
  two_writes v w h =
      get_elem?-set_ne (set ts (next_tag (i, c)).0 v) (next_tag (next_tag (i, c))).0 k w
        (second_ne h)
      ∙ one_write v (omega arith)

-- A transfer leaves every tag outside its reserved stretch.
pub transfer-Outside :
    (m : Memory) (t : Transfer) (id : TagId) (d : Dma) (k : ℕ)
    → Fits t
    → d.dmatag_index < 31
    → d.dma_count < 2 ^ 16
    → Outside d.dmatag_index (reserved t) k
    → get_elem? (dma_transfer m t id d).ee_tags k ≡ get_elem? d.ee_tags k
unfolding dma_transfer
transfer-Outside m t id d k fits hi hc out = elim (Bool-cases (attr_dmatag t)) [
  | inl plain ↦
      rw plain
        (one_write d.ee_tags d.dmatag_index d.dma_count 1 k hi hc (rw plain at out) _ (omega arith))
  | inr data_ ↦ elim (Bool-cases (leb 8 (qwc_of t.size))) [
    | inl big ↦
        let two : reserved t ≡ 2 = ground (arith, split_agrees t fits) in
        rw (data_, big)
          (two_writes d.ee_tags d.dmatag_index d.dma_count (reserved t) k hi hc out _ _
            (omega arith))
    | inr small ↦
        let one : reserved t ≡ 1 = ground (arith, split_agrees t fits) in
        rw (data_, small)
          (one_write d.ee_tags d.dmatag_index d.dma_count (reserved t) k hi hc out _ (omega arith))
  ]
]

-- What the hardware is left alone with: a transfer touches neither registers nor interrupts.
pub transfer-registers :
    (m : Memory) (t : Transfer) (id : TagId) (d : Dma)
    → ((dma_transfer m t id d).sif1_chcr ≡ d.sif1_chcr)
      × ((dma_transfer m t id d).sif1_tadr ≡ d.sif1_tadr)
      × ((dma_transfer m t id d).sif1_qwc ≡ d.sif1_qwc)
unfolding dma_transfer
transfer-registers m t id d = ground arith

-- The n quadwords from an address on.
abbrev pub quads : Memory → ℕ → ℕ → List ℕ
quads m a zero = []
quads m a (suc n) = m.quad a ∷ quads m (a + 16) n

abbrev pub take : ℕ → List ℕ → List ℕ
take zero xs = []
take (suc n) [] = []
take (suc n) (x ∷ xs) = x ∷ take n xs

take-copy_payload :
    (m : Memory) (a n : ℕ) (ds : List ℕ)
    → n ≤ length ds
    → take n (copy_payload m a n ds) ≡ quads m a n
take-copy_payload m a zero ds h = refl
take-copy_payload m a (suc n) [] h = absurd (omega arith)
take-copy_payload m a (suc n) (d ∷ ds) h =
    ap (λ xs. m.quad a ∷ xs) (take-copy_payload m (a + 16) n ds (omega arith))

quads-append : (m : Memory) (a k n : ℕ) → quads m a k ++ quads m (a + 16 * k) n ≡ quads m a (k + n)
quads-append m a zero n =
    let e : a + 16 * 0 ≡ a = omega arith in let f : 0 + n ≡ n = omega arith in rw (e, f)
quads-append m a (suc k) n =
    let e : a + 16 * suc k ≡ a + 16 + 16 * k = omega arith in
    let f : suc k + n ≡ suc (k + n) = omega arith in
    rw (e, f) (ap (λ xs. m.quad a ∷ xs) (quads-append m (a + 16) k n))

-- The outcome of a transfer with data: the IOP tag's header, and quadwords that are all of the
-- source's, seven of them at most in the IOP tag and the rest under a second tag. The first tag of
-- the EE counts the header and the quadwords behind it, and the last one has the transfer's id.
pub record Carries (m : Memory) (t : Transfer) (id : TagId) (i j : ℕ) (d : Dma) : Type 0 where
  pub head : IopTag
  pub at : get_elem? d.iop_tags i ≡ some head
  pub addr : head.addr ≡ iop_addr t
  pub size : head.size ≡ qwc_of t.size * 4 % u32
  pub inside : ℕ
  pub behind : ℕ
  pub all : inside + behind ≡ qwc_of t.size
  pub few : inside ≤ 7
  pub carried :
      take inside head.payload ++ quads m (phys (t.src + 112)) behind
      ≡ quads m (phys t.src) (qwc_of t.size)
  pub tags :
      ((behind ≡ 0)
        × (get_elem? d.ee_tags i
            ≡ some (record {
              id_qwc = id_qwc_irq id (inside + 1) (attr_int_i t);
              addr = iop_tag_addr m i;
            })))
      ⊎ ((get_elem? d.ee_tags i
            ≡ some (record { id_qwc = id_qwc_irq ref (inside + 1) false; addr = iop_tag_addr m i }))
          × (get_elem? d.ee_tags j
              ≡ some (record {
                id_qwc = id_qwc_irq id behind (attr_int_i t);
                addr = phys (t.src + 112);
              })))

module _ (m : Memory) (t : Transfer) (id : TagId) (d : Dma) (old : IopTag)
    (data_ : attr_dmatag t ≡ false) (seven : length old.payload ≡ 7)
    (got : get_elem? d.iop_tags (next_tag (d.dmatag_index, d.dma_count)).0 ≡ some old) where
  abbrev i : ℕ
  i = (next_tag (d.dmatag_index, d.dma_count)).0

  abbrev j : ℕ
  j = (next_tag (next_tag (d.dmatag_index, d.dma_count))).0

  apart : i ≡ j → ⊥
  unfolding next_tag
  apart e = ground (arith, e)

  abbrev written : ℕ → IopTag
  written n = record {
    addr = iop_addr t;
    size = qwc_of t.size * 4 % u32;
    payload = copy_payload m (phys t.src) n old.payload;
  }

  put_lem : (n : ℕ) → get_elem? (put_iop m t i (qwc_of t.size) n d.iop_tags) i ≡ some (written n)
  put_lem n =
      rw (got, put_iop)
        (get_elem?-set_self d.iop_tags i (written n) (lt-length_of_some d.iop_tags i old got))

  whole-Carries :
      leb 8 (qwc_of t.size) ≡ false
      → i < length d.ee_tags
      → Carries m t id i j (dma_transfer m t id d)
  unfolding dma_transfer
  whole-Carries small room =
      rw (data_, small)
        (record {
          head = written (qwc_of t.size);
          at = put_lem (qwc_of t.size);
          addr = refl;
          size = refl;
          inside = qwc_of t.size;
          behind = 0;
          all = omega arith;
          few = ground arith;
          carried =
              simp append-nil
                (take-copy_payload m (phys t.src) (qwc_of t.size) old.payload (ground arith));
          tags = inl (refl, get_elem?-set_self d.ee_tags i _ room);
        })

  split-Carries :
      leb 8 (qwc_of t.size) ≡ true
      → i < length d.ee_tags
      → j < length d.ee_tags
      → phys t.src + 112 < 2 ^ 29
      → Carries m t id i j (dma_transfer m t id d)
  unfolding dma_transfer
  split-Carries big room' room near =
      let e : phys (t.src + 112) ≡ phys t.src + 16 * 7 = omega arith in
      let f : 7 + (qwc_of t.size - 7) ≡ qwc_of t.size = ground arith in
      rw (data_, big)
        (record {
          head = written 7;
          at = put_lem 7;
          addr = refl;
          size = refl;
          inside = 7;
          behind = qwc_of t.size - 7;
          all = f;
          few = omega arith;
          carried =
              rw (e, take-copy_payload m (phys t.src) 7 old.payload (omega arith))
                (quads-append m (phys t.src) 7 (qwc_of t.size - 7) ∙ ap (quads m (phys t.src)) f);
          tags = inr (
            get_elem?-set_ne _ j i _ (λ e. apart (sym e)) ∙ get_elem?-set_self d.ee_tags i _ room',
            get_elem?-set_self _ j _ (omega (arith, length-set d.ee_tags i _)),
          );
        })

  -- A transfer with data puts the source's quadwords into the ring, all of them and in order, under
  -- tags whose counts are the quadwords that they are to fetch.
  pub transfer-Carries :
      i < length d.ee_tags
      → j < length d.ee_tags
      → phys t.src + 112 < 2 ^ 29
      → Carries m t id i j (dma_transfer m t id d)
  transfer-Carries room' room near = elim (Bool-cases (leb 8 (qwc_of t.size))) [
    | inl big ↦ split-Carries big room' room near
    | inr small ↦ whole-Carries small room'
  ]
