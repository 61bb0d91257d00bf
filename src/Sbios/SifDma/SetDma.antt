-- ===== src/Sbios/SifDma/SetDma.antt =====
-- `SifSetDma`: all or nothing, how far the ring moves, which tags are written, and that the
-- hardware is never overtaken.
use kernelreloaded.Common.{
  ◌&&◌, ◌≢◌, false, ap₂, true, refl, ◌==◌, leb, get_elem?-set_ne, some, Option-cases, Bool-cases, ℕ,
  ◌+◌, ◌-◌, ◌/◌, ◌%◌, ◌^◌, ◌≤◌, ◌<◌, ◌≡◌, ap, subst, ◌∙◌, inl, inr, List, [], ◌∷◌, arith,
  if◌then◌else◌, get_elem?,
}
use kernelreloaded.Sbios.SifDma.State.{Dma, EeTag, Memory, Transfer, TagId, ref, refe}
use kernelreloaded.Sbios.SifDma.Place.{dma_transfer, next_tag}
use kernelreloaded.Sbios.SifDma.Send.{
  suspend, start_dma, setup_tag, change_tag, count_tags, send_all, set_dma_list, set_dma,
  free_dma_tags, free_between, hw_index, transfer_id,
}
use kernelreloaded.Sbios.SifDma.Ring.{
  advance_lem, steps, steps-add, free_between_lem, transfer_id_fields,
}
use kernelreloaded.Sbios.SifDma.Tags.{
  reserved, Fits, Outside, Outside-step, transfer-advance, transfer-Outside, transfer-registers,
}

abbrev pub AllFit : List Transfer → Type 0
AllFit [] = Unit {0}
AllFit (t ∷ ts) = Fits t × AllFit ts

-- The software's place in the ring is a place in the ring.
pub record InRing (d : Dma) : Type 0 where
  pub index : d.dmatag_index < 31
  pub count : d.dma_count < 2 ^ 16

-- The ring has moved n places, and no tag outside them was written.
pub record Moved (n : ℕ) (d d' : Dma) : Type 0 where
  pub index : d'.dmatag_index ≡ (d.dmatag_index + n) % 31
  pub count : d'.dma_count ≡ (d.dma_count + (d.dmatag_index + n) / 31) % 2 ^ 16
  pub outside :
      (k : ℕ) → Outside d.dmatag_index n k → get_elem? d'.ee_tags k ≡ get_elem? d.ee_tags k
  pub chcr : d'.sif1_chcr ≡ d.sif1_chcr
  pub tadr : d'.sif1_tadr ≡ d.sif1_tadr

Moved-InRing : (n : ℕ) (d d' : Dma) → Moved n d d' → InRing d'
Moved-InRing n d d' v = record { index = omega (arith, v.index); count = omega (arith, v.count) }

Outside-less : (i a n k : ℕ) → a ≤ n → Outside i n k → Outside i a k
Outside-less i a n k h (inl far) = inl far
Outside-less i a n k h (inr (small, far)) = inr (small, omega arith)

Moved-trans : (a b : ℕ) (d e f : Dma) → InRing d → Moved a d e → Moved b e f → Moved (a + b) d f
Moved-trans a b d e f ring p q = record {
  index = omega (arith, p.index, q.index);
  count = omega (arith, p.index, p.count, q.index, q.count, ring.index);
  outside = λ k out.
      q.outside k (
        rw p.index (
          let n : a + b - a ≡ b = omega arith in
          subst (λ x. Outside ((d.dmatag_index + a) % 31) x k) n
            (Outside-step d.dmatag_index a (a + b) k ring.index (omega arith) out)))
      ∙ p.outside k (Outside-less d.dmatag_index a (a + b) k (omega arith) out);
  chcr = q.chcr ∙ p.chcr;
  tadr = q.tadr ∙ p.tadr;
}

transfer-Moved :
    (m : Memory) (t : Transfer) (id : TagId) (d : Dma)
    → Fits t
    → InRing d
    → Moved (reserved t) d (dma_transfer m t id d)
transfer-Moved m t id d fits ring =
    let e =
      transfer-advance m t id d fits
      ∙ advance_lem (reserved t) d.dmatag_index d.dma_count ring.index ring.count in
    record {
      index = ap (λ (p : ℕ × ℕ). p.0) e;
      count = ap (λ (p : ℕ × ℕ). p.1) e;
      outside = λ k out. transfer-Outside m t id d k fits ring.index ring.count out;
      chcr = (transfer-registers m t id d).0;
      tadr = (transfer-registers m t id d).1;
    }

send_all-Moved :
    (m : Memory) (t : Transfer) (ts : List Transfer) (d : Dma)
    → AllFit (t ∷ ts)
    → InRing d
    → Moved (count_tags (t ∷ ts)) d (send_all m t ts d)
unfolding send_all count_tags
send_all-Moved m t [] d fit ring =
    let e : reserved t ≡ 0 + reserved t = omega arith in
    subst (λ n. Moved n d (dma_transfer m t refe d)) e (transfer-Moved m t refe d fit.0 ring)
send_all-Moved m t (u ∷ ts) d fit ring =
    let first = transfer-Moved m t ref d fit.0 ring in
    let rest =
      send_all-Moved m u ts (dma_transfer m t ref d) fit.1
        (Moved-InRing (reserved t) d (dma_transfer m t ref d) first) in
    let e : reserved t + count_tags (u ∷ ts) ≡ count_tags (u ∷ ts) + reserved t = omega arith in
    subst (λ n. Moved n d (send_all m u ts (dma_transfer m t ref d))) e
      (Moved-trans (reserved t) (count_tags (u ∷ ts)) d (dma_transfer m t ref d) _ ring first rest)

-- Only the last tag of the previous transfer changes, and no index.
setup_tag_lem :
    (m : Memory) (free : ℕ) (d : Dma)
    → ((setup_tag m free d).dmatag_index ≡ d.dmatag_index)
      × ((setup_tag m free d).dma_count ≡ d.dma_count)
      × ((setup_tag m free d).sif1_chcr ≡ d.sif1_chcr)
unfolding setup_tag
setup_tag_lem m free d = ground arith

change_tag-outside :
    (i k : ℕ) (f : EeTag → EeTag) (ts : List EeTag)
    → (i ≡ k → ⊥)
    → get_elem? (change_tag i f ts) k ≡ get_elem? ts k
change_tag-outside i k f ts ne = elim (Option-cases (get_elem? ts i)) [
  | inl e ↦ rw (e, change_tag)
  | inr (t, e) ↦ rw (e, change_tag) (get_elem?-set_ne ts i k (f t) ne)
]

setup_tag-outside :
    (m : Memory) (free : ℕ) (d : Dma) (k : ℕ)
    → (d.dmatag_index ≡ k → ⊥)
    → get_elem? (setup_tag m free d).ee_tags k ≡ get_elem? d.ee_tags k
unfolding setup_tag
setup_tag-outside m free d k ne = elim (Bool-cases (free == 31)) [
  | inl e ↦ rw e
  | inr n ↦ elim (Bool-cases (free == 30)) [
    | inl e ↦ rw (n, e) (change_tag-outside d.dmatag_index k _ d.ee_tags ne)
    | inr n' ↦ rw (n, n') (change_tag-outside d.dmatag_index k _ d.ee_tags ne)
  ]
]

-- The outcome of a `SifSetDma` that had enough tags.
pub record Sent (n : ℕ) (d : Dma) (id : ℕ) (d' : Dma) : Type 0 where
  pub id_tags : id % 2 ^ 8 ≡ n
  pub id_start : id / 2 ^ 8 % 2 ^ 8 ≡ (next_tag (d.dmatag_index, d.dma_count)).0
  pub id_round : id / 2 ^ 16 ≡ (next_tag (d.dmatag_index, d.dma_count)).1
  pub index : d'.dmatag_index ≡ (d.dmatag_index + n) % 31
  pub count : d'.dma_count ≡ (d.dma_count + (d.dmatag_index + n) / 31) % 2 ^ 16
  pub outside :
      (k : ℕ) → Outside d.dmatag_index n k → get_elem? d'.ee_tags k ≡ get_elem? d.ee_tags k
  pub running : d'.sif1_chcr ≡ 0x184
  pub ie : d'.ie ≡ d.ie

suspend-hw_index : (m : Memory) (d : Dma) → hw_index m (suspend d) ≡ hw_index m d
unfolding hw_index suspend
suspend-hw_index m d = refl

-- The ring while it is worked on: the last tag relinked, then all transfers placed.
abbrev placed : Memory → Transfer → List Transfer → Dma → Dma
placed m t ts d = send_all m t ts (setup_tag m (free_dma_tags m (suspend d)) (suspend d))

placed_lem :
    (m : Memory) (t : Transfer) (ts : List Transfer) (d : Dma)
    → InRing d
    → AllFit (t ∷ ts)
    → Moved
        (count_tags (t ∷ ts))
        (setup_tag m (free_dma_tags m (suspend d)) (suspend d))
        (placed m t ts d)
unfolding suspend
placed_lem m t ts d ring fit =
    let s = setup_tag_lem m (free_dma_tags m (suspend d)) (suspend d) in
    send_all-Moved m t ts _ fit (record { index = rw s.0 ring.index; count = rw s.1 ring.count })

free-le : (m : Memory) (d : Dma) → hw_index m d < 31 → d.dmatag_index < 31 → free_dma_tags m d ≤ 31
unfolding free_dma_tags
free-le m d hw sw = ground (arith, free_between_lem (hw_index m d) d.dmatag_index d.sif1_qwc)

Outside-ne_self : (i n k : ℕ) → i < 31 → Outside i n k → (i ≡ k → ⊥)
Outside-ne_self i n k hi (inl far) e = omega arith
Outside-ne_self i n k hi (inr (small, far)) e = omega arith

-- With enough tags free, `SifSetDma` returns an id that names the tags it used, from the place
-- behind the last one; the ring moves on by as many tags as were counted; no other tag but the last
-- of the previous transfer is written; the channel runs; and the interrupts are as they were.
pub set_dma-Sent :
    (m : Memory) (t : Transfer) (ts : List Transfer) (d : Dma)
    → InRing d
    → hw_index m d < 31
    → AllFit (t ∷ ts)
    → count_tags (t ∷ ts) ≤ free_dma_tags m (suspend d)
    → (id : ℕ) × (d' : Dma) × (set_dma m (t ∷ ts) d ≡ some (id, d'))
      × Sent (count_tags (t ∷ ts)) d id d'
unfolding set_dma set_dma_list start_dma suspend
set_dma-Sent m t ts d ring hw fit enough =
    let free = free_dma_tags m (suspend d) in
    let n = count_tags (t ∷ ts) in
    let small = free-le m (suspend d) (rw (suspend-hw_index m d) hw) ring.index in
    let s = setup_tag_lem m free (suspend d) in
    let v = placed_lem m t ts d ring fit in
    let fields =
      transfer_id_fields d.dmatag_index d.dma_count n ring.index ring.count (omega arith) in
    let yes_ : leb n free ≡ true = ground arith in
    let idle : (placed m t ts d).sif1_chcr ≡ 0 = v.chcr ∙ s.2 in
    (
      transfer_id d.dmatag_index d.dma_count n,
      start_dma d.ie (placed m t ts d),
      rw yes_,
      record {
        id_tags = fields.0;
        id_start = fields.1;
        id_round = fields.2;
        index = v.index ∙ ap (λ i. (i + n) % 31) s.0;
        count = v.count ∙ ap₂ (λ c i. (c + (i + n) / 31) % 2 ^ 16) s.1 s.0;
        outside = λ k out.
            v.outside k (rw s.0 out)
            ∙ setup_tag-outside m free (suspend d) k
                (Outside-ne_self d.dmatag_index n k ring.index out);
        running = rw idle;
        ie = refl;
      },
    )

steps_zero : (p i : ℕ) → p < 31 → i < 31 → steps p i ≡ 0 → p ≡ i
steps_zero p i hp hi e = omega arith

module _ (m : Memory) (t : Transfer) (ts : List Transfer) (d : Dma) (ring : InRing d)
    (hw : hw_index m d < 31) where
  -- The tags that the hardware has still to fetch and the new ones fit into the ring: as long as
  -- something was pending, the software index stays behind the hardware's place.
  pub set_dma-room :
      AllFit (t ∷ ts)
      → count_tags (t ∷ ts) ≤ free_dma_tags m (suspend d)
      → hw_index m d ≢ d.dmatag_index
      → (id : ℕ) × (d' : Dma) × (set_dma m (t ∷ ts) d ≡ some (id, d'))
        × (steps (hw_index m d) d'.dmatag_index
            ≡ steps (hw_index m d) d.dmatag_index + count_tags (t ∷ ts))
        × (steps (hw_index m d) d'.dmatag_index ≤ 30)
  unfolding free_dma_tags suspend
  set_dma-room fit enough apart =
      let (id, d', e, s) = set_dma-Sent m t ts d ring hw fit enough in
      let p = hw_index m d in
      let i = d.dmatag_index in
      let n = count_tags (t ∷ ts) in
      let fr : free_between p i d.sif1_qwc
          ≡ (if steps p i == 0 && (d.sif1_qwc == 0) then 31 else 30 - steps p i) =
        free_between_lem p i d.sif1_qwc hw ring.index in
      let some_ : (steps p i == 0) ≡ false = ground (arith, steps_zero p i hw ring.index) in
      let room : steps p i + n ≤ 30 = ground arith in
      let moved = steps-add p i n hw ring.index (omega arith) in
      (id, d', e, ap (steps p) s.index ∙ moved, omega (arith, ap (steps p) s.index, moved))

-- With too few tags free, `SifSetDma` returns 0 and the ring is as it was: the channel is only
-- started again.
pub set_dma-full :
    (m : Memory) (t : Transfer) (ts : List Transfer) (d : Dma)
    → free_dma_tags m (suspend d) < count_tags (t ∷ ts)
    → (d' : Dma) × (set_dma m (t ∷ ts) d ≡ some (0, d'))
      × (d'.ee_tags ≡ d.ee_tags)
      × (d'.iop_tags ≡ d.iop_tags)
      × (d'.dmatag_index ≡ d.dmatag_index)
      × (d'.dma_count ≡ d.dma_count)
      × (d'.sif1_chcr ≡ 0x184)
      × (d'.ie ≡ d.ie)
unfolding set_dma set_dma_list suspend start_dma
set_dma-full m t ts d few =
    let n : leb (count_tags (t ∷ ts)) (free_dma_tags m (suspend d)) ≡ false = ground arith in
    (start_dma d.ie (suspend d), rw n, refl, refl, refl, refl, refl, refl)
