-- ===== src/Sbios/SifDma/Send.antt =====
-- TGE/sbios/sifdma.c: the free tags, and `SifSetDma`.
use kernelreloaded.Common.Bits.{set_bit, clear_bit}
use Prim.Native.Nat.{bit_and, bit_or}
use kernelreloaded.Common.{
  ℕ, ◌+◌, ◌-◌, ◌*◌, ◌/◌, ◌%◌, ◌^◌, Bool, false, ◌||◌, Option, none, some, List, [], ◌∷◌, ltb, leb,
  ◌==◌, if◌then◌else◌, get_elem?, set,
}
use kernelreloaded.Sbios.SifDma.State.{
  u32, qwc_payload_first_pkt, EeTag, Dma, Transfer, attr_dmatag, refe, ref, tag_id, Memory,
}
use kernelreloaded.Sbios.SifDma.Place.{dma_transfer}

-- `sif_dma_get_hw_index`: the tag in front of the one that the hardware fetches next.
unfoldable pub hw_index : Memory → Dma → ℕ
hw_index m d = let i = (d.sif1_tadr + u32 - m.tags_at) % u32 / 16 in if ltb 0 i then i - 1 else 30

-- `sif_dma_get_sw_index`.
unfoldable pub sw_index : Dma → ℕ
sw_index d = d.dmatag_index

-- `sif_get_number_of_free_dma_tags`, on the two indices and the quadword counter.
unfoldable pub free_between : ℕ → ℕ → ℕ → ℕ
free_between hw sw qwc =
    if hw == sw
    then (if qwc == 0 then 31 else 30)
    else if ltb hw sw
    then (hw + u32 - sw + 30) % u32
    else (hw + u32 - sw - 1) % u32

unfoldable pub free_dma_tags : Memory → Dma → ℕ
unfolding free_between hw_index
free_dma_tags m d = free_between (hw_index m d) d.dmatag_index d.sif1_qwc

abbrev pub change_tag : ℕ → (EeTag → EeTag) → List EeTag → List EeTag
change_tag i f ts = elim (get_elem? ts i) [ none ↦ ts | some t ↦ set ts i (f t) ]

-- `sif_dma_setup_tag`: the last tag of the previous transfer no longer ends the chain.
unfoldable pub setup_tag : Memory → ℕ → Dma → Dma
setup_tag m free d =
    if free == 31
    then d
    else if free == 30
    then record d {
      ee_tags =
          change_tag d.dmatag_index
            (λ t. record {
              id_qwc =
                  bit_or (bit_or (bit_and t.id_qwc 0x8c000000) (tag_id ref * 2 ^ 28)) d.sif1_qwc;
              addr = d.sif1_madr;
            })
            d.ee_tags;
      sif1_qwc = 0;
      sif1_tadr = m.tags_at + 16 * d.dmatag_index;
    }
    else record d {
      ee_tags =
          change_tag d.dmatag_index
            (λ t. record t { id_qwc = bit_or t.id_qwc (tag_id ref * 2 ^ 28) }) d.ee_tags;
    }

-- The loop of `SifSetDma` that counts the tags.
unfoldable pub count_tags : List Transfer → ℕ
count_tags [] = 0
count_tags (t ∷ ts) =
    count_tags ts + (if attr_dmatag t || leb t.size (qwc_payload_first_pkt * 16) then 1 else 2)

-- The loop of `SifSetDma` over all transfers but the last, and the last one, which ends the chain.
unfoldable pub send_all : Memory → Transfer → List Transfer → Dma → Dma
send_all m t [] d = dma_transfer m t refe d
send_all m t (u ∷ ts) d = send_all m u ts (dma_transfer m t ref d)

-- All DMA is suspended, SIF1 is stopped, and the suspension is lifted; interrupts are off.
unfoldable pub suspend : Dma → Dma
suspend d = record d { ie = false; enabler = clear_bit (set_bit d.enabler 16) 16; sif1_chcr = 0 }

-- SIF1 is started, and the interrupt enable bit is what it was.
unfoldable pub start_dma : Bool → Dma → Dma
start_dma ie d = record d { sif1_chcr = bit_or d.sif1_chcr 0x184; ie = ie }

unfoldable pub transfer_id : ℕ → ℕ → ℕ → ℕ
transfer_id index count ntags =
    let start = (index + 1) % 31 % 256 in
    ((if start == 0 then count + 1 else count) * 2 ^ 16 + start * 2 ^ 8 + ntags % 256) % u32

-- `SifSetDma` with at least one transfer: the id, or 0 where the tags do not suffice.
unfoldable pub set_dma_list : Memory → Transfer → List Transfer → Dma → ℕ × Dma
set_dma_list m t ts d =
    let e = suspend d in
    let free = free_dma_tags m e in
    let ntags = count_tags (t ∷ ts) in
    if leb ntags free
    then (
      transfer_id e.dmatag_index e.dma_count ntags,
      start_dma d.ie (send_all m t ts (setup_tag m free e)),
    )
    else (0, start_dma d.ie e)

-- `SifSetDma`. With a count of zero the unsigned loop variable starts at 2^32 - 1 and the loop runs
-- on behind the array: `none`.
unfoldable pub set_dma : Memory → List Transfer → Dma → Option (ℕ × Dma)
set_dma m [] d = none
set_dma m (t ∷ ts) d = some (set_dma_list m t ts d)
