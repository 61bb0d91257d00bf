-- ===== src/Sbios/SifDma/Place.antt =====
-- TGE/sbios/sifdma.c: advancing the ring, and placing one transfer in it.
use kernelreloaded.Common.{
  ℕ, zero, suc, ◌+◌, ◌-◌, ◌*◌, ◌/◌, ◌%◌, ◌^◌, false, none, some, List, [], ◌∷◌, leb, ◌==◌,
  if◌then◌else◌, get_elem?, set,
}
use kernelreloaded.Sbios.SifDma.State.{
  u32, qwc_payload_first_pkt, IopTag, Dma, Transfer, attr_int_i, attr_int_o, attr_dmatag, attr_ert,
  TagId, ref, id_qwc_irq, phys, Memory,
}

-- `SET_NEXT_DMATAG`, on the 8-bit index and the 16-bit count.
unfoldable pub next_tag : ℕ × ℕ → ℕ × ℕ
next_tag (index, count) =
    if (index + 1) % 256 == 31 then (0, (count + 1) % 2 ^ 16) else ((index + 1) % 256, count)

-- The first n quadwords of the payload are copied from the source.
abbrev pub copy_payload : Memory → ℕ → ℕ → List ℕ → List ℕ
copy_payload m a zero ds = ds
copy_payload m a (suc n) [] = []
copy_payload m a (suc n) (d ∷ ds) = m.quad a ∷ copy_payload m (a + 16) n ds

abbrev pub qwc_of : ℕ → ℕ
qwc_of size = (size + 15) % u32 / 16

abbrev pub iop_addr : Transfer → ℕ
iop_addr t =
    t.dest % 2 ^ 24
    + (if attr_int_o t then 0x40000000 else 0)
    + (if attr_ert t then 0x80000000 else 0)

abbrev pub iop_tag_addr : Memory → ℕ → ℕ
iop_tag_addr m i = m.iop_tags_at + 144 * i

-- The IOP tag at an index gets its header, and its payload where there is one.
abbrev pub put_iop : Memory → Transfer → ℕ → ℕ → ℕ → List IopTag → List IopTag
put_iop m t i qwc copied ts = elim (get_elem? ts i) [
  | none ↦ ts
  | some old ↦ set ts i (record {
    addr = iop_addr t;
    size = qwc * 4 % u32;
    payload = copy_payload m (phys t.src) copied old.payload;
  })
]

transfer_dmatag : Memory → Transfer → TagId → Dma → Dma
transfer_dmatag m t id d =
    let qwc = qwc_of t.size in
    let (i, c) = next_tag (d.dmatag_index, d.dma_count) in
    record d {
      dmatag_index = i;
      dma_count = c;
      ee_tags =
          set d.ee_tags i
            (record { id_qwc = id_qwc_irq id qwc (attr_int_i t); addr = iop_tag_addr m i });
      iop_tags = put_iop m t i ((qwc + u32 - 1) % u32) 0 d.iop_tags;
    }

transfer_split : Memory → Transfer → TagId → Dma → Dma
transfer_split m t id d =
    let qwc = qwc_of t.size in
    let (i, c) = next_tag (d.dmatag_index, d.dma_count) in
    let (j, e) = next_tag (i, c) in
    record d {
      dmatag_index = j;
      dma_count = e;
      ee_tags =
          set
            (set d.ee_tags i (record { id_qwc = id_qwc_irq ref 8 false; addr = iop_tag_addr m i }))
            j
            (record {
              id_qwc = id_qwc_irq id (qwc - qwc_payload_first_pkt) (attr_int_i t);
              addr = phys (t.src + qwc_payload_first_pkt * 16);
            });
      iop_tags = put_iop m t i qwc qwc_payload_first_pkt d.iop_tags;
    }

transfer_whole : Memory → Transfer → TagId → Dma → Dma
transfer_whole m t id d =
    let qwc = qwc_of t.size in
    let (i, c) = next_tag (d.dmatag_index, d.dma_count) in
    record d {
      dmatag_index = i;
      dma_count = c;
      ee_tags =
          set d.ee_tags i
            (record { id_qwc = id_qwc_irq id (qwc + 1) (attr_int_i t); addr = iop_tag_addr m i });
      iop_tags = put_iop m t i qwc qwc d.iop_tags;
    }

-- `sif_dma_transfer`.
unfoldable pub dma_transfer : Memory → Transfer → TagId → Dma → Dma
unfolding transfer_dmatag transfer_split transfer_whole
dma_transfer m t id d =
    if attr_dmatag t
    then transfer_dmatag m t id d
    else if leb 8 (qwc_of t.size)
    then transfer_split m t id d
    else transfer_whole m t id d
