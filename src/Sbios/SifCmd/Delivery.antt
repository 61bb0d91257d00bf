-- ===== src/Sbios/SifCmd/Delivery.antt =====
-- TGE/sbios/sifcmd.c: what `sif_cmd_send` puts on its way.
use kernelreloaded.Common.{
  inr, [], ==_refl, inl, false, ◌∷◌, ltb, Bool-cases, ◌+◌, some, List, ℕ, ◌/◌, ◌%◌, ◌^◌, ◌≤◌, ◌<◌,
  ◌≡◌, arith,
}
use kernelreloaded.Sbios.SifDma.State.{Dma, Memory, Transfer, phys}
use kernelreloaded.Sbios.SifDma.Send.{set_dma, hw_index, free_dma_tags, suspend, count_tags}
use kernelreloaded.Sbios.SifDma.SetDma.{Sent, AllFit, InRing, set_dma-Sent}
use kernelreloaded.Sbios.SifCmd.State.{Cmd, u32}
use kernelreloaded.Sbios.SifCmd.Send.{Request, cmd_send, header_of, transfers, put_quad}

-- The fields of a header, read as `sif_cmd_interrupt` of the receiver reads them.
pub record Header (q : Request) (h : ℕ) : Type 0 where
  pub packet_size : h % 256 ≡ q.packet_size
  pub data_size : h / 2 ^ 8 % 2 ^ 24 ≡ q.size % 2 ^ 24
  pub dest : 1 ≤ q.size → h / 2 ^ 32 % u32 ≡ q.dest
  pub fid : h / 2 ^ 64 % u32 ≡ q.fid

header_of-Header :
    (q : Request) (old : ℕ)
    → q.packet_size ≤ 112
    → q.dest < u32
    → q.fid < u32
    → Header q (header_of q old)
unfolding header_of
header_of-Header q old p d f = record {
  packet_size = ground arith;
  data_size = ground arith;
  dest = λ s. ground arith;
  fid = ground arith;
}

-- The data of a command, and the packet.
abbrev data_transfer : Request → Transfer
data_transfer q = record { src = q.src; dest = q.dest; size = q.size; attr = 0 }

abbrev packet_transfer : Request → Cmd → Transfer
packet_transfer q c = record { src = q.packet; dest = c.iopbuf; size = q.packet_size; attr = 0x44 }

-- A list of transfers that takes three tags at most.
record Short (ts : List Transfer) : Type 0 where
  first : Transfer
  rest : List Transfer
  is : ts ≡ first ∷ rest
  fit : AllFit (first ∷ rest)
  few : count_tags (first ∷ rest) ≤ 3

transfers-Short :
    (q : Request) (c : Cmd) → q.packet_size ≤ 112 → q.size + 15 < u32 → Short (transfers q c)
unfolding count_tags transfers
transfers-Short q c p s = elim (Bool-cases (ltb 0 q.size)) [
  | inl b ↦ record {
    first = data_transfer q;
    rest = packet_transfer q c ∷ [];
    is = rw b;
    fit = (s, (omega arith, tt));
    few = ground arith;
  }
  | inr b ↦ record {
    first = packet_transfer q c;
    rest = [];
    is = rw b;
    fit = (omega arith, tt);
    few = ground arith;
  }
]

-- What a command that was accepted leaves: the transfers on their way, which `SifSetDma` has copied
-- from the memory with the header in the packet, and the rest of the memory as it was.
pub record Delivered (q : Request) (c : Cmd) (m : Memory) (d : Dma) (id : ℕ) (m' : Memory)
    (d' : Dma) : Type 0 where
  pub sent : Sent (count_tags (transfers q c)) d id d'
  pub run : set_dma m' (transfers q c) d ≡ some (id, d')
  pub few : count_tags (transfers q c) ≤ 3
  pub head : Header q (m'.quad (phys q.packet))
  pub rest : (a : ℕ) → (a ≡ phys q.packet → ⊥) → m'.quad a ≡ m.quad a

-- A command with a packet of at most 112 bytes goes out when three tags are free: its transfers are
-- on their way with the id that is returned, the memory from which `SifSetDma` has made them has the
-- header in the packet, with the packet's size, the data's size modulo 2^24, their destination if
-- there are data, and the command, and no other quadword of the memory changes. The data's size is
-- below 2^32 - 15, and the destination and the command have 32 bits.
pub cmd_send-Delivered :
    (q : Request) (c : Cmd) (m : Memory) (d : Dma)
    → q.packet_size ≤ 112
    → q.size + 15 < u32
    → q.dest < u32
    → q.fid < u32
    → InRing d
    → hw_index m d < 31
    → 3 ≤ free_dma_tags m (suspend d)
    → (id : ℕ) × (m' : Memory) × (d' : Dma) × (cmd_send q c (m, d) ≡ some (id, m', d'))
      × Delivered q c m d id m' d'
unfolding cmd_send hw_index free_dma_tags
cmd_send-Delivered q c m d p s de f ring hw free =
    let at = phys q.packet in
    let m' = put_quad at (header_of q (m.quad at)) m in
    let t = transfers-Short q c p s in
    let enough : count_tags (t.first ∷ t.rest) ≤ free_dma_tags m (suspend d) =
      omega (arith, t.few) in
    let (id, d', e, sent) = set_dma-Sent m' t.first t.rest d ring hw t.fit enough in
    let e' : set_dma m' (transfers q c) d ≡ some (id, d') = rw t.is e in
    let fits : ltb 112 q.packet_size ≡ false = ground arith in
    (
      id,
      m',
      d',
      rw (fits, e'),
      record {
        sent = rw t.is sent;
        run = e';
        few = rw t.is t.few;
        head = rw (==_refl at) (header_of-Header q (m.quad at) p de f);
        rest = λ a ne. ground arith;
      },
    )
