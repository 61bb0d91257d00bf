-- ===== src/Sbios/SifCmd/Loopback.antt =====
-- TGE/sbios/sifcmd.c: the header that `sif_cmd_send` writes is the one that `sif_cmd_interrupt` reads.
use kernelreloaded.Common.{
  ℕ, ◌+◌, ◌/◌, ◌%◌, ◌^◌, ◌≤◌, ◌<◌, ◌≡◌, refl, ap, ◌≢◌, false, Option, some, List, [], ◌∷◌, ◌++◌,
  arith, length,
}
use kernelreloaded.Common.Bits.{bit}
use kernelreloaded.Sbios.SifDma.State.{Dma, Memory, phys, set_dchain}
use kernelreloaded.Sbios.SifDma.Send.{hw_index, free_dma_tags, suspend}
use kernelreloaded.Sbios.SifDma.SetDma.{InRing}
use kernelreloaded.Sbios.SifCmd.State.{Cmd, Ptr, other, u32, add_handler}
use kernelreloaded.Sbios.SifCmd.Send.{Request, cmd_send}
use kernelreloaded.Sbios.SifCmd.Dispatch.{run_handler, find_handler, cmd_interrupt}
use kernelreloaded.Sbios.SifCmd.Handlers.{table_for, limit_for, find_handler-add_handler}
use kernelreloaded.Sbios.SifCmd.Interrupt.{Arrived, packet_of, taken, interrupt_lem}
use kernelreloaded.Sbios.SifCmd.Delivery.{Header, cmd_send-Delivered}

-- The words of a quadword, as they follow each other in memory.
abbrev pub words_of : ℕ → List ℕ
words_of q = q % u32 ∷ q / 2 ^ 32 % u32 ∷ q / 2 ^ 64 % u32 ∷ q / 2 ^ 96 % u32 ∷ []

-- A receive buffer with a packet whose first quadword is given.
abbrev pub arrive : ℕ → List ℕ → Cmd → Cmd
arrive h body c = record c { pktbuf = words_of h ++ body }

arrive-Arrived :
    (q : Request) (h : ℕ) (body : List ℕ) (c : Cmd) (d : Dma)
    → Header q h
    → 1 ≤ q.packet_size
    → q.packet_size ≤ 112
    → bit d.sif0_chcr 8 ≡ false
    → c.pktbuf_at ≢ 0
    → length body ≡ 28
    → Arrived q.fid q.packet_size (arrive h body c) d
arrive-Arrived q h body c d head some_data small over buffer size = record {
  over = over;
  buffer = buffer;
  full = omega (arith, size);
  size_word = h % u32;
  head = refl;
  size_is = omega (arith, head.packet_size);
  fid_at = ap some head.fid;
  some_data = some_data;
  bounded = omega arith;
}

-- A command that `sif_cmd_send` accepts, received by an interface of the same make on which a handler
-- is registered for it, reaches that handler: the header in the packet carries the command and the
-- size by which the interrupt takes the packet apart.
pub cmd_interrupt-cmd_send :
    {S : Type 0} (call : Ptr → List ℕ → Ptr → Cmd × Dma × S → Option (Cmd × Dma × S)) (q : Request)
    (c : Cmd) (m : Memory) (d : Dma) (f harg : ℕ) (b c' : Cmd) (e : Dma) (s : S) (body : List ℕ)
    → 1 ≤ q.packet_size
    → q.packet_size ≤ 112
    → q.size + 15 < u32
    → q.dest < u32
    → q.fid < u32
    → InRing d
    → hw_index m d < 31
    → 3 ≤ free_dma_tags m (suspend d)
    → table_for q.fid b ≢ 0
    → q.fid % 2 ^ 31 < limit_for q.fid b
    → add_handler q.fid (other f) harg b ≡ some c'
    → bit e.sif0_chcr 8 ≡ false
    → c'.pktbuf_at ≢ 0
    → length body ≡ 28
    → (id : ℕ) × (m' : Memory) × (d' : Dma) × (cmd_send q c (m, d) ≡ some (id, m', d'))
      × let at = arrive (m'.quad (phys q.packet)) body c' in
        cmd_interrupt call (at, e, s)
        ≡ call f (packet_of q.packet_size at) harg (taken at, set_dchain e, s)
unfolding find_handler run_handler
cmd_interrupt-cmd_send call q c m d f harg b c' e s body some_data small size dest fid ring hw free
      table limit added over buffer len =
    let (id, m', d', sent, delivered) =
      cmd_send-Delivered q c m d small size dest fid ring hw free in
    let h = m'.quad (phys q.packet) in
    let at = arrive h body c' in
    let arrived = arrive-Arrived q h body c' e delivered.head some_data small over buffer len in
    let found = find_handler-add_handler q.fid (other f) harg b c' fid table limit added in
    (
      id,
      m',
      d',
      sent,
      interrupt_lem call q.fid q.packet_size at e s (record { handler = other f; harg = harg })
          arrived found,
    )
