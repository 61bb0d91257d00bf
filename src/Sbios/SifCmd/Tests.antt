-- ===== src/Sbios/SifCmd/Tests.antt =====
-- TGE/sbios/sifcmd.c: the theorems at an interface that has just been set up, and two runs.
use kernelreloaded.Common.{
  ℕ, ◌+◌, ◌*◌, ◌%◌, ◌^◌, ◌≤◌, ◌<◌, ◌≡◌, refl, ◌≢◌, true, false, Option, some, List, ◌∷◌, arith,
  ◌==◌, if◌then◌else◌, set, replicate,
}
use kernelreloaded.Common.Bits.{bit}
use kernelreloaded.Sbios.SifDma.State.{Dma, Memory, set_dchain, phys}
use kernelreloaded.Sbios.SifDma.Send.{hw_index, free_dma_tags, suspend}
use kernelreloaded.Sbios.SifCmd.State.{
  Cmd, Layout, Ptr, other, set_sreg, cmd_set_sreg, add_handler, read_sreg,
}
use kernelreloaded.Sbios.SifCmd.Send.{Request, cmd_send, init_cmd, init_request}
use kernelreloaded.Sbios.SifCmd.Dispatch.{find_handler, cmd_interrupt, word, quads_of}
use kernelreloaded.Sbios.SifCmd.Interrupt.{
  Arrived, packet_of, taken, interrupt-add_handler, interrupt-set_sreg,
}
use kernelreloaded.Sbios.SifCmd.Delivery.{Delivered, cmd_send-Delivered}
use kernelreloaded.Sbios.SifCmd.Loopback.{arrive, cmd_interrupt-cmd_send}
use kernelreloaded.Sbios.SifCmd.Ready.{Ready, started, init_cmd-Ready}

abbrev memory : Memory
memory = record { tags_at = 0x10000; iop_tags_at = 0x20000; quad = λ a. 0 }

abbrev idle : Dma
idle = record {
  initialized = true;
  reg_table = replicate 32 0;
  dmatag_index = 30;
  dma_count = 0;
  ee_tags = replicate 32 (record { id_qwc = 0; addr = 0 });
  iop_tags = replicate 32 (record { addr = 0; size = 0; payload = replicate 7 0 });
  sif0_chcr = 0;
  sif0_qwc = 0;
  sif1_chcr = 0;
  sif1_qwc = 0;
  sif1_madr = 0;
  sif1_tadr = 0x10000;
  enabler = 0;
  mainaddr = 0;
  subaddr = 0;
  msflag = 0;
  smflag = 0;
  unknf260 = 0;
  ie = true;
}

abbrev layout : Layout
layout = record {
  pktbuf = 0x9480;
  cmdbuf = 0x9500;
  init_pkt = 0x9540;
  cmd_data = 0x9554;
  sys_buffer = 0x9578;
  sregs = 0x9678;
  iopaddr = 0x1000;
}

abbrev blank : Cmd
blank = record {
  initialized = false;
  pktbuf_at = 0;
  pktbuf = replicate 32 0;
  cmdbuf_at = 0;
  iopbuf = 0;
  sys_handlers = 0;
  nr_sys = 0;
  usr_handlers = 0;
  nr_usr = 0;
  sregs_at = 0;
  sregs = replicate 32 0;
  tables = λ p. replicate 32 (record { handler = other 0; harg = 0 });
}

all_free : free_dma_tags memory (suspend idle) ≡ 31
unfolding free_dma_tags suspend
all_free = refl

at_30 : hw_index memory idle ≡ 30
unfolding hw_index
at_30 = refl

-- A call of the remote interface, with 300 bytes of data.
abbrev request : Request
request = record {
  fid = 0x8000_000a;
  packet = 0xa000_3000;
  packet_size = 64;
  src = 0x5000;
  dest = 0x90000;
  size = 300;
}

cmd_send-Delivered_example :
    (id : ℕ) × (m' : Memory) × (d' : Dma) × (cmd_send request blank (memory, idle)
      ≡ some (id, m', d'))
    × Delivered request blank memory idle id m' d'
cmd_send-Delivered_example =
    cmd_send-Delivered request blank memory idle (omega arith) (omega arith) (omega arith)
      (omega arith) (record { index = omega arith; count = omega arith }) (omega (arith, at_30))
      (omega (arith, all_free))

init_cmd-Ready_example :
    (c' : Cmd) × (m' : Memory) × (d1 : Dma) × (id : ℕ) × let d' : Dma = record d1 {
      reg_table = set (set d1.reg_table 0 0x1000) 1 0x9554;
    } in
      (init_cmd layout (blank, memory, idle) ≡ some (c', m', d'))
      × Ready layout c'
      × (m'.quad (phys (0x9540 + 16)) % 2 ^ 32 ≡ phys c'.pktbuf_at)
      × ((m0 : Memory) × (m0.quad (phys (0x9540 + 16)) % 2 ^ 32 ≡ phys c'.pktbuf_at)
          × Delivered (init_request layout) c' m0 idle id m' d1)
      × (init_cmd layout (c', m', d') ≡ some (c', m', d'))
init_cmd-Ready_example =
    init_cmd-Ready layout blank memory idle (λ z. omega arith) (λ z. omega arith) (λ z. omega arith)
      refl (record { index = omega arith; count = omega arith }) (omega (arith, at_30))
      (omega (arith, all_free))

-- A packet that sets register 5 to 7 has arrived.
abbrev with_packet : Cmd
with_packet = record (started layout blank) {
  pktbuf = 24 ∷ 0 ∷ cmd_set_sreg ∷ 0 ∷ 5 ∷ 7 ∷ replicate 26 0;
}

no_call : Ptr → List ℕ → Ptr → Cmd × Dma × ℕ → Option (Cmd × Dma × ℕ)
no_call f p a (c, d, s) = some (c, d, s + a)

arrived : Arrived cmd_set_sreg 24 with_packet idle
unfolding bit
arrived = record {
  over = refl;
  buffer = λ z. omega arith;
  full = refl;
  size_word = 24;
  head = refl;
  size_is = refl;
  fid_at = refl;
  some_data = omega arith;
  bounded = omega arith;
}

interrupt-set_sreg_example :
    (c' : Cmd) × (cmd_interrupt no_call (with_packet, idle, 0) ≡ some (c', set_dchain idle, 0))
    × (read_sreg 5 c' ≡ some 7)
    × ((k : ℕ) → (5 ≡ k → ⊥) → read_sreg k c' ≡ read_sreg k with_packet)
interrupt-set_sreg_example =
    interrupt-set_sreg no_call 24 5 7 0x9554 with_packet idle 0 arrived found (omega arith) refl
      refl (λ z. omega arith) refl (omega arith)
  where
    found :
        find_handler cmd_set_sreg with_packet
        ≡ some (some (record { handler = set_sreg; harg = 0x9554 }))
    found = unfold find_handler bit in refl

-- A packet of command 0x80000008, whose handler is registered with the argument 9.
abbrev extended : Cmd
extended = record with_packet {
  pktbuf = 64 ∷ 0 ∷ 0x8000_0008 ∷ replicate 29 1;
  tables = λ p.
      if p == 0x9578
      then set (with_packet.tables 0x9578) 8 (record { handler = other 3; harg = 9 })
      else with_packet.tables p;
}

abbrev before : Cmd
before = record with_packet { pktbuf = 64 ∷ 0 ∷ 0x8000_0008 ∷ replicate 29 1 }

registered : add_handler 0x8000_0008 (other 3) 9 before ≡ some extended
unfolding add_handler bit
registered = refl

interrupt-add_handler_example :
    (cmd_interrupt no_call (extended, idle, 0)
      ≡ no_call 3 (packet_of 64 extended) 9 (taken extended, set_dchain idle, 0))
    × ((i w : ℕ)
        → 1 ≤ i
        → i < 4 * quads_of 64
        → word extended.pktbuf i ≡ some w
        → word (packet_of 64 extended) i ≡ some w)
unfolding bit
interrupt-add_handler_example =
    interrupt-add_handler no_call 0x8000_0008 64 3 9 before extended idle 0 (omega arith) table
      (omega arith) registered
      (record {
        over = refl;
        buffer = λ z. omega arith;
        full = refl;
        size_word = 64;
        head = refl;
        size_is = refl;
        fid_at = refl;
        some_data = omega arith;
        bounded = omega arith;
      })
  where
    table : (if bit 0x8000_0008 31 then before.sys_handlers else before.usr_handlers) ≢ 0
    table = λ z. omega arith

-- The request reaches a handler that is registered for it on an interface like the sender's.
abbrev ready : Cmd
ready = started layout blank

abbrev listening : Cmd
listening = record ready {
  tables = λ p.
      if p == 0x9578
      then set (ready.tables 0x9578) 10 (record { handler = other 3; harg = 9 })
      else ready.tables p;
}

listening_added : add_handler 0x8000_000a (other 3) 9 ready ≡ some listening
unfolding add_handler bit
listening_added = refl

cmd_interrupt-cmd_send_example :
    (id : ℕ) × (m' : Memory) × (d' : Dma) × (cmd_send request blank (memory, idle)
      ≡ some (id, m', d'))
    × let at = arrive (m'.quad (phys 0xa000_3000)) (replicate 28 1) listening in
      cmd_interrupt no_call (at, idle, 0)
      ≡ no_call 3 (packet_of 64 at) 9 (taken at, set_dchain idle, 0)
unfolding bit
cmd_interrupt-cmd_send_example =
    cmd_interrupt-cmd_send no_call request blank memory idle 3 9 ready listening idle 0
      (replicate 28 1) (omega arith) (omega arith) (omega arith) (omega arith) (omega arith)
      (record { index = omega arith; count = omega arith }) (omega (arith, at_30))
      (omega (arith, all_free)) table (omega arith) listening_added refl (λ z. omega arith) refl
  where
    table : (if bit 0x8000_000a 31 then ready.sys_handlers else ready.usr_handlers) ≢ 0
    table = λ z. omega arith
