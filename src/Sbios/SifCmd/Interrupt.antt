-- ===== src/Sbios/SifCmd/Interrupt.antt =====
-- TGE/sbios/sifcmd.c: what the interrupt does with a packet that has arrived.
use kernelreloaded.Common.{
  get_elem?-set_self, ◌^◌, true, ℕ, zero, suc, ◌*◌, ◌%◌, ◌≤◌, ◌<◌, ◌≡◌, refl, ◌∙◌, ◌≢◌, false,
  Option, some, List, [], ◌∷◌, arith, ltb, ◌==◌, length, set, get_elem?-set_ne,
}
use kernelreloaded.Common.Bits.{bit}
use kernelreloaded.Sbios.SifDma.State.{Dma, set_dchain}
use kernelreloaded.Sbios.SifCmd.State.{
  Cmd, Ptr, set_sreg, other, Handler, add_handler, write_sreg, read_sreg, u32, cmd_set_sreg,
}
use kernelreloaded.Sbios.SifCmd.Dispatch.{
  word, quads_of, take_words, find_handler, run_handler, set_sreg_handler, receive, cmd_interrupt,
}
use kernelreloaded.Sbios.SifCmd.Handlers.{table_for, limit_for, find_handler-add_handler}

-- A packet of a command and a size stands in the receive buffer, and the transfer is over.
pub record Arrived (fid size : ℕ) (c : Cmd) (d : Dma) : Type 0 where
  pub over : bit d.sif0_chcr 8 ≡ false
  pub buffer : c.pktbuf_at ≢ 0
  pub full : length c.pktbuf ≡ 32
  pub size_word : ℕ
  pub head : word c.pktbuf 0 ≡ some size_word
  pub size_is : size_word % 256 ≡ size
  pub fid_at : word c.pktbuf 2 ≡ some fid
  pub some_data : 1 ≤ size
  pub bounded : size ≤ 113

-- The packet as the handler gets it: whole quadwords, with the size cleared.
abbrev pub packet_of : ℕ → Cmd → List ℕ
packet_of size c = take_words (4 * quads_of size) (set c.pktbuf 0 0)

abbrev pub taken : Cmd → Cmd
taken c = record c { pktbuf = set c.pktbuf 0 0 }

word-take_words : (n i : ℕ) (ws : List ℕ) → i < n → word (take_words n ws) i ≡ word ws i
word-take_words zero i ws h = absurd (omega arith)
word-take_words (suc n) i [] h = refl
word-take_words (suc n) zero (w ∷ ws) h = refl
word-take_words (suc n) (suc i) (w ∷ ws) h = word-take_words n i ws (omega arith)

-- A word behind the first reaches the handler as it arrived.
pub word-packet_of :
    (size i w : ℕ) (c : Cmd)
    → 1 ≤ i
    → i < 4 * quads_of size
    → word c.pktbuf i ≡ some w
    → word (packet_of size c) i ≡ some w
word-packet_of size i w c h l e =
    word-take_words (4 * quads_of size) i (set c.pktbuf 0 0) l
    ∙ get_elem?-set_ne c.pktbuf 0 i 0 (λ z. omega arith)
    ∙ e

module _ {S : Type 0} (call : Ptr → List ℕ → Ptr → Cmd × Dma × S → Option (Cmd × Dma × S)) where
  pub interrupt_lem :
      (fid size : ℕ) (c : Cmd) (d : Dma) (s : S) (h : Handler)
      → Arrived fid size c d
      → find_handler fid c ≡ some (some h)
      → cmd_interrupt call (c, d, s)
        ≡ run_handler call h (packet_of size c) (taken c, set_dchain d, s)
  unfolding cmd_interrupt receive find_handler
  interrupt_lem fid size c d s h a f =
      let at : (c.pktbuf_at == 0) ≡ false = ground (arith, a.buffer) in
      let fits : ltb 8 (quads_of (a.size_word % 256)) ≡ false =
        ground (arith, a.size_is, a.bounded) in
      let full : (a.size_word % 256 == 0) ≡ false = ground (arith, a.size_is, a.some_data) in
      let fid_word =
        word-packet_of (a.size_word % 256) 2 fid c (omega arith)
          (omega (arith, a.size_is, a.some_data)) a.fid_at in
      let find : find_handler fid (taken c) ≡ some (some h) = f in
      rw (a.over, at, a.head, full, fits, fid_word, find, a.size_is)

  -- A handler that `SifAddCmdHandler` registered for a command, in a table that is set and below its
  -- bound, is called when a packet of that command arrives: with the packet, whose words behind the
  -- first are those received, and with the argument it was registered with; the channel is started
  -- for the next packet before.
  pub interrupt-add_handler :
      (fid size f harg : ℕ) (b c : Cmd) (d : Dma) (s : S)
      → fid < u32
      → table_for fid b ≢ 0
      → fid % 2 ^ 31 < limit_for fid b
      → add_handler fid (other f) harg b ≡ some c
      → Arrived fid size c d
      → (cmd_interrupt call (c, d, s) ≡ call f (packet_of size c) harg (taken c, set_dchain d, s))
        × ((i w : ℕ)
            → 1 ≤ i
            → i < 4 * quads_of size
            → word c.pktbuf i ≡ some w
            → word (packet_of size c) i ≡ some w)
  unfolding run_handler
  interrupt-add_handler fid size f harg b c d s small ne l e a = (
    interrupt_lem fid size c d s (record { handler = other f; harg = harg }) a
        (find_handler-add_handler fid (other f) harg b c small ne l e),
    λ i w h k g. word-packet_of size i w c h k g,
  )

  run_set_sreg :
      (p : List ℕ) (c c' : Cmd) (d : Dma) (s : S) (harg : Ptr)
      → set_sreg_handler p c ≡ some c'
      → run_handler call (record { handler = set_sreg; harg = harg }) p (c, d, s) ≡ some (c', d, s)
  unfolding run_handler
  run_set_sreg p c c' d s harg e = rw (run_handler, e)

  -- A packet that asks for a software register to be set, of at least six words, with the register
  -- below 32: the register is read with its new value, all others are as they were, and the channel
  -- is started for the next packet.
  pub interrupt-set_sreg :
      (size reg val harg : ℕ) (c : Cmd) (d : Dma) (s : S)
      → Arrived cmd_set_sreg size c d
      → find_handler cmd_set_sreg c ≡ some (some (record { handler = set_sreg; harg = harg }))
      → 2 ≤ size
      → word c.pktbuf 4 ≡ some reg
      → word c.pktbuf 5 ≡ some val
      → c.sregs_at ≢ 0
      → length c.sregs ≡ 32
      → reg < 32
      → (c' : Cmd) × (cmd_interrupt call (c, d, s) ≡ some (c', set_dchain d, s))
        × (read_sreg reg c' ≡ some val)
        × ((k : ℕ) → (reg ≡ k → ⊥) → read_sreg k c' ≡ read_sreg k c)
  unfolding set_sreg_handler write_sreg read_sreg
  interrupt-set_sreg size reg val harg c d s a f big w4 w5 at n small =
      let p4 = word-packet_of size 4 reg c (omega arith) (omega arith) w4 in
      let p5 = word-packet_of size 5 val c (omega arith) (omega arith) w5 in
      let at' : (c.sregs_at == 0) ≡ false = ground arith in
      let room : ltb reg (length c.sregs) ≡ true = ground arith in
      let hand : set_sreg_handler (packet_of size c) (taken c)
          ≡ some (record (taken c) { sregs = set c.sregs reg val }) =
        rw (set_sreg_handler, p4, p5, at', room) in
      (
        record (taken c) { sregs = set c.sregs reg val },
        interrupt_lem cmd_set_sreg size c d s _ a f
            ∙ run_set_sreg _ (taken c) _ (set_dchain d) s harg hand,
        rw at' (get_elem?-set_self c.sregs reg val (omega arith)),
        λ k ne. rw at' (get_elem?-set_ne c.sregs reg k val ne),
      )
