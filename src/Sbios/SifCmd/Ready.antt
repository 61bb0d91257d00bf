-- ===== src/Sbios/SifCmd/Ready.antt =====
-- TGE/sbios/sifcmd.c: what `SifInitCmd` leaves.
use kernelreloaded.Common.{
  ◌^◌, ◌∙◌, ltb, ℕ, zero, suc, ◌+◌, ◌*◌, ◌/◌, ◌%◌, ◌≤◌, ◌<◌, ◌≡◌, refl, ◌≢◌, true, false, none,
  some, arith, ◌==◌, ==_refl, get_elem?, set, replicate,
}
use kernelreloaded.Common.Bits.{bit, clear_bit}
use kernelreloaded.Sbios.SifDma.State.{Dma, Memory, phys}
use kernelreloaded.Sbios.SifDma.Send.{hw_index, free_dma_tags, suspend}
use kernelreloaded.Sbios.SifDma.Access.{set_reg}
use kernelreloaded.Sbios.SifDma.SetDma.{InRing}
use kernelreloaded.Sbios.SifCmd.State.{
  Cmd, Layout, change_addr, set_sreg, cmd_change_saddr, cmd_set_sreg, read_sreg, u32,
}
use kernelreloaded.Sbios.SifCmd.Send.{init_cmd, init_data, init_request, put_quad}
use kernelreloaded.Sbios.SifCmd.Dispatch.{find_handler}
use kernelreloaded.Sbios.SifCmd.Delivery.{Delivered, cmd_send-Delivered}

-- The command interface in working order: the two handlers of the system are found, the software
-- registers are 0, and the IOP's receive address is set.
pub record Ready (l : Layout) (c : Cmd) : Type 0 where
  pub on : c.initialized ≡ true
  pub address :
      find_handler cmd_change_saddr c
      ≡ some (some (record { handler = change_addr; harg = l.cmd_data }))
  pub sreg :
      find_handler cmd_set_sreg c ≡ some (some (record { handler = set_sreg; harg = l.cmd_data }))
  pub none_else : (fid : ℕ) → bit fid 31 ≡ false → find_handler fid c ≡ some none
  pub sregs : (k : ℕ) → k < 32 → read_sreg k c ≡ some 0
  pub iopbuf : c.iopbuf ≡ l.iopaddr

zeros : (n k : ℕ) → k < n → get_elem? {A = ℕ} (replicate n 0) k ≡ some 0
zeros zero k h = absurd (omega arith)
zeros (suc n) zero h = refl
zeros (suc n) (suc k) h = zeros n k (omega arith)

abbrev pub started : Layout → Cmd → Cmd
started l c = record (init_data l c) { iopbuf = l.iopaddr }

init_data-Ready : (l : Layout) (c : Cmd) → l.sys_buffer ≢ 0 → l.sregs ≢ 0 → Ready l (started l c)
unfolding find_handler read_sreg bit
init_data-Ready l c table sregs =
    let t : (l.sys_buffer == 0) ≡ false = ground arith in
    let s : (l.sregs == 0) ≡ false = ground arith in
    record {
      on = refl;
      address = rw (t, ==_refl l.sys_buffer);
      sreg = rw (t, ==_refl l.sys_buffer);
      none_else = λ fid user. (let n : ltb (fid % 2 ^ 31) 0 ≡ false = ground arith in rw (user, n));
      sregs = λ k h. rw s (zeros 32 k h);
      iopbuf = refl;
    }

-- The first `SifInitCmd` leaves the command interface in working order and sends the IOP the address
-- of the receive buffer: it stands behind the packet's header before the command is sent and in the
-- memory from which `SifSetDma` makes the transfer, and the two SIF registers hold the IOP's address
-- and that of the structure. A second call changes nothing. It takes three free tags, two tables that
-- are not NULL, and an interface that is not yet initialised.
pub init_cmd-Ready :
    (l : Layout) (c : Cmd) (m : Memory) (d : Dma)
    → l.sys_buffer ≢ 0
    → l.sregs ≢ 0
    → phys (l.init_pkt + 16) ≢ phys l.init_pkt
    → c.initialized ≡ false
    → InRing d
    → hw_index m d < 31
    → 3 ≤ free_dma_tags m (suspend d)
    → (c' : Cmd) × (m' : Memory) × (d1 : Dma) × (id : ℕ) × let d' : Dma = record d1 {
      reg_table = set (set d1.reg_table 0 l.iopaddr) 1 l.cmd_data;
    } in
        (init_cmd l (c, m, d) ≡ some (c', m', d'))
        × Ready l c'
        × (m'.quad (phys (l.init_pkt + 16)) % u32 ≡ phys c'.pktbuf_at)
        × ((m0 : Memory) × (m0.quad (phys (l.init_pkt + 16)) % u32 ≡ phys c'.pktbuf_at)
            × Delivered (init_request l) c' m0 d id m' d1)
        × (init_cmd l (c', m', d') ≡ some (c', m', d'))
unfolding init_cmd set_reg bit clear_bit hw_index free_dma_tags
init_cmd-Ready l c m d table sregs apart off ring hw free =
    let c' = started l c in
    let at = phys (l.init_pkt + 16) in
    let m0 = put_quad at (m.quad at / u32 * u32 + phys c'.pktbuf_at) m in
    let (id, m', d1, e, sent) =
      cmd_send-Delivered (init_request l) c' m0 d (omega arith) (omega arith) (omega arith)
        (omega arith) ring hw free in
    let ready = init_data-Ready l c table sregs in
    let kept : m'.quad at ≡ m.quad at / u32 * u32 + phys c'.pktbuf_at =
      sent.rest at apart ∙ rw (==_refl at) in
    let buffer : m'.quad at % u32 ≡ phys c'.pktbuf_at = omega (arith, kept) in
    let buffer0 : m0.quad at % u32 ≡ phys c'.pktbuf_at = rw (==_refl at) (omega arith) in
    (c', m', d1, id, (rw (off, e), ready, buffer, (m0, buffer0, sent), refl))
