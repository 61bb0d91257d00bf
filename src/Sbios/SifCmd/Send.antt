-- ===== src/Sbios/SifCmd/Send.antt =====
-- TGE/sbios/sifcmd.c: `sif_cmd_send` and `SifInitCmd`.
use kernelreloaded.Common.{
  ℕ, ◌+◌, ◌-◌, ◌*◌, ◌/◌, ◌%◌, ◌^◌, true, Option, none, some, List, [], ◌∷◌, ltb, ◌==◌,
  if◌then◌else◌, replicate,
}
use kernelreloaded.Sbios.SifDma.State.{Dma, Memory, Transfer, phys}
use kernelreloaded.Sbios.SifDma.Send.{set_dma}
use kernelreloaded.Sbios.SifDma.Access.{set_reg}
use kernelreloaded.Sbios.SifCmd.State.{
  Cmd, Ptr, Layout, null, change_addr, set_sreg, Handler, u32, cmd_packet_data_max, cmd_handler_max,
  cmd_change_saddr, kseg1addr,
}

-- The header of a packet, `tge_sifcmd_header_t`, is one quadword.
abbrev pub header : ℕ → Ptr → ℕ → ℕ → ℕ
header size dest fid option = size + dest * 2 ^ 32 + fid * 2 ^ 64 + option * 2 ^ 96

abbrev pub option_of : ℕ → ℕ
option_of q = q / 2 ^ 96 % u32

abbrev pub put_quad : ℕ → ℕ → Memory → Memory
put_quad a q m = record m { quad = λ x. if x == a then q else m.quad x }

-- The arguments of `sif_cmd_send` but its flags, which every caller gives as 0.
pub record Request : Type 0 where
  pub fid : ℕ
  pub packet : Ptr
  pub packet_size : ℕ
  pub src : Ptr
  pub dest : Ptr
  pub size : ℕ

-- `packet_size | (size << 8)`, of a packet size below 256.
abbrev pub size_field : ℕ → ℕ → ℕ
size_field packet_size size = packet_size + size * 2 ^ 8 % u32

-- The header that `sif_cmd_send` writes into the packet. With data the option is as it was.
unfoldable pub header_of : Request → ℕ → ℕ
header_of q old =
    if ltb 0 q.size
    then header (size_field q.packet_size q.size) q.dest q.fid (option_of old)
    else header q.packet_size 0 q.fid 0

-- The transfers of a command: the data, if any, then the packet.
unfoldable pub transfers : Request → Cmd → List Transfer
transfers q c =
    let packet : Transfer = record {
      src = q.packet;
      dest = c.iopbuf;
      size = q.packet_size;
      attr = 0x40 + 0x04;
    } in
    if ltb 0 q.size
    then record { src = q.src; dest = q.dest; size = q.size; attr = 0 } ∷ packet ∷ []
    else packet ∷ []

-- `-E_LIB_INVALID_ARG`, as the unsigned return value holds it.
abbrev pub invalid_arg : ℕ
invalid_arg = u32 - 0xd606

-- `sif_cmd_send`, with the memory in which the packet stands.
unfoldable pub cmd_send : Request → Cmd → Memory × Dma → Option (ℕ × Memory × Dma)
unfolding header_of transfers
cmd_send q c (m, d) =
    if ltb cmd_packet_data_max q.packet_size
    then some (invalid_arg, m, d)
    else (let at = phys q.packet in
        let m' = put_quad at (header_of q (m.quad at)) m in
        elim (set_dma m' (transfers q c) d) [ none ↦ none | some (id, d') ↦ some (id, m', d') ])

-- The structure as the critical section of `SifInitCmd` fills it.
abbrev pub init_data : Layout → Cmd → Cmd
init_data l c =
    let unset : Handler = record { handler = null; harg = 0 } in
    let table =
      record { handler = change_addr; harg = l.cmd_data }
      ∷ record { handler = set_sreg; harg = l.cmd_data }
      ∷ replicate (cmd_handler_max - 2) unset in
    record c {
      initialized = true;
      pktbuf_at = kseg1addr l.pktbuf;
      cmdbuf_at = kseg1addr l.cmdbuf;
      iopbuf = 0;
      sys_handlers = l.sys_buffer;
      nr_sys = 32;
      usr_handlers = 0;
      nr_usr = 0;
      sregs_at = l.sregs;
      sregs = replicate 32 0;
      tables = λ p. if p == l.sys_buffer then table else c.tables p;
    }

-- The packet with which `SifInitCmd` tells the IOP the receive address.
abbrev pub init_request : Layout → Request
init_request l = record {
  fid = cmd_change_saddr;
  packet = l.init_pkt;
  packet_size = 20;
  src = 0;
  dest = 0;
  size = 0;
}

-- `SifInitCmd`.
unfoldable pub init_cmd : Layout → Cmd × Memory × Dma → Option (Cmd × Memory × Dma)
init_cmd l (c, m, d) =
    if c.initialized
    then some (c, m, d)
    else (let c' = record (init_data l c) { iopbuf = l.iopaddr } in
        let buf_at = phys (l.init_pkt + 16) in
        let m' = put_quad buf_at (m.quad buf_at / u32 * u32 + phys c'.pktbuf_at) m in
        elim (cmd_send (init_request l) c' (m', d)) [
          | none ↦ none
          | some (id, m'', d') ↦ elim (set_reg cmd_change_saddr c'.iopbuf [] d') [
            | none ↦ none
            | some (v, d'') ↦ elim (set_reg 0x8000_0001 l.cmd_data [] d'') [
              | none ↦ none
              | some (w, d''') ↦ some (c', m'', d''')
            ]
          ]
        ])
