-- ===== src/Sbios/SifRpc/Rejected.antt =====
-- A request whose command the ring does not take: the packet is freed, but the client stays tied
-- to it, and every later request of that client is refused.
use kernelreloaded.Common.{
  ℕ, ◌%◌, ◌<◌, ◌≡◌, refl, ap, ◌∙◌, inl, inr, false, none, some, [], arith, ==_refl, length,
  length-set,
}
use kernelreloaded.Sbios.SifRpc.Table.{
  Rpc, Packet, Client, packet_at, allocated, put_packet, put_client, free_packet, pkt_alloc,
  pkt_send, bind,
}
use kernelreloaded.Sbios.SifRpc.Request.{
  BindArgs, CallArgs, Command, bind_command, bind_client, bind_rpc, call_rpc,
}
use kernelreloaded.Sbios.SifRpc.Packets.{free_packet-freed, Got, get_packet-Got}

module _ {S : Type 0} (send_cmd : Command → Rpc → S → ℕ × S) where
  -- While a client is tied to a packet, both requests fail for it, whatever the rest of the state,
  -- and leave the clients as they were.
  pub busy_refused :
      (r : Rpc) (s : S) (c q : ℕ) (b : BindArgs) (a : CallArgs)
      → (r.clients c).pkt_addr ≡ some q
      → a.receive % 16 ≡ 0
      → (r' : Rpc) × (r'.clients ≡ r.clients)
        × (bind_rpc send_cmd c b [] (r, s) ≡ some (pkt_alloc, r', s))
        × (call_rpc send_cmd c a [] (r, s) ≡ some (pkt_alloc, r', s))
  unfolding bind_rpc call_rpc free_packet
  busy_refused r s c q b a busy even = elim (get_packet-Got r) [
    | inl full ↦ (r, refl, rw (full.0, bind_rpc), rw (even, full.0, call_rpc))
    | inr (p, r', g) ↦
        let busy' = ap (λ (f : ℕ → Client). (f c).pkt_addr) g.clients ∙ busy in
        (
          free_packet p r',
          g.clients,
          rw (g.run, bind_rpc, busy'),
          rw (even, g.run, call_rpc, busy'),
        )
  ]

  -- If `SifSendCmd` returns 0, `SifBindRpc` frees the packet again and returns -E_SIF_PKT_SEND, but
  -- the client is left with a pointer to that packet.
  pub bind_rpc-stuck :
      (r : Rpc) (s : S) (c : ℕ) (a : BindArgs)
      → ((k : Command) (q : Rpc) → (send_cmd k q s).0 ≡ 0)
      → (r.clients c).pkt_addr ≡ none
      → (p : ℕ) (r0 : Rpc) → Got r p r0
      → (r' : Rpc) × (s' : S) × (bind_rpc send_cmd c a [] (r, s) ≡ some (pkt_send, r', s'))
        × ((r'.clients c).pkt_addr ≡ some p)
        × (allocated (packet_at r' p) ≡ false)
  unfolding bind_rpc free_packet
  bind_rpc-stuck r s c a fails lone p r0 g =
      let lone' = ap (λ (f : ℕ → Client). (f c).pkt_addr) g.clients ∙ lone in
      let v : Client = bind_client send_cmd a p (packet_at r0 p).rpc_id (r0.clients c) in
      let filled : Packet = record (packet_at r0 p) {
        pkt_addr = some p;
        client = c;
        body = bind a.sid;
      } in
      let q : Rpc = put_packet p filled (put_client c v r0) in
      let k = bind_command send_cmd p in
      let room : p < length q.packets =
        omega (arith, g.size, g.within, length-set r0.packets p filled) in
      (
        free_packet p q,
        (send_cmd k q s).1,
        rw (g.run, bind_rpc, lone', fails k q),
        rw (==_refl c),
        free_packet-freed q p room,
      )
