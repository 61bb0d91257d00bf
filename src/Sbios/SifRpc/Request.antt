-- ===== src/Sbios/SifRpc/Request.antt =====
-- TGE/sbios/sifrpc.c: `SifBindRpc` and `SifCallRpc`.
use kernelreloaded.Common.Bits.{bit}
use kernelreloaded.Common.{
  ℕ, ◌-◌, ◌%◌, Bool, ◌&&◌, Option, none, some, List, [], ◌∷◌, ◌==◌, if◌then◌else◌, ℤ, pos,
}
use kernelreloaded.Sbios.SifRpc.Table.{
  Ptr, Body, bind, call, Client, Rpc, rpc_packet_size, pkt_alloc, pkt_send, invalid_arg, packet_at,
  put_packet, put_client, get_packet, free_packet,
}

-- The arguments of `SifSendCmd`; the packet by its index.
pub record Command : Type 0 where
  pub fid : ℕ
  pub packet : ℕ
  pub packet_size : ℕ
  pub src : Ptr
  pub dest : Ptr
  pub size : ℕ

abbrev pub no_wait : ℕ → Bool
no_wait mode = bit mode 0

-- What the caller of `SifBindRpc` gives.
pub record BindArgs : Type 0 where
  pub sid : ℕ
  pub mode : ℕ
  pub end_function : Ptr
  pub end_param : Ptr

-- What the caller of `SifCallRpc` gives.
pub record CallArgs : Type 0 where
  pub rpc_number : ℕ
  pub mode : ℕ
  pub send : Ptr
  pub send_size : ℕ
  pub receive : Ptr
  pub recv_size : ℕ
  pub end_function : Ptr
  pub end_param : Ptr

module _ {S : Type 0} (send_cmd : Command → Rpc → S → ℕ × S) where
  -- The loop of a blocking request: the list holds what the interrupts do in the successive rounds.
  -- `none` means still waiting.
  unfoldable pub await : ℕ → List (Rpc × S → Rpc × S) → Rpc × S → Option (Rpc × S)
  await c [] (r, s) =
      if (r.clients c).sema_id == 0
      then none
      else some (put_client c (record (r.clients c) { sema_id = (r.clients c).sema_id - 1 }) r, s)
  await c (f ∷ fs) (r, s) =
      let again = await c fs (f (r, s)) in
      if (r.clients c).sema_id == 0
      then again
      else some (put_client c (record (r.clients c) { sema_id = (r.clients c).sema_id - 1 }) r, s)

  -- The end of a request: the packet is sent, and freed again where that fails.
  unfoldable pub submit :
      ℕ → ℕ → ℕ → Command → List (Rpc × S → Rpc × S) → Rpc × S → Option (ℤ × Rpc × S)
  unfolding await
  submit c p mode command rounds (r, s) =
      let (sent, s') = send_cmd command r s in
      if sent == 0
      then some (pkt_send, free_packet p r, s')
      else if no_wait mode
      then some (pos 0, r, s')
      else elim (await c rounds (r, s')) [ none ↦ none | some (r', s'') ↦ some (pos 0, r', s'') ]

  unfoldable pub bind_command : ℕ → Command
  bind_command p = record {
    fid = 0x8000_0009;
    packet = p;
    packet_size = rpc_packet_size;
    src = 0;
    dest = 0;
    size = 0;
  }

  -- The client as `SifBindRpc` ties it to the packet, and the packet as it fills it.
  unfoldable pub bind_client : BindArgs → ℕ → ℕ → Client → Client
  bind_client a p rpc_id c = record c {
    end_function = a.end_function;
    end_param = a.end_param;
    command = 0;
    server = 0;
    pkt_addr = some p;
    rpc_id = rpc_id;
    sema_id = 0;
  }

  -- `SifBindRpc`.
  unfoldable pub bind_rpc : ℕ → BindArgs → List (Rpc × S → Rpc × S) → Rpc × S → Option (ℤ × Rpc × S)
  unfolding submit bind_command bind_client
  bind_rpc c a rounds (r, s) = elim (get_packet r) [
    | none ↦ some (pkt_alloc, r, s)
    | some (p, r') ↦ elim (r'.clients c).pkt_addr [
      | some _ ↦ some (pkt_alloc, free_packet p r', s)
      | none ↦
          let packet = packet_at r' p in
          let tied = put_client c (bind_client a p packet.rpc_id (r'.clients c)) r' in
          let filled =
            put_packet p (record packet { pkt_addr = some p; client = c; body = bind a.sid })
              tied in
          submit c p a.mode (bind_command p) rounds (filled, s)
    ]
  ]

  unfoldable pub call_command : ℕ → CallArgs → Ptr → Command
  call_command p a buff = record {
    fid = 0x8000_000a;
    packet = p;
    packet_size = rpc_packet_size;
    src = a.send;
    dest = buff;
    size = a.send_size;
  }

  unfoldable pub call_client : CallArgs → ℕ → ℕ → Client → Client
  call_client a p rpc_id c = record c {
    end_function = a.end_function;
    end_param = a.end_param;
    pkt_addr = some p;
    rpc_id = rpc_id;
    sema_id = 0;
  }

  -- Without a wait and without an end function no answer packet is asked for.
  unfoldable pub call_body : CallArgs → Ptr → Body
  call_body a server =
      call a.rpc_number a.send_size a.receive a.recv_size
        (if no_wait a.mode && (a.end_function == 0) then 0 else 1) server

  -- `SifCallRpc`.
  unfoldable pub call_rpc : ℕ → CallArgs → List (Rpc × S → Rpc × S) → Rpc × S → Option (ℤ × Rpc × S)
  unfolding submit call_command call_client call_body
  call_rpc c a rounds (r, s) =
      if a.receive % 16 == 0
      then elim (get_packet r) [
        | none ↦ some (pkt_alloc, r, s)
        | some (p, r') ↦ elim (r'.clients c).pkt_addr [
          | some _ ↦ some (pkt_alloc, free_packet p r', s)
          | none ↦
              let packet = packet_at r' p in
              let client = r'.clients c in
              let tied = put_client c (call_client a p packet.rpc_id client) r' in
              let filled =
                put_packet p
                  (record packet {
                    pkt_addr = some p;
                    client = c;
                    body = call_body a client.server;
                  })
                  tied in
              submit c p a.mode (call_command p a client.buff) rounds (filled, s)
        ]
      ]
      else some (invalid_arg, r, s)
