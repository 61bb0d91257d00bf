-- ===== src/Sbios/SifRpc/Server/Request.antt =====
-- TGE/sbios/sifrpc.c: the commands by which the IOP binds to a server, calls it and fetches data.
-- The server's function, `SifSendCmd`, `iSifSendCmd` and `SifSetDma` are parameters over a state `S`
-- of the rest of the machine; they are given the contents of the packet that they are to send.
use kernelreloaded.Common.{
  ltb, length, ◌/◌, ◌%◌, ◌^◌, some, get_elem?, set, none, Option, ◌>>=◌, [], ◌∷◌, ◌==◌,
  if◌then◌else◌, ℕ, List,
}
use kernelreloaded.Common.Bits.{bit}
use kernelreloaded.Sbios.SifRpc.Table.{Ptr}
use kernelreloaded.Sbios.SifRpc.Server.{
  Server, Rend, Side, put_server, put_queue, get_fpacket, get_fpacket2, search_svdata,
  get_next_request,
}

-- The fields of `SifRpcBindPkt_t` that are read.
pub record BindPacket : Type 0 where
  pub pkt_addr : Ptr
  pub client : Ptr
  pub sid : ℕ

-- The fields of `SifRpcCallPkt_t` that are read.
pub record CallPacket : Type 0 where
  pub rec_id : ℕ
  pub pkt_addr : Ptr
  pub client : Ptr
  pub rpc_number : ℕ
  pub send_size : ℕ
  pub receive : Ptr
  pub recv_size : ℕ
  pub rmode : ℕ
  pub server : ℕ

-- The fields of `SifRpcOtherDataPkt_t` that are read.
pub record DataPacket : Type 0 where
  pub pkt_addr : Ptr
  pub receive : Ptr
  pub src : Ptr
  pub dest : Ptr
  pub size : ℕ

-- What a transfer carries: bytes from an address, or a packet of the table.
pub data Source : Type 0 where
  bytes : Ptr → Source
  packet : Rend → Source

-- `tge_sifdma_transfer_t`, without attributes.
pub record Dmat : Type 0 where
  pub src : Source
  pub dest : Ptr
  pub size : ℕ

-- A packet of the table is written; a place behind the table is not there.
abbrev pub put_rend : ℕ → Rend → Side → Option Side
put_rend p v st =
    if ltb p (length st.rdata_table)
    then some (record st { rdata_table = set st.rdata_table p v })
    else none

-- The packet that `_request_bind` sends, in place of an older one.
abbrev pub bind_reply : BindPacket → Side → Option ℕ → Rend → Rend
bind_reply b st found rend =
    let r : Rend = record rend { pkt_addr = b.pkt_addr; client = b.client; cid = 0x8000_0009 } in
    elim found [
      | none ↦ record r { server = none; buff = 0; cbuff = 0 }
      | some i ↦ elim (get_elem? st.servers i) [
        | none ↦ record r { server = some i; buff = 0; cbuff = 0 }
        | some s ↦ record r { server = some i; buff = s.buff; cbuff = s.cbuff }
      ]
    ]

-- The server with the request, as `_request_call` leaves it.
abbrev pub requested : CallPacket → Server → Server
requested c s = record s {
  pkt_addr = c.pkt_addr;
  client = c.client;
  rpc_number = c.rpc_number;
  size = c.send_size;
  receive = c.receive;
  rsize = c.recv_size;
  rmode = c.rmode;
  rid = c.rec_id;
}

-- The server is put behind the last one that waits.
unfoldable pub enqueue : ℕ → ℕ → Side → Option Side
enqueue i qd st = do
  q ← get_elem? st.queues qd
  elim q.start [
    | none ↦ some (put_queue qd (record q { start = some i; end = some i }) st)
    | some first ↦ do
      last ← q.end
      l ← get_elem? st.servers last
      some (
          put_queue qd (record q { end = some i })
            (put_server last (record l { link = some i }) st))
  ]

module _ {S : Type 0} where
  -- The loop around `SifSetDma`; in each further round the rest of the machine goes on.
  unfoldable pub send_dma : (Dmat → S → ℕ × S) → List (S → S) → Dmat → S → Option S
  send_dma set_dma [] t s = let (id, s') = set_dma t s in if id == 0 then none else some s'
  send_dma set_dma (r ∷ rs) t s =
      let (id, s') = set_dma t s in
      let rest = send_dma set_dma rs t (r s') in if id == 0 then rest else some s'

  module _ (func : (function : Ptr) (rpc_number : ℕ) (buff : Ptr) (size : ℕ) → S → Ptr × S)
      (send_cmd : Rend → (src dest : Ptr) (size : ℕ) → S → ℕ × S) (set_dma : Dmat → S → ℕ × S) where
    -- `_request_bind`
    unfoldable pub request_bind : BindPacket → Side × S → Option (Side × S)
    request_bind b (st, s) =
        let (p, st') = get_fpacket st in
        do
          old ← get_elem? st'.rdata_table p
          found ← search_svdata b.sid st'
          let rend = bind_reply b st' found old
          st'' ← put_rend p rend st'
          some (st'', (send_cmd rend 0 0 0 s).1)

    -- `_request_rdata`
    unfoldable pub request_rdata : DataPacket → Side × S → Option (Side × S)
    request_rdata d (st, s) =
        let (p, st') = get_fpacket st in
        do
          old ← get_elem? st'.rdata_table p
          let rend : Rend = record old {
            pkt_addr = d.pkt_addr;
            client = d.receive;
            cid = 0x8000_000c;
          }
          st'' ← put_rend p rend st'
          some (st'', (send_cmd rend d.src d.dest d.size s).1)

    -- `SifExecRequest` once the function has returned `rec` and the packet `p` is taken.
    unfoldable pub exec_reply :
        List (S → S) → (sd : Server) (rec : Ptr) (p : ℕ) → Side × S → Option (Side × S)
    unfolding send_dma
    exec_reply rounds sd rec p (st, s) = do
      old ← get_elem? st.rdata_table p
      let rend : Rend = record old { client = sd.client; cid = 0x8000_000a; rpc_id = 0 }
      let sent = if sd.rmode == 0 then (1, s) else send_cmd rend rec sd.receive sd.rsize s
      let rend' : Rend = record rend { rec_id = 0 }
      let t : Dmat =
          if sd.rsize == 0
          then record { src = packet rend'; dest = sd.pkt_addr; size = 64 }
          else record { src = bytes rec; dest = sd.receive; size = sd.rsize }
      let stopped = put_rend p rend st >>= (λ st'. some (st', sent.1))
      let ended = do
        st' ← put_rend p rend' st
        s' ← send_dma set_dma rounds t sent.1
        some (st', s')
      if sent.0 == 0 then stopped else ended

    -- `SifExecRequest`
    unfoldable pub exec_request : List (S → S) → Server → Side × S → Option (Side × S)
    unfolding exec_reply get_fpacket2
    exec_request rounds sd (st, s) =
        let (rec, s') = func sd.func sd.rpc_number sd.buff sd.size s in
        if bit sd.rid 2
        then (do
          (p, st') ← get_fpacket2 (sd.rid / 2 ^ 16 % 2 ^ 16) st
          exec_reply rounds sd rec p (st', s'))
        else (let (p, st') = get_fpacket st in exec_reply rounds sd rec p (st', s'))

    -- `_request_call`
    unfoldable pub request_call : List (S → S) → CallPacket → Side × S → Option (Side × S)
    unfolding enqueue get_next_request exec_request
    request_call rounds c (st, s) = do
      sd ← get_elem? st.servers c.server
      st' ← enqueue c.server sd.base st
      sd' ← get_elem? st'.servers c.server
      (next, st'') ← get_next_request sd.base (put_server c.server (requested c sd') st')
      elim next [
        | none ↦ some (st'', s)
        | some i ↦ do v ← get_elem? st''.servers i; exec_request rounds v (st'', s)
      ]
