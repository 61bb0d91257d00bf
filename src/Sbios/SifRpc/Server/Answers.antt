-- ===== src/Sbios/SifRpc/Server/Answers.antt =====
-- The answer to a request to bind, while one queue with one server is registered.
use kernelreloaded.Common.{
  ltb, true, get_elem?-some, length, length-set, ◌<◌, arith, ◌∙◌, get_elem?, inr, inl, set,
  Bool-cases, none, ◌≡◌, some, ◌==◌, if◌then◌else◌, ℕ, List, refl,
}
use kernelreloaded.Sbios.SifRpc.Table.{Ptr}
use kernelreloaded.Sbios.SifRpc.Server.{table_len, Side, Rend, get_fpacket}
use kernelreloaded.Sbios.SifRpc.Server.Request.{
  BindPacket, DataPacket, Dmat, bind_reply, put_rend, request_bind, request_rdata,
}
use kernelreloaded.Sbios.SifRpc.Server.Ready.{Registered, Ready, search_svdata-Ready}

-- The contents of the packets do not matter.
pub packets-Ready :
    {g : Registered} {st : Side} (ts : List Rend) (idx : ℕ)
    → length ts ≡ table_len
    → Ready g st
    → Ready g (record st { rdata_table = ts; rdata_table_idx = idx })
packets-Ready ts idx l r = record {
  server = r.server;
  queue = r.queue;
  server_at = r.server_at;
  queue_at = r.queue_at;
  serves = r.serves;
  idle = r.idle;
  active = r.active;
  table = l;
}

-- The packet that `_rpc_get_fpacket` takes is one of the table.
pub taken_packet :
    {g : Registered} (st : Side) → Ready g st → (get_fpacket st).0 < length st.rdata_table
taken_packet st r = omega (arith, r.table)

-- A packet of the table is there, and takes another value.
pub packet_there :
    (st : Side) (p : ℕ)
    → p < length st.rdata_table
    → (old : Rend) × (get_elem? st.rdata_table p ≡ some old)
packet_there st p l = get_elem?-some st.rdata_table p l

pub put_rend_lem :
    {g : Registered} (st : Side) (p : ℕ) (v : Rend)
    → p < length st.rdata_table
    → Ready g st
    → (st' : Side) × (put_rend p v st ≡ some st') × Ready g st'
put_rend_lem st p v l r =
    let t : ltb p (length st.rdata_table) ≡ true = ground (arith, l) in
    (
      record st { rdata_table = set st.rdata_table p v },
      rw t refl,
      packets-Ready (set st.rdata_table p v) st.rdata_table_idx
          (length-set st.rdata_table p v ∙ r.table) r,
    )

-- The answer to a bind: the server, when it is the one that is asked for.
pub record BindAnswer (g : Registered) (b : BindPacket) (reply : Rend) : Type 0 where
  pub client : reply.client ≡ b.client
  pub pkt_addr : reply.pkt_addr ≡ b.pkt_addr
  pub cid : reply.cid ≡ 0x8000_0009
  pub server : reply.server ≡ (if g.sid == b.sid then some g.sd else none)
  pub buff : reply.buff ≡ (if g.sid == b.sid then g.buff else 0)
  pub cbuff : reply.cbuff ≡ (if g.sid == b.sid then g.cbuff else 0)

pub bind_reply-BindAnswer :
    (g : Registered) (b : BindPacket) (st : Side) (old : Rend)
    → Ready g st
    → BindAnswer g b (bind_reply b st (if g.sid == b.sid then some g.sd else none) old)
bind_reply-BindAnswer g b st old r = elim (Bool-cases (g.sid == b.sid)) [
  | inl e ↦ record {
    client = rw (e, bind_reply, r.server_at) refl;
    pkt_addr = rw (e, bind_reply, r.server_at) refl;
    cid = rw (e, bind_reply, r.server_at) refl;
    server = rw (e, bind_reply, r.server_at) refl;
    buff = rw (e, bind_reply, r.server_at) r.serves.buff;
    cbuff = rw (e, bind_reply, r.server_at) r.serves.cbuff;
  }
  | inr n ↦ record {
    client = rw n refl;
    pkt_addr = rw n refl;
    cid = rw n refl;
    server = rw n refl;
    buff = rw n refl;
    cbuff = rw n refl;
  }
]

module _ {S : Type 0}
    (func : (function : Ptr) (rpc_number : ℕ) (buff : Ptr) (size : ℕ) → S → Ptr × S)
    (send_cmd : Rend → (src dest : Ptr) (size : ℕ) → S → ℕ × S) (set_dma : Dmat → S → ℕ × S) where
  -- A request to bind, while one queue with one server is registered: the answer goes to the client
  -- that asked and names the server and its buffers when the number is that of the server, and
  -- nothing otherwise; the server stays ready.
  pub request_bind-BindAnswer :
      (g : Registered) (b : BindPacket) (st : Side) (s : S)
      → Ready g st
      → (st' : Side) × (reply : Rend) × (request_bind func send_cmd set_dma b (st, s)
          ≡ some (st', (send_cmd reply 0 0 0 s).1))
        × BindAnswer g b reply
        × Ready g st'
  unfolding request_bind
  request_bind-BindAnswer g b st s r =
      let (p, st1) = get_fpacket st in
      let r1 : Ready g st1 = packets-Ready st.rdata_table st1.rdata_table_idx r.table r in
      let l = taken_packet st r in
      let (old, got) = packet_there st1 p l in
      let reply = bind_reply b st1 (if g.sid == b.sid then some g.sd else none) old in
      let (st2, put, r2) = put_rend_lem st1 p reply l r1 in
      (
        st2,
        reply,
        rw (got, search_svdata-Ready g st1 b.sid r1, put) refl,
        bind_reply-BindAnswer g b st1 old r1,
        r2,
      )

  pub request_rdata-Ready :
      (g : Registered) (d : DataPacket) (st : Side) (s : S)
      → Ready g st
      → (st' : Side) × (s' : S) × (request_rdata func send_cmd set_dma d (st, s) ≡ some (st', s'))
        × Ready g st'
  unfolding request_rdata
  request_rdata-Ready g d st s r =
      let (p, st1) = get_fpacket st in
      let r1 : Ready g st1 = packets-Ready st.rdata_table st1.rdata_table_idx r.table r in
      let l = taken_packet st r in
      let (old, got) = packet_there st1 p l in
      let reply : Rend = record old {
        pkt_addr = d.pkt_addr;
        client = d.receive;
        cid = 0x8000_000c;
      } in
      let (st2, put, r2) = put_rend_lem st1 p reply l r1 in
      (st2, (send_cmd reply d.src d.dest d.size s).1, rw (got, put) refl, r2)
