-- ===== src/Sbios/SifRpc/Server/Calls.antt =====
-- The answer to a call, while one queue with one server is registered.
use kernelreloaded.Common.{
  length, ap₂, ltb, true, eq_of_==, ◌∙◌, get_elem?, get_elem?-set_self, lt-length_of_some, inr, inl,
  ◌⊎◌, Bool-cases, none, false, ◌≡◌, some, [], ◌∷◌, ◌==◌, if◌then◌else◌, ◌/◌, ◌%◌, ◌^◌, ◌<◌, ap,
  arith, ℕ, List, refl,
}
use kernelreloaded.Common.Bits.{bit}
use kernelreloaded.Sbios.SifRpc.Table.{Ptr}
use kernelreloaded.Sbios.SifRpc.Server.{
  Server, Queue, Side, Rend, table_len, get_fpacket, get_fpacket2, put_queue, put_server,
}
use kernelreloaded.Sbios.SifRpc.Server.Request.{
  bytes, packet, CallPacket, Dmat, requested, send_dma, exec_reply, exec_request, request_call,
}
use kernelreloaded.Sbios.SifRpc.Server.Ready.{Registered, Ready}
use kernelreloaded.Sbios.SifRpc.Server.Answers.{
  packets-Ready, taken_packet, packet_there, put_rend_lem,
}
use kernelreloaded.Sbios.SifRpc.Server.Queued.{waiting, served, enqueue_lem, next_lem, served-Ready}

-- The packet that the IOP asks the answer to be put into is one of the table, if it asks for one.
abbrev pub HasPacket : CallPacket → Type 0
HasPacket c = (bit c.rec_id 2 ≡ false) ⊎ (c.rec_id / 2 ^ 16 % 2 ^ 16 < table_len)

-- The header of the answer to a call.
pub record CallAnswer (c : CallPacket) (reply : Rend) : Type 0 where
  pub client : reply.client ≡ c.client
  pub cid : reply.cid ≡ 0x8000_000a
  pub rpc_id : reply.rpc_id ≡ 0

==_false : (a b : ℕ) → (a ≡ b → ⊥) → (a == b) ≡ false
==_false a b h = elim (Bool-cases (a == b)) [ inl e ↦ absurd (h (eq_of_== a b e)) | inr n ↦ n ]

module _ {S : Type 0}
    (func : (function : Ptr) (rpc_number : ℕ) (buff : Ptr) (size : ℕ) → S → Ptr × S)
    (send_cmd : Rend → (src dest : Ptr) (size : ℕ) → S → ℕ × S) (set_dma : Dmat → S → ℕ × S) where
  -- The request goes through the queue at once.
  call_step :
      (rounds : List (S → S)) (c : CallPacket) (st : Side) (s : S) (sd : Server) (q : Queue)
      → get_elem? st.servers c.server ≡ some sd
      → get_elem? st.queues sd.base ≡ some q
      → q.start ≡ none
      → request_call func send_cmd set_dma rounds c (st, s)
        ≡ exec_request func send_cmd set_dma rounds (requested c sd) (served c sd q st, s)
  unfolding request_call
  call_step rounds c st s sd q a b start =
      let q1 = waiting c q in
      let l = lt-length_of_some st.servers c.server sd a in
      let m = lt-length_of_some st.queues sd.base q b in
      let self = get_elem?-set_self st.servers c.server (requested c sd) l in
      let self' = get_elem?-set_self st.queues sd.base q1 m in
      let e1 = enqueue_lem c sd.base q st b start in
      let st2 = put_server c.server (requested c sd) (put_queue sd.base q1 st) in
      let e2 = next_lem sd.base c.server (requested c sd) q1 st2 self' refl self in
      rw (a, e1, a, e2, self) refl

  exec_step :
      (rounds : List (S → S)) (c : CallPacket) (sd : Server) (st : Side) (s : S)
      → HasPacket c
      → exec_request func send_cmd set_dma rounds (requested c sd) (st, s) ≡ (
          let run = func sd.func c.rpc_number sd.buff c.send_size s in
          let (p, st') = get_fpacket st in
          exec_reply func send_cmd set_dma rounds (requested c sd) run.0 p (st', run.1))
  unfolding exec_request get_fpacket2
  exec_step rounds c sd st s (inl no_packet) = rw no_packet refl
  exec_step rounds c sd st s (inr l) = elim (Bool-cases (bit c.rec_id 2)) [
    | inl e ↦
        let t : ltb (c.rec_id / 2 ^ 16 % 2 ^ 16) table_len ≡ true = ground (arith, l) in
        rw (e, t) refl
    | inr n ↦ rw n refl
  ]

  -- The transfer that ends the answer to a call.
  abbrev pub last_transfer : CallPacket → Ptr → Rend → Dmat
  last_transfer c rec reply =
      if c.recv_size == 0
      then record { src = packet (record reply { rec_id = 0 }); dest = c.pkt_addr; size = 64 }
      else record { src = bytes rec; dest = c.receive; size = c.recv_size }

  -- What becomes of the machine when the answer to a call is sent with the result at `rec`.
  abbrev pub delivered : CallPacket → Ptr → Rend → S → S
  delivered c rec reply s =
      let (id, s') = if c.rmode == 0 then (1, s) else send_cmd reply rec c.receive c.recv_size s in
      if id == 0 then s' else (set_dma (last_transfer c rec reply) s').1

  send_dma_lem :
      (rounds : List (S → S)) (t : Dmat) (s : S)
      → ((set_dma t s).0 ≡ 0 → ⊥)
      → send_dma set_dma rounds t s ≡ some (set_dma t s).1
  unfolding send_dma
  send_dma_lem [] t s h = let n = ==_false (set_dma t s).0 0 h in rw n refl
  send_dma_lem (r ∷ rs) t s h = let n = ==_false (set_dma t s).0 0 h in rw n refl

  abbrev answer : CallPacket → Rend → Rend
  answer c old = record old { client = c.client; cid = 0x8000_000a; rpc_id = 0 }

  module _ (taken : (t : Dmat) (s : S) → (set_dma t s).0 ≡ 0 → ⊥) where
    exec_reply_lem :
        (rounds : List (S → S)) (g : Registered) (c : CallPacket) (sd : Server) (rec : Ptr) (p : ℕ)
        (st : Side) (s : S)
        → Ready g st
        → p < length st.rdata_table
        → (st' : Side) × (old : Rend) × (exec_reply func send_cmd set_dma rounds
              (requested c sd)
              rec
              p
              (st, s)
            ≡ some (st', delivered c rec (answer c old) s))
          × Ready g st'
    unfolding exec_reply
    exec_reply_lem rounds g c sd rec p st s r l =
        let (old, got) = packet_there st p l in
        let reply = answer c old in
        let sent : ℕ × S =
          if c.rmode == 0 then (1, s) else send_cmd reply rec c.receive c.recv_size s in
        elim (Bool-cases (sent.0 == 0)) [
          | inl e ↦
              let (st', put, r') = put_rend_lem st p reply l r in
              (st', old, rw (got, e, put) refl, r')
          | inr n ↦
              let d = send_dma_lem rounds (last_transfer c rec reply) sent.1 (taken _ sent.1) in
              let (st', put, r') = put_rend_lem st p (record reply { rec_id = 0 }) l r in
              (st', old, rw (got, n, put, d) refl, r')
        ]

    -- A call of the registered server, when `SifSetDma` takes every transfer: the server's function
    -- runs once, on the number, the buffer and the size of the request; the answer goes to the client
    -- that asked, with the result and then the last transfer, and the server is ready for the next
    -- request. A packet that the request names must lie in the table.
    pub request_call-CallAnswer :
        (rounds : List (S → S)) (g : Registered) (c : CallPacket) (st : Side) (s : S)
        → Ready g st
        → c.server ≡ g.sd
        → HasPacket c
        → (st' : Side) × (reply : Rend) × (request_call func send_cmd set_dma rounds c (st, s)
            ≡ some (
              st',
              delivered c
                  (func g.func c.rpc_number g.buff c.send_size s).0
                  reply
                  (func g.func c.rpc_number g.buff c.send_size s).1,
            ))
          × CallAnswer c reply
          × Ready g st'
    request_call-CallAnswer rounds g c st s r e has_packet =
        let sd = r.server in
        let queue_at' = ap (get_elem? st.queues) r.serves.base ∙ r.queue_at in
        let step =
          call_step rounds c st s sd r.queue (ap (get_elem? st.servers) e ∙ r.server_at) queue_at'
            r.idle.start in
        let st1 = served c sd r.queue st in
        let r1 = served-Ready g c st r e in
        let (p, st2) = get_fpacket st1 in
        let r2 : Ready g st2 = packets-Ready st.rdata_table st2.rdata_table_idx r1.table r1 in
        let run = func sd.func c.rpc_number sd.buff c.send_size s in
        let (st3, old, sent, r3) =
          exec_reply_lem rounds g c sd run.0 p st2 run.1 r2 (taken_packet st1 r1) in
        let reply = answer c old in
        (
          st3,
          reply,
          step
              ∙ exec_step rounds c sd st1 s has_packet
              ∙ sent
              ∙ ap (λ y. some (st3, delivered c y.0 reply y.1))
                  (ap₂ (λ f b. func f c.rpc_number b c.send_size s) r.serves.func r.serves.buff),
          record { client = refl; cid = refl; rpc_id = refl },
          r3,
        )
