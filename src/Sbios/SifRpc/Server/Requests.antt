-- ===== src/Sbios/SifRpc/Server/Requests.antt =====
-- Any sequence of requests, from the registration of the server on.
use kernelreloaded.Common.{refl, length, some, none, Option, ◌>>=◌, [], ◌∷◌, ◌<◌, ◌≡◌, ℕ, List}
use kernelreloaded.Sbios.SifRpc.Table.{Ptr}
use kernelreloaded.Sbios.SifRpc.Server.{table_len, Side, Rend, register_rpc, set_rpc_queue}
use kernelreloaded.Sbios.SifRpc.Server.Request.{
  BindPacket, CallPacket, DataPacket, Dmat, request_bind, request_rdata, request_call,
}
use kernelreloaded.Sbios.SifRpc.Server.Ready.{Registered, Ready, register_rpc-Ready}
use kernelreloaded.Sbios.SifRpc.Server.Answers.{request_rdata-Ready, request_bind-BindAnswer}
use kernelreloaded.Sbios.SifRpc.Server.Calls.{HasPacket, request_call-CallAnswer}

-- A command of the IOP for the server side.
pub data Command : Type 0 where
  to_bind : BindPacket → Command
  to_call : CallPacket → Command
  to_fetch : DataPacket → Command

-- A call is one of the registered server, with a packet of the table.
abbrev pub IsProper : Registered → Command → Type 0
IsProper g (to_bind b) = Unit {0}
IsProper g (to_call c) = (c.server ≡ g.sd) × HasPacket c
IsProper g (to_fetch d) = Unit {0}

abbrev pub AllProper : Registered → List Command → Type 0
AllProper g [] = Unit {0}
AllProper g (c ∷ cs) = IsProper g c × AllProper g cs

module _ {S : Type 0}
    (func : (function : Ptr) (rpc_number : ℕ) (buff : Ptr) (size : ℕ) → S → Ptr × S)
    (send_cmd : Rend → (src dest : Ptr) (size : ℕ) → S → ℕ × S) (set_dma : Dmat → S → ℕ × S) where
  -- The handlers of the three commands.
  abbrev pub handle : List (S → S) → Command → Side × S → Option (Side × S)
  handle rounds (to_bind b) x = request_bind func send_cmd set_dma b x
  handle rounds (to_call c) x = request_call func send_cmd set_dma rounds c x
  handle rounds (to_fetch d) x = request_rdata func send_cmd set_dma d x

  abbrev pub commands : List (S → S) → List Command → Side × S → Option (Side × S)
  commands rounds [] x = some x
  commands rounds (c ∷ cs) x = handle rounds c x >>= commands rounds cs

  module _ (taken : (t : Dmat) (s : S) → (set_dma t s).0 ≡ 0 → ⊥) (rounds : List (S → S))
      (g : Registered) where
    handle-Ready :
        (c : Command) (st : Side) (s : S)
        → IsProper g c
        → Ready g st
        → (st' : Side) × (s' : S) × (handle rounds c (st, s) ≡ some (st', s')) × Ready g st'
    handle-Ready (to_bind b) st s proper r =
        let (st', reply, e, _, r') = request_bind-BindAnswer func send_cmd set_dma g b st s r in
        (st', _, e, r')
    handle-Ready (to_call c) st s (e', has_packet) r =
        let (st', reply, e, _, r') =
          request_call-CallAnswer func send_cmd set_dma taken rounds g c st s r e' has_packet in
        (st', _, e, r')
    handle-Ready (to_fetch d) st s proper r = request_rdata-Ready func send_cmd set_dma g d st s r

    commands-Ready :
        (cs : List Command) (st : Side) (s : S)
        → AllProper g cs
        → Ready g st
        → (st' : Side) × (s' : S) × (commands rounds cs (st, s) ≡ some (st', s')) × Ready g st'
    commands-Ready [] st s all r = (st, s, refl, r)
    commands-Ready (c ∷ cs) st s (proper, all) r =
        let (st1, s1, e, r1) = handle-Ready c st s proper r in
        let (st2, s2, e', r2) = commands-Ready cs st1 s1 all r1 in (st2, s2, rw e e', r2)

    -- From a state with no queue and the 32 packets of the table: when a queue and then a server are registered, and `SifSetDma` takes
    -- every transfer, then every sequence of requests to bind, calls of that server and requests for
    -- data is handled: no search goes on for ever, nothing is accessed at NULL or outside of the
    -- packets, and the server is ready again. A packet that a call names must lie in the table.
    pub commands-register_rpc :
        (cs : List Command) (cfunc : Ptr) (st : Side) (s : S)
        → st.active_queue ≡ none
        → length st.rdata_table ≡ table_len
        → g.sd < length st.servers
        → g.qd < length st.queues
        → AllProper g cs
        → (st1 : Side) × (st' : Side) × (s' : S) × ((set_rpc_queue g.qd st
              >>= (λ r. register_rpc g.sd g.sid g.func g.buff cfunc g.cbuff g.qd r.1))
            ≡ some (none, st1))
          × (commands rounds cs (st1, s) ≡ some (st', s'))
          × Ready g st'
    commands-register_rpc cs cfunc st s a table l m all =
        let (st1, e, r) = register_rpc-Ready g cfunc st a table l m in
        let (st', s', e', r') = commands-Ready cs st1 s all r in (st1, st', s', e, e', r')
