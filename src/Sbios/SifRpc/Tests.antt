-- ===== src/Sbios/SifRpc/Tests.antt =====
-- A small packet table, runs of the requests and answers, and the theorems at these states.
use kernelreloaded.Common.Bits.{bit}
use kernelreloaded.Common.{
  ℕ, zero, suc, ◌≡◌, refl, sym, inl, inr, true, false, none, some, [], ◌∷◌, arith, ◌==◌,
  if◌then◌else◌,
}
use kernelreloaded.Sbios.SifRpc.Table.{
  Rpc, Client, Ptr, no_packet, packet_at, allocated, get_packet, pkt_send, bind,
}
use kernelreloaded.Sbios.SifRpc.Request.{BindArgs, CallArgs, Command, bind_rpc, call_rpc}
use kernelreloaded.Sbios.SifRpc.Reply.{Answer, request_end}
use kernelreloaded.Sbios.SifRpc.Packets.{Got, get_packet-Got}
use kernelreloaded.Sbios.SifRpc.Ownership.{Inv}
use kernelreloaded.Sbios.SifRpc.Requests.{Outcome, bind_rpc-Outcome, call_rpc-Outcome}
use kernelreloaded.Sbios.SifRpc.Answers.{request_end-Inv}
use kernelreloaded.Sbios.SifRpc.Rejected.{bind_rpc-stuck}

abbrev idle_client : Client
idle_client = record {
  pkt_addr = none;
  rpc_id = 0;
  sema_id = 0;
  command = 0;
  buff = 0;
  cbuff = 0;
  end_function = 0;
  end_param = 0;
  server = 0;
}

abbrev pub fresh : Rpc
fresh = record { pid = 1; packets = no_packet ∷ no_packet ∷ []; clients = λ c. idle_client }

accepts : Command → Rpc → Unit {0} → ℕ × Unit {0}
accepts k r s = (1, s)

rejects : Command → Rpc → Unit {0} → ℕ × Unit {0}
rejects k r s = (0, s)

abbrev bind_args : BindArgs
bind_args = record { sid = 0x8000_0003; mode = 1; end_function = 5; end_param = 6 }

abbrev call_args : CallArgs
call_args = record {
  rpc_number = 1;
  mode = 1;
  send = 0x100;
  send_size = 4;
  receive = 0x100;
  recv_size = 4;
  end_function = 5;
  end_param = 6;
}

free_everywhere : (p : ℕ) → allocated (packet_at fresh p) ≡ true → ⊥
unfolding bit
free_everywhere zero a = ground arith
free_everywhere (suc zero) a = ground arith
free_everywhere (suc (suc p)) a = ground arith

pub fresh-Inv : Inv fresh []
fresh-Inv = record {
  within = λ c p e. ground arith;
  marked = λ c p e. ground arith;
  names = λ c p e. ground arith;
  apart = λ c p e. refl;
  kept = λ p h. ground arith;
  owner = λ p a. absurd (free_everywhere p a);
}

bind_rpc-Outcome_example : Outcome 3 [] (fresh, tt) (bind_rpc accepts 3 bind_args [] (fresh, tt))
unfolding accepts bit
bind_rpc-Outcome_example =
    bind_rpc-Outcome accepts fresh tt 3 [] fresh-Inv (λ k q e. omega arith) bind_args refl

call_rpc-Outcome_example : Outcome 3 [] (fresh, tt) (call_rpc accepts 3 call_args [] (fresh, tt))
unfolding accepts bit
call_rpc-Outcome_example =
    call_rpc-Outcome accepts fresh tt 3 [] fresh-Inv (λ k q e. omega arith) call_args refl

-- Client 3 has a request under way in packet 0.
abbrev pub waiting : Rpc
waiting = record {
  pid = 2;
  packets =
      record { rec_id = 5; rpc_id = 2; pkt_addr = some 0; client = 3; body = bind 7 }
      ∷ no_packet
      ∷ [];
  clients = λ c.
      if c == 3
      then record idle_client { pkt_addr = some 0; rpc_id = 2; end_function = 5 }
      else idle_client;
}

waiting_owner :
    (p : ℕ)
    → allocated (packet_at waiting p) ≡ true
    → (waiting.clients (packet_at waiting p).client).pkt_addr ≡ some p
unfolding bit
waiting_owner zero a = refl
waiting_owner (suc zero) a = ground arith
waiting_owner (suc (suc p)) a = ground arith

first : (c p : ℕ) → (waiting.clients c).pkt_addr ≡ some p → (p ≡ 0) × (c ≡ 3)
first c p e = ground arith

pub waiting-Inv : Inv waiting []
unfolding bit
waiting-Inv = record {
  within = λ c p e. omega (arith, (first c p e).0);
  marked = λ c p e. rw (first c p e).0;
  names = λ c p e. rw (first c p e).0 (sym (first c p e).1);
  apart = λ c p e. refl;
  kept = λ p h. ground arith;
  owner = λ p a. inr (waiting_owner p a);
}

abbrev pub answer : Answer
answer = record { client = 3; cid = 0x8000_0009; server = 9; buff = 0x300; cbuff = 0 }

quiet : Ptr → Ptr → Rpc × Unit {0} → Rpc × Unit {0}
quiet f x st = st

request_end-Inv_example :
    (r' : Rpc) × (s' : Unit {0}) × (request_end quiet answer (waiting, tt) ≡ some (r', s'))
    × Inv r' []
    × (allocated (packet_at r' 0) ≡ false)
unfolding quiet
request_end-Inv_example =
    request_end-Inv quiet (λ f x hs st i. i) waiting tt answer [] waiting-Inv 0 refl

fresh-Got : (p : ℕ) × (r' : Rpc) × Got fresh p r'
unfolding get_packet
fresh-Got = elim (get_packet-Got fresh) [
  | inl full ↦ absurd (free_everywhere 0 (full.1 0 (omega arith)))
  | inr g ↦ g
]

bind_rpc-stuck_example :
    (r' : Rpc) × (s' : Unit {0}) × (bind_rpc rejects 3 bind_args [] (fresh, tt)
      ≡ some (pkt_send, r', s'))
    × ((r'.clients 3).pkt_addr ≡ some fresh-Got.0)
    × (allocated (packet_at r' fresh-Got.0) ≡ false)
unfolding rejects
bind_rpc-stuck_example =
    bind_rpc-stuck rejects fresh tt 3 bind_args (λ k q. refl) refl fresh-Got.0 fresh-Got.1
      fresh-Got.2
