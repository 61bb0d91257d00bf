-- ===== src/Sbios/SifRpc/Server/Tests.antt =====
-- The server of the sound, with the number that sound.c gives it, in a machine that counts.
use kernelreloaded.Common.{
  inr, some, replicate, none, false, arith, ◌>>=◌, [], ◌∷◌, ◌≡◌, ◌+◌, ℕ, refl,
}
use kernelreloaded.Sbios.SifRpc.Table.{Ptr}
use kernelreloaded.Sbios.SifRpc.Server.{
  Server, Queue, Side, Rend, table_len, register_rpc, set_rpc_queue, get_fpacket2,
}
use kernelreloaded.Sbios.SifRpc.Server.Request.{
  BindPacket, CallPacket, Dmat, request_bind, request_call,
}
use kernelreloaded.Sbios.SifRpc.Server.Ready.{Registered, Ready, register_rpc-Ready}
use kernelreloaded.Sbios.SifRpc.Server.Answers.{BindAnswer, request_bind-BindAnswer}
use kernelreloaded.Sbios.SifRpc.Server.Calls.{CallAnswer, request_call-CallAnswer}
use kernelreloaded.Sbios.SifRpc.Server.Requests.{to_bind, to_call, commands, commands-register_rpc}

abbrev blank : Server
blank = record {
  sid = 0;
  func = 0;
  buff = 0;
  size = 0;
  cfunc = 0;
  cbuff = 0;
  client = 0;
  pkt_addr = 0;
  rpc_number = 0;
  receive = 0;
  rsize = 0;
  rmode = 0;
  rid = 0;
  link = none;
  next = none;
  base = 0;
}

abbrev blank_rend : Rend
blank_rend = record {
  rec_id = 0;
  pkt_addr = 0;
  rpc_id = 0;
  client = 0;
  cid = 0;
  server = none;
  buff = 0;
  cbuff = 0;
}

abbrev no_queue : Queue
no_queue = record { active = false; link = none; start = none; end = none; next = none }

abbrev cold : Side
cold = record {
  servers = blank ∷ blank ∷ [];
  queues = no_queue ∷ no_queue ∷ [];
  rdata_table = replicate table_len blank_rend;
  rdata_table_idx = 31;
  active_queue = none;
}

abbrev sound : Registered
sound = record { sd = 0; sid = 0x84910101; func = 7; buff = 0x2000; cbuff = 0; qd = 1 }

abbrev run : (function : Ptr) (rpc_number : ℕ) (buff : Ptr) (size : ℕ) → ℕ → Ptr × ℕ
run function rpc_number buff size s = (buff + rpc_number, s + size)

abbrev take_cmd : Rend → (src dest : Ptr) (size : ℕ) → ℕ → ℕ × ℕ
take_cmd reply src dest size s = (1, s + 100)

abbrev take_dmat : Dmat → ℕ → ℕ × ℕ
take_dmat t s = (1, s + 1000)

taken : (t : Dmat) (s : ℕ) → (take_dmat t s).0 ≡ 0 → ⊥
taken t s e = absurd (omega (arith, e))

abbrev warm : Side
warm = (register_rpc-Ready sound 0 cold refl refl (omega arith) (omega arith)).0

warm-Ready : Ready sound warm
warm-Ready = (register_rpc-Ready sound 0 cold refl refl (omega arith) (omega arith)).2

abbrev bind_packet : BindPacket
bind_packet = record { pkt_addr = 0x100; client = 0x200; sid = 0x84910101 }

abbrev call_packet : CallPacket
call_packet = record {
  rec_id = 0x30005;
  pkt_addr = 0x140;
  client = 0x200;
  rpc_number = 3;
  send_size = 16;
  receive = 0x300;
  recv_size = 8;
  rmode = 1;
  server = 0;
}

-- A second server on the same queue makes SifRegisterRpc write through NULL.
second_server_faults :
    register_rpc 1 5 0 0 0 0 0 (record cold { queues = record no_queue { link = some 0 } ∷ [] })
    ≡ none
unfolding register_rpc
second_server_faults = refl

-- A packet of client_table behind its end is taken when the number of the packet is too large.
far_packet : get_fpacket2 40 cold ≡ none
unfolding get_fpacket2
far_packet = refl

request_bind-BindAnswer_example :
    (st' : Side) × (reply : Rend) × (request_bind run take_cmd take_dmat bind_packet (warm, 0)
      ≡ some (st', 100))
    × BindAnswer sound bind_packet reply
    × Ready sound st'
request_bind-BindAnswer_example =
    request_bind-BindAnswer run take_cmd take_dmat sound bind_packet warm 0 warm-Ready

request_call-CallAnswer_example :
    (st' : Side) × (reply : Rend) × (request_call run take_cmd take_dmat [] call_packet (warm, 0)
      ≡ some (st', 1116))
    × CallAnswer call_packet reply
    × Ready sound st'
request_call-CallAnswer_example =
    request_call-CallAnswer run take_cmd take_dmat taken [] sound call_packet warm 0 warm-Ready refl
      (inr (omega arith))

commands-register_rpc_example :
    (st1 : Side) × (st' : Side) × (s' : ℕ) × ((set_rpc_queue 1 cold
        >>= (λ r. register_rpc 0 0x84910101 7 0x2000 0 0 1 r.1))
      ≡ some (none, st1))
    × (commands run take_cmd take_dmat [] (to_bind bind_packet ∷ to_call call_packet ∷ []) (st1, 0)
        ≡ some (st', s'))
    × Ready sound st'
commands-register_rpc_example =
    commands-register_rpc run take_cmd take_dmat taken [] sound
      (to_bind bind_packet ∷ to_call call_packet ∷ []) 0 cold 0 refl refl (omega arith)
      (omega arith) (tt, ((refl, inr (omega arith)), tt))
