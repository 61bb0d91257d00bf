-- ===== src/Sbios/SifRpc/Server/Ready.antt =====
-- One queue with one server, as the SBIOS registers them, stays in order.
use kernelreloaded.Common.{
  refl, length-set, inr, ◌∙◌, inl, get_elem?-set_self, false, ap, Bool-cases, arith, suc,
  get_elem?-some, length, ◌<◌, some, none, ◌≡◌, get_elem?, ◌>>=◌, ◌==◌, if◌then◌else◌, ℕ,
}
use kernelreloaded.Sbios.SifRpc.Table.{Ptr}
use kernelreloaded.Sbios.SifRpc.Server.{
  table_len, Server, Queue, Side, search_servers, search_queues, search_svdata, register_rpc,
  set_rpc_queue, put_queue, put_server,
}

-- What `SifRegisterRpc` is given, with the queue.
pub record Registered : Type 0 where
  pub sd : ℕ
  pub sid : ℕ
  pub func : Ptr
  pub buff : Ptr
  pub cbuff : Ptr
  pub qd : ℕ

-- The server's structure is as it was registered, and it is the only one of its queue.
pub record Serves (g : Registered) (v : Server) : Type 0 where
  pub sid : v.sid ≡ g.sid
  pub func : v.func ≡ g.func
  pub buff : v.buff ≡ g.buff
  pub cbuff : v.cbuff ≡ g.cbuff
  pub base : v.base ≡ g.qd
  pub link : v.link ≡ none
  pub next : v.next ≡ none

-- The queue holds the server, and no request waits in it.
pub record Idle (g : Registered) (q : Queue) : Type 0 where
  pub link : q.link ≡ some g.sd
  pub start : q.start ≡ none
  pub next : q.next ≡ none

pub record Ready (g : Registered) (st : Side) : Type 0 where
  pub server : Server
  pub queue : Queue
  pub server_at : get_elem? st.servers g.sd ≡ some server
  pub queue_at : get_elem? st.queues g.qd ≡ some queue
  pub serves : Serves g server
  pub idle : Idle g queue
  pub active : st.active_queue ≡ some g.qd
  pub table : length st.rdata_table ≡ table_len

-- `SifSetRpcQueue` for the first queue, and `SifRegisterRpc` for the first server.
pub register_rpc-Ready :
    (g : Registered) (cfunc : Ptr) (st : Side)
    → st.active_queue ≡ none
    → length st.rdata_table ≡ table_len
    → g.sd < length st.servers
    → g.qd < length st.queues
    → (st' : Side) × ((set_rpc_queue g.qd st
          >>= (λ r. register_rpc g.sd g.sid g.func g.buff cfunc g.cbuff g.qd r.1))
        ≡ some (none, st'))
      × Ready g st'
unfolding set_rpc_queue register_rpc
register_rpc-Ready g cfunc st a table l m =
    let (s, es) = get_elem?-some st.servers g.sd l in
    let (q, eq) = get_elem?-some st.queues g.qd m in
    let v : Server = record s {
      link = none;
      next = none;
      sid = g.sid;
      func = g.func;
      buff = g.buff;
      cfunc = cfunc;
      cbuff = g.cbuff;
      base = g.qd;
    } in
    let fresh : Queue = record {
      active = false;
      link = none;
      start = none;
      end = none;
      next = none;
    } in
    let w : Queue = record fresh { link = some g.sd } in
    let st1 : Side = record (put_queue g.qd fresh st) { active_queue = some g.qd } in
    let there = get_elem?-set_self st.queues g.qd fresh m in
    (
      put_queue g.qd w (put_server g.sd v st1),
      rw (eq, a, es, there) refl,
      record {
        server = v;
        queue = w;
        server_at = get_elem?-set_self st.servers g.sd v l;
        queue_at =
            get_elem?-set_self st1.queues g.qd w
              (omega (arith, m, length-set st.queues g.qd fresh));
        serves = record {
          sid = refl;
          func = refl;
          buff = refl;
          cbuff = refl;
          base = refl;
          link = refl;
          next = refl;
        };
        idle = record { link = refl; start = refl; next = refl };
        active = refl;
        table = table;
      },
    )

search_one :
    (g : Registered) (st : Side) (sid : ℕ)
    → Ready g st
    → search_servers (suc (length st.servers)) st.servers sid (some g.sd)
      ≡ some (if g.sid == sid then some g.sd else none)
unfolding search_servers
search_one g st sid r = elim (Bool-cases (g.sid == sid)) [
  | inl e ↦ rw (search_servers, r.server_at, r.serves.link, r.serves.sid, e) refl
  | inr n ↦ rw (search_servers, r.server_at, r.serves.link, r.serves.sid, n) refl
]

-- The search finds the server by its number, and it ends.
pub search_svdata-Ready :
    (g : Registered) (st : Side) (sid : ℕ)
    → Ready g st
    → search_svdata sid st ≡ some (if g.sid == sid then some g.sd else none)
unfolding search_svdata search_queues search_servers
search_svdata-Ready g st sid r =
    let one = search_one g st sid r in
    ap (search_queues (suc (length st.queues)) st sid) r.active ∙ elim (Bool-cases (g.sid == sid)) [
      | inl e ↦ rw (search_queues, r.queue_at, r.idle.link, one, e) refl
      | inr n ↦ rw (search_queues, r.queue_at, r.idle.link, one, n, r.idle.next) refl
    ]
