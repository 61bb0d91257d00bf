-- ===== src/Sbios/SifRpc/Server.antt =====
-- TGE/sbios/sifrpc.c: the server side of the SIF RPC, by which the IOP calls functions of the SBIOS.
-- A pointer to a server or to a queue is its index in the list of these structures. The loops that
-- follow pointers take at most one round more than there are structures: a longer one goes in a
-- circle and does not end, which is `none`, as is an access at NULL or outside a table.
pub mod Request
pub mod Ready
pub mod Answers
pub mod Queued
pub mod Calls
pub mod Requests
mod Tests
use kernelreloaded.Common.{
  ◌>>=◌, [], ◌∷◌, ℕ, zero, suc, ◌+◌, ◌-◌, ◌/◌, ◌%◌, Bool, true, false, not, Option, none, some,
  List, ltb, ◌==◌, if◌then◌else◌, length, get_elem?, set,
}
use kernelreloaded.Sbios.SifRpc.Table.{Ptr}

-- `SifRpcServerData_t`
pub record Server : Type 0 where
  pub sid : ℕ
  pub func : Ptr
  pub buff : Ptr
  pub size : ℕ
  pub cfunc : Ptr
  pub cbuff : Ptr
  pub client : Ptr
  pub pkt_addr : Ptr
  pub rpc_number : ℕ
  pub receive : Ptr
  pub rsize : ℕ
  pub rmode : ℕ
  pub rid : ℕ
  pub link : Option ℕ
  pub next : Option ℕ
  pub base : ℕ

-- `SifRpcDataQueue_t`
pub record Queue : Type 0 where
  pub active : Bool
  pub link : Option ℕ
  pub start : Option ℕ
  pub end : Option ℕ
  pub next : Option ℕ

-- `SifRpcRendPkt_t` without its command header.
pub record Rend : Type 0 where
  pub rec_id : ℕ
  pub pkt_addr : Ptr
  pub rpc_id : ℕ
  pub client : Ptr
  pub cid : ℕ
  pub server : Option ℕ
  pub buff : Ptr
  pub cbuff : Ptr

-- The structures, and the fields of `struct rpc_data` for the server side.
pub record Side : Type 0 where
  pub servers : List Server
  pub queues : List Queue
  pub rdata_table : List Rend
  pub rdata_table_idx : ℕ
  pub active_queue : Option ℕ

-- `rdata_table_len` and `client_table_len`: 2048 / 64.
abbrev pub table_len : ℕ
table_len = 32

abbrev pub put_server : ℕ → Server → Side → Side
put_server i v st = record st { servers = set st.servers i v }

abbrev pub put_queue : ℕ → Queue → Side → Side
put_queue i v st = record st { queues = set st.queues i v }

-- `_rpc_get_fpacket`
abbrev pub get_fpacket : Side → ℕ × Side
get_fpacket st =
    let index = st.rdata_table_idx % table_len in (index, record st { rdata_table_idx = index + 1 })

-- `_rpc_get_fpacket2`, with `rid` of 16 bits; `none` is a packet behind `client_table`.
unfoldable pub get_fpacket2 : ℕ → Side → Option (ℕ × Side)
get_fpacket2 rid st = if ltb rid table_len then some (get_fpacket st) else none

-- The inner loop of `search_svdata`.
unfoldable pub search_servers : (rounds : ℕ) → List Server → ℕ → Option ℕ → Option (Option ℕ)
search_servers rounds ss sid none = some none
search_servers zero ss sid (some i) = none
search_servers (suc n) ss sid (some i) = elim (get_elem? ss i) [
  | none ↦ none
  | some s ↦
      let rest = search_servers n ss sid s.link in if s.sid == sid then some (some i) else rest
]

-- The outer loop of `search_svdata`.
unfoldable pub search_queues : (rounds : ℕ) → Side → ℕ → Option ℕ → Option (Option ℕ)
unfolding search_servers
search_queues rounds st sid none = some none
search_queues zero st sid (some i) = none
search_queues (suc n) st sid (some i) = elim (get_elem? st.queues i) [
  | none ↦ none
  | some q ↦
      let rest = search_queues n st sid q.next in
      elim (search_servers (suc (length st.servers)) st.servers sid q.link) [
        | none ↦ none
        | some none ↦ rest
        | some (some found) ↦ some (some found)
      ]
]

-- `search_svdata`
unfoldable pub search_svdata : ℕ → Side → Option (Option ℕ)
unfolding search_queues
search_svdata sid st = search_queues (suc (length st.queues)) st sid st.active_queue

-- `SifRegisterRpc`. Its loop over `next` ends with `server` NULL, which is then written through.
unfoldable pub register_rpc :
    (sd : ℕ) (sid : ℕ) (func buff cfunc cbuff : Ptr) (qd : ℕ) → Side → Option (Option ℕ × Side)
register_rpc sd sid func buff cfunc cbuff qd st = do
  old ← get_elem? st.servers sd
  q ← get_elem? st.queues qd
  let v : Server = record old {
    link = none;
    next = none;
    sid = sid;
    func = func;
    buff = buff;
    cfunc = cfunc;
    cbuff = cbuff;
    base = qd;
  }
  elim q.link [
    | none ↦ some (none, put_queue qd (record q { link = some sd }) (put_server sd v st))
    | some first ↦ none
  ]

-- `SifSetRpcQueue`. Its loop over `next` ends with `queue` NULL, which is then written through.
unfoldable pub set_rpc_queue : (qd : ℕ) → Side → Option (Option ℕ × Side)
set_rpc_queue qd st = do
  old ← get_elem? st.queues qd
  let v : Queue = record { active = false; link = none; start = none; end = none; next = none }
  elim st.active_queue [
    | none ↦ some (none, record (put_queue qd v st) { active_queue = some qd })
    | some first ↦ none
  ]

-- `SifGetNextRequest`
unfoldable pub get_next_request : (qd : ℕ) → Side → Option (Option ℕ × Side)
get_next_request qd st = do
  q ← get_elem? st.queues qd
  elim q.start [
    | none ↦ some (none, put_queue qd (record q { active = true }) st)
    | some i ↦ do
      s ← get_elem? st.servers i
      some (some i, put_queue qd (record q { active = false; start = s.next }) st)
  ]
