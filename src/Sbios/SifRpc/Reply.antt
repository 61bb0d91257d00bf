-- ===== src/Sbios/SifRpc/Reply.antt =====
-- TGE/sbios/sifrpc.c: `_request_end` and `SifCheckStatRpc`.
use kernelreloaded.Common.{
  ℕ, ◌+◌, Bool, true, false, ◌&&◌, ◌||◌, Option, none, some, ◌==◌, if◌then◌else◌,
}
use kernelreloaded.Sbios.SifRpc.Table.{
  Ptr, Client, Rpc, packet_at, allocated, put_client, free_packet,
}

-- The fields of `SifRpcRendPkt_t` that `_request_end` reads.
pub record Answer : Type 0 where
  pub client : ℕ
  pub cid : ℕ
  pub server : Ptr
  pub buff : Ptr
  pub cbuff : Ptr

abbrev pub answered : Answer → Client → Client
answered a c =
    let c' : Client = record c { sema_id = c.sema_id + 1; pkt_addr = none } in
    if a.cid == 0x8000_000a
    then c'
    else if a.cid == 0x8000_0009
    then record c' { server = a.server; buff = a.buff; cbuff = a.cbuff }
    else c'

abbrev pub has_callback : Answer → Client → Bool
has_callback a c =
    (a.cid == 0x8000_000a || a.cid == 0x8000_0009) && (if c.end_function == 0 then false else true)

module _ {S : Type 0} (callback : Ptr → Ptr → Rpc × S → Rpc × S) where
  -- `_request_end`. With no packet tied to the client it would free the packet at NULL: `none`.
  unfoldable pub request_end : Answer → Rpc × S → Option (Rpc × S)
  request_end a (r, s) =
      let c = r.clients a.client in
      let r' = put_client a.client (answered a c) r in
      let (r'', s'') =
        if has_callback a c then callback c.end_function c.end_param (r', s) else (r', s) in
      elim c.pkt_addr [ none ↦ none | some p ↦ some (free_packet p r'', s'') ]

-- `SifCheckStatRpc`: whether the client's request is still under way.
unfoldable pub check_stat : ℕ → Rpc → Bool
check_stat c r = elim (r.clients c).pkt_addr [
  | none ↦ false
  | some p ↦ ((r.clients c).rpc_id == (packet_at r p).rpc_id) && allocated (packet_at r p)
]
