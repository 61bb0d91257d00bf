-- ===== src/Sbios/SifRpc/Table.antt =====
-- TGE/sbios/sifrpc.c: the packet table and the client structures.
use mathlib.Core.Option
use kernelreloaded.Common.Bits.{bit, clear_bit}
use kernelreloaded.Common.{
  ℕ, suc, ◌+◌, ◌-◌, ◌*◌, ◌%◌, ◌^◌, Bool, Option, none, some, List, [], ◌∷◌, ◌==◌, if◌then◌else◌, ℤ,
  negsuc, get_or, set,
}

-- A pointer to code or to a structure of the rest of the SBIOS; 0 is NULL.
abbrev pub Ptr : Type 0
Ptr = ℕ

-- What the fields of a packet hold beyond its header.
pub data Body : Type 0 where
  empty : Body
  bind : (sid : ℕ) → Body
  call : (rpc_number send_size receive recv_size rmode : ℕ) (server : Ptr) → Body

-- `SifRpcPktHeader_t`, `SifRpcBindPkt_t` and `SifRpcCallPkt_t`.
pub record Packet : Type 0 where
  pub rec_id : ℕ
  pub rpc_id : ℕ
  pub pkt_addr : Option ℕ
  pub client : ℕ
  pub body : Body

-- `SifRpcClientData_t`.
pub record Client : Type 0 where
  pub pkt_addr : Option ℕ
  pub rpc_id : ℕ
  pub sema_id : ℕ
  pub command : ℕ
  pub buff : Ptr
  pub cbuff : Ptr
  pub end_function : Ptr
  pub end_param : Ptr
  pub server : Ptr

-- `struct rpc_data`, and the client structures by their addresses.
pub record Rpc : Type 0 where
  pub pid : ℕ
  pub packets : List Packet
  pub clients : ℕ → Client

abbrev pub u32 : ℕ
u32 = 2 ^ 32

abbrev pub rpc_packet_size : ℕ
rpc_packet_size = 64

abbrev pub pkt_alloc : ℤ
pkt_alloc = negsuc (0xd610 - 1)

abbrev pub pkt_send : ℤ
pkt_send = negsuc (0xd611 - 1)

abbrev pub invalid_arg : ℤ
invalid_arg = negsuc (0xd606 - 1)

abbrev pub no_packet : Packet
no_packet = record { rec_id = 0; rpc_id = 0; pkt_addr = none; client = 0; body = empty }

abbrev pub packet_at : Rpc → ℕ → Packet
packet_at r p = get_or r.packets p no_packet

-- `packet->rec_id & PACKET_F_ALLOC`.
abbrev pub allocated : Packet → Bool
allocated p = bit p.rec_id 0

abbrev pub put_packet : ℕ → Packet → Rpc → Rpc
put_packet p v r = record r { packets = set r.packets p v }

abbrev pub put_client : ℕ → Client → Rpc → Rpc
put_client c v r = record r { clients = λ x. if x == c then v else r.clients x }

-- The search of `_rpc_get_packet`.
unfoldable pub first_free : List Packet → Option ℕ
first_free [] = none
first_free (p ∷ ps) = if allocated p then Option.map suc (first_free ps) else some 0

abbrev pub next_pid : ℕ → ℕ × ℕ
next_pid pid = if pid == 0 then (1, 2) else ((pid + 1) % u32, (pid + 1) % u32)

-- The header that `_rpc_get_packet` writes: `(rid << 16) | 0x04 | PACKET_F_ALLOC`.
abbrev pub claim : ℕ → ℕ → Packet → Packet
claim rid pid p = record p { rec_id = rid * 2 ^ 16 + 5; rpc_id = pid; pkt_addr = some rid }

-- `_rpc_get_packet`.
unfoldable pub get_packet : Rpc → Option (ℕ × Rpc)
get_packet r = elim (first_free r.packets) [
  | none ↦ none
  | some rid ↦
      let (pid, after) = next_pid r.pid in
      some (
        rid,
        record r { pid = after; packets = set r.packets rid (claim rid pid (packet_at r rid)) },
      )
]

-- `rpc_packet_free`.
unfoldable pub free_packet : ℕ → Rpc → Rpc
free_packet p r =
    put_packet p
      (record (packet_at r p) { rpc_id = 0; rec_id = clear_bit (packet_at r p).rec_id 0 }) r
