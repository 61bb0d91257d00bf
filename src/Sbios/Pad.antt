-- ===== src/Sbios/Pad.antt =====
-- TGE/sbios/pad.c, built for the newer pad driver (NEW_PADMAN): the pads of the game console, whose
-- driver runs on the IOP. A call of the SBIOS sends a request to it and returns; the answer runs a
-- callback, which calls the caller's `endfunc`. A pointer is its address, and 0 is NULL.
pub mod Ports
pub mod Steps
pub mod Stages
pub mod Callbacks
pub mod Reachable
pub mod Progress
pub mod Busy
mod Tests
use kernelreloaded.Common.{
  ℕ, zero, suc, ◌+◌, ◌-◌, ◌/◌, Bool, true, false, ◌&&◌, Option, none, some, List, ◌∷◌, ltb, ◌==◌,
  if◌then◌else◌, ℤ, pos, negsuc, length, set, has,
}
use kernelreloaded.Common.Ints.{int_of}

abbrev pub Ptr : Type 0
Ptr = ℕ

-- `padsif[0]` and `padsif[1]`
pub data PadSif : Type 0 where
  pad0 : PadSif
  pad1 : PadSif

-- A request under way, by the call that sent it and the callback that its answer runs; with the
-- port and the slot where the callback uses them. A `lost` one was not taken by `SifSendCmd`: its
-- client stays tied to the packet, and no answer comes.
pub data PadRequest : Type 0 where
  init_bind : PadRequest
  init_call : PadRequest
  end_call : PadRequest
  port_open : (port slot : ℕ) → PadRequest
  port_close : PadRequest
  set_main_mode : (port slot : ℕ) → PadRequest
  info_press_mode : PadRequest
  set_button_info : (port slot : ℕ) → PadRequest
  set_act_align : (port slot : ℕ) → PadRequest
  set_act_direct : PadRequest
  lost : PadRequest

-- `struct pad_state`
pub record PadState : Type 0 where
  pub open_flag : Bool
  pub port : ℕ
  pub slot : ℕ
  pub pad_data : Ptr
  pub pad_buf : Ptr

-- What is used of `struct pad_data`.
pub record PadData : Type 0 where
  pub bytes : List ℕ
  pub frame : ℕ
  pub length : ℕ
  pub state : ℕ
  pub req_state : ℕ
  pub current_task : ℕ
  pub button_data_ready : ℕ

-- `padInitialiseCounter`, the field `server` of the two clients, the requests under way with their
-- callers, the words of `buffer`, `PadState`, the two structures at each address where a user has
-- put pad data, the field `result` of the callers' arguments, and the calls of `endfunc` so far,
-- the last one first; and the address of `openSlot`.
pub record Pads : Type 0 where
  pub counter : ℕ
  pub server : PadSif → ℕ
  pub pending : PadSif → Option (PadRequest × Ptr)
  pub buffer : ℕ → ℕ
  pub ports : ℕ → ℕ → PadState
  pub memory : Ptr → PadData × PadData
  pub results : Ptr → ℤ
  pub ended : List (Ptr × ℤ)
  pub open_slot : Ptr

abbrev pub put_at {ℓ} : {A : Type ℓ} → PadSif → A → (PadSif → A) → PadSif → A
put_at pad0 v f pad0 = v
put_at pad0 v f pad1 = f pad1
put_at pad1 v f pad0 = f pad0
put_at pad1 v f pad1 = v

-- `-SIF_RPCE_SENDP`
abbrev pub send_failed : ℤ
send_failed = negsuc 1

-- `carg->result = v; carg->endfunc(carg->efarg, v)`
abbrev pub finish_call : Ptr → ℤ → Pads → Pads
finish_call p v st = record st {
  results = λ q. if q == p then v else st.results q;
  ended = (p, v) ∷ st.ended;
}

-- What comes of a request to an idle client: it goes out, no packet is free, or `SifSendCmd` fails.
pub data Sending : Type 0 where
  goes_out no_packet not_sent : Sending

abbrev pub put_pending : PadSif → PadRequest → Ptr → Pads → Pads
put_pending k q p st = record st { pending = put_at k (some (q, p)) st.pending }

-- `SifCallRpc` without a wait, which refuses a client with a request under way.
unfoldable pub start_call : PadSif → PadRequest → Ptr → Sending → Pads → ℤ × Pads
start_call k q p how st = elim (st.pending k) [
  | some _ ↦ (send_failed, st)
  | none ↦ elim how [
    | goes_out ↦ (pos 0, put_pending k q p st)
    | no_packet ↦ (send_failed, st)
    | not_sent ↦ (send_failed, put_pending k lost p st)
  ]
]

-- `SifBindRpc` without a wait, which also forgets the server.
unfoldable pub start_bind : PadSif → PadRequest → Ptr → Sending → Pads → ℤ × Pads
start_bind k q p how st =
    let forgot : Pads = record st { server = put_at k 0 st.server } in
    elim (st.pending k) [
      | some _ ↦ (send_failed, st)
      | none ↦ elim how [
        | goes_out ↦ (pos 0, put_pending k q p forgot)
        | no_packet ↦ (send_failed, st)
        | not_sent ↦ (send_failed, put_pending k lost p forgot)
      ]
    ]

-- A word is written to `buffer`.
abbrev pub put_word : ℕ → ℕ → Pads → Pads
put_word offset v st = record st { buffer = λ i. if i == offset / 4 then v else st.buffer i }

abbrev pub no_servers : PadSif → ℕ
no_servers k = 0

-- The loop of `sbcall_padinit` over the two ports and eight slots each.
abbrev pub closed_ports : (ℕ → ℕ → PadState) → ℕ → ℕ → PadState
closed_ports ports port slot =
    if ltb port 2 && ltb slot 8
    then record (ports port slot) { open_flag = false; port = 0; slot = 0 }
    else ports port slot

-- `sbcall_padinit`
unfoldable pub pad_init : Ptr → Sending → Pads → ℤ × Pads
unfolding start_call start_bind
pad_init p how st =
    if st.counter == 0
    then start_bind pad0 init_bind p how
        (record st { server = no_servers; ports = closed_ports st.ports })
    else if st.counter == 1
    then start_bind pad1 init_bind p how st
    else if st.counter == 2
    then start_call pad0 init_call p how (put_word 0 0x12 st)
    else if st.counter == 3
    then start_call pad0 init_call p how (put_word 16 st.open_slot (put_word 0 0x10 st))
    else (pos 0, finish_call p (pos 1) st)

abbrev pub is_pos : ℤ → Bool
is_pos (pos zero) = false
is_pos (pos (suc n)) = true
is_pos (negsuc n) = false

abbrev pub is_one : ℤ → Bool
is_one (pos n) = n == 1
is_one (negsuc n) = false

-- The word of `buffer` at a byte offset, read as an `int`.
abbrev pub answer_word : ℕ → Pads → ℤ
answer_word offset st = int_of (st.buffer (offset / 4))

-- `padInitCallback`
unfoldable pub pad_init_callback : Ptr → Pads → Pads
pad_init_callback p st =
    let next : Pads = record st { counter = st.counter + 1 } in
    if st.counter == 0
    then (if st.server pad0 == 0 then finish_call p (pos 0) st else finish_call p (pos 0) next)
    else if st.counter == 1
    then (if st.server pad1 == 0 then finish_call p (pos 0) st else finish_call p (pos 0) next)
    else if st.counter == 2
    then (if is_pos (answer_word 12 st)
        then finish_call p (pos 0) next
        else finish_call p (negsuc 5) st)
    else if st.counter == 3
    then finish_call p (pos 1) next
    else finish_call p (negsuc 19) st

-- `padReset`
abbrev pub pad_reset : Pads → Pads
pad_reset st = record st { counter = 0; server = no_servers }

-- `sbcall_padend` and `padEndCallback`
unfoldable pub pad_end : Ptr → Sending → Pads → ℤ × Pads
unfolding start_call
pad_end p how st = start_call pad0 end_call p how (put_word 0 0x0f st)

unfoldable pub pad_end_callback : Ptr → Pads → Pads
pad_end_callback p st =
    let ret = answer_word 12 st in
    if is_one ret then finish_call p ret (pad_reset st) else finish_call p ret st
