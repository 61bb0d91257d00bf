-- ===== src/Sbios/Pad/Ports.antt =====
-- TGE/sbios/pad.c: the ports, the double buffer in which the driver leaves the pad data, and the
-- calls for one port.
use kernelreloaded.Common.{
  not, Option, some, ◌>>=◌, take, ℕ, ◌%◌, Bool, true, false, ◌&&◌, none, List, ltb, ◌==◌,
  if◌then◌else◌, ℤ, pos, negsuc, is_neg, replicate,
}
use kernelreloaded.Sbios.Pad.{
  put_word, Sending, lost, Ptr, PadSif, pad0, PadRequest, port_open, port_close, set_main_mode,
  info_press_mode, set_button_info, set_act_align, set_act_direct, PadState, PadData, Pads,
  start_call, send_failed, finish_call, answer_word, is_one, init_bind, init_call, end_call,
  pad_init_callback, pad_end_callback, put_at,
}

abbrev pub state_execcmd : ℕ
state_execcmd = 5

abbrev pub state_stable : ℕ
state_stable = 6

abbrev pub rstat_busy : ℕ
rstat_busy = 2

-- `padGetDmaStr`: the structure with the newer frame, and whether it is the second one.
unfoldable pub newer : PadData × PadData → Bool
newer (a, b) = ltb a.frame b.frame

unfoldable pub get_dma_str : PadData × PadData → PadData
unfolding newer
get_dma_str (a, b) = if newer (a, b) then b else a

-- `PadState` has two ports of eight slots.
abbrev pub in_range : ℕ → ℕ → Bool
in_range port slot = ltb port 2 && ltb slot 8

-- Where the pad data of a slot are; `none` outside of `PadState`, and for NULL.
unfoldable pub data_at : ℕ → ℕ → Pads → Option Ptr
data_at port slot st =
    if in_range port slot && not ((st.ports port slot).pad_data == 0)
    then some (st.ports port slot).pad_data
    else none

-- `padGetDmaStr`
unfoldable pub newer_data : ℕ → ℕ → Pads → Option PadData
unfolding get_dma_str data_at
newer_data port slot st = data_at port slot st >>= (λ at. some (get_dma_str (st.memory at)))

-- `padSetReqState`
unfoldable pub with_req_state : ℕ → PadData × PadData → PadData × PadData
unfolding newer
with_req_state v (a, b) =
    if newer (a, b) then (a, record b { req_state = v }) else (record a { req_state = v }, b)

unfoldable pub set_req_state : ℕ → ℕ → ℕ → Pads → Option Pads
unfolding with_req_state data_at
set_req_state port slot v st = data_at port slot st >>= (λ at.
    some (record st {
      memory = λ x. if x == at then with_req_state v (st.memory at) else st.memory x;
    }))

-- `padGetReqState` and `sbcall_padgetreqstate`
unfoldable pub pad_get_req_state : ℕ → ℕ → Pads → Option ℕ
unfolding newer_data
pad_get_req_state port slot st = newer_data port slot st >>= (λ d. some d.req_state)

-- `sbcall_padgetstate`
unfoldable pub pad_get_state : ℕ → ℕ → Pads → Option ℕ
unfolding newer_data pad_get_req_state
pad_get_state port slot st = do
  d ← newer_data port slot st
  req_state ← pad_get_req_state port slot st
  some (
      if d.state == state_stable
      then (if req_state == rstat_busy then state_execcmd else d.state)
      else d.state)

-- `sbcall_padread`: the bytes that are copied, and the length that is returned.
unfoldable pub pad_read : ℕ → ℕ → Pads → Option (List ℕ × ℕ)
unfolding newer_data
pad_read port slot st = newer_data port slot st >>= (λ d. some (take d.length d.bytes, d.length))

-- What `sbcall_padportopen` writes to both structures.
abbrev pub cleared : PadData → PadData
cleared d = record d {
  bytes = replicate 32 0xff;
  frame = 0;
  length = 0;
  state = state_execcmd;
  req_state = rstat_busy;
  current_task = 0;
  button_data_ready = 0;
}

-- The words that each call for a port puts first.
abbrev pub put_command : (command port slot : ℕ) → Pads → Pads
put_command command port slot st = put_word 8 slot (put_word 4 port (put_word 0 command st))

abbrev pub put_port : ℕ → ℕ → PadState → Pads → Option Pads
put_port port slot v st =
    if in_range port slot
    then some (record st { ports = λ i j. if i == port && j == slot then v else st.ports i j })
    else none

-- Both structures are cleared, and the request is written to `buffer`.
abbrev pub open_request : (port slot : ℕ) → Ptr → Pads → Pads
open_request port slot addr st =
    let both = st.memory addr in
    put_word 16 addr (
      put_command 0x01 port slot (record st {
        memory = λ x. if x == addr then (cleared both.0, cleared both.1) else st.memory x;
      }))

-- What follows the remote call in `sbcall_padportopen`.
unfoldable pub opened : (port slot : ℕ) → Ptr → ℤ × Pads → Option (ℤ × Pads)
opened port slot addr (r, st) =
    let open_it =
      put_port port slot (record (st.ports port slot) { open_flag = true; pad_data = addr }) st in
    if is_neg r then some (send_failed, st) else open_it >>= (λ u. some (pos 0, u))

-- `sbcall_padportopen`; with NULL for the pad data it would write there.
unfoldable pub pad_port_open : (port slot : ℕ) → Ptr → Ptr → Sending → Pads → Option (ℤ × Pads)
unfolding start_call opened
pad_port_open port slot addr p how st =
    if addr == 0
    then none
    else if addr % 64 == 0
    then opened port slot addr
        (start_call pad0 (port_open port slot) p how (open_request port slot addr st))
    else some (negsuc 0, st)

-- `padPortOpenCallback`
unfoldable pub pad_port_open_callback : (port slot : ℕ) → Ptr → Pads → Option Pads
pad_port_open_callback port slot p st =
    put_port port slot (record (st.ports port slot) { pad_buf = st.buffer 5 }) st
    >>= (λ u. some (finish_call p (answer_word 12 st) u))

-- What follows the remote call in `sbcall_padportclose`.
unfoldable pub closed : (port slot : ℕ) → ℤ × Pads → Option (ℤ × Pads)
closed port slot (r, st) =
    let close_it = put_port port slot (record (st.ports port slot) { open_flag = false }) st in
    if is_neg r then some (send_failed, st) else close_it >>= (λ u. some (pos 0, u))

-- `sbcall_padportclose`
unfoldable pub pad_port_close : (port slot : ℕ) → Ptr → Sending → Pads → Option (ℤ × Pads)
unfolding start_call closed
pad_port_close port slot p how st =
    closed port slot
      (start_call pad0 port_close p how (put_word 16 1 (put_command 0x0e port slot st)))

-- The other calls for a port: `command`, and the words behind the slot from byte 12 on.
unfoldable pub pad_command :
    PadRequest → (command port slot w12 w16 : ℕ) → Ptr → Sending → Pads → ℤ × Pads
unfolding start_call
pad_command q command port slot w12 w16 p how st =
    start_call pad0 q p how (put_word 16 w16 (put_word 12 w12 (put_command command port slot st)))

-- `sbcall_padsetmainmode`
unfoldable pub pad_set_main_mode : (port slot offset lock : ℕ) → Ptr → Sending → Pads → ℤ × Pads
unfolding pad_command
pad_set_main_mode port slot offset lock p how st =
    pad_command (set_main_mode port slot) 0x06 port slot offset lock p how st

-- `sbcall_padinfopressmode`, which leaves the words behind the slot as they are.
unfoldable pub pad_info_press_mode : (port slot : ℕ) → Ptr → Sending → Pads → ℤ × Pads
unfolding pad_command
pad_info_press_mode port slot p how st =
    pad_command info_press_mode 0x09 port slot (st.buffer 3) (st.buffer 4) p how st

-- `padSetButtonInfo`, with 0xFFF for `sbcall_padenterpressmode` and 0 for `sbcall_padexitpressmode`.
unfoldable pub pad_set_button_info : (port slot button_info : ℕ) → Ptr → Sending → Pads → ℤ × Pads
unfolding pad_command
pad_set_button_info port slot button_info p how st =
    pad_command (set_button_info port slot) 0x0a port slot button_info (st.buffer 4) p how st

-- `sbcall_padsetactalign` and `sbcall_padsetactdirect`; the six bytes as two words, the second with
-- the two bytes of `buffer` behind them.
unfoldable pub pad_set_act_align : (port slot w12 w16 : ℕ) → Ptr → Sending → Pads → ℤ × Pads
unfolding pad_command
pad_set_act_align port slot w12 w16 p how st =
    pad_command (set_act_align port slot) 0x08 port slot w12 w16 p how st

unfoldable pub pad_set_act_direct : (port slot w12 w16 : ℕ) → Ptr → Sending → Pads → ℤ × Pads
unfolding pad_command
pad_set_act_direct port slot w12 w16 p how st =
    pad_command set_act_direct 0x07 port slot w12 w16 p how st

-- A callback that marks the port as busy where the driver has taken the request; `offset` is where
-- the answer stands.
unfoldable pub busy_callback : (offset port slot : ℕ) → Ptr → Pads → Option Pads
unfolding set_req_state
busy_callback offset port slot p st =
    let ret = answer_word offset st in
    let marked = set_req_state port slot rstat_busy st in
    if is_one ret then marked >>= (λ u. some (finish_call p ret u)) else some (finish_call p ret st)

-- `padInfoPressModeCallback`
unfoldable pub info_press_mode_callback : Ptr → Pads → Pads
info_press_mode_callback p st =
    if st.buffer 3 == 0x3ffff then finish_call p (pos 1) st else finish_call p (pos 0) st

-- The callback of each request.
unfoldable pub callback : PadRequest → Ptr → Pads → Option Pads
unfolding pad_port_open_callback busy_callback info_press_mode_callback
callback init_bind p st = some (pad_init_callback p st)
callback init_call p st = some (pad_init_callback p st)
callback end_call p st = some (pad_end_callback p st)
callback (port_open port slot) p st = pad_port_open_callback port slot p st
callback port_close p st = some (finish_call p (answer_word 12 st) st)
callback (set_main_mode port slot) p st = busy_callback 20 port slot p st
callback info_press_mode p st = some (info_press_mode_callback p st)
callback (set_button_info port slot) p st = busy_callback 16 port slot p st
callback (set_act_align port slot) p st = busy_callback 20 port slot p st
callback set_act_direct p st = some (finish_call p (answer_word 20 st) st)
callback lost p st = none

-- The answer to the request under way at a client: that to a bind tells the server, that to a call
-- comes with the words of `buffer`; then the callback runs.
unfoldable pub answer : PadSif → PadRequest → Ptr → ℕ → (ℕ → ℕ) → Pads → Option Pads
unfolding callback
answer k init_bind p server words st =
    callback init_bind p
      (record st { pending = put_at k none st.pending; server = put_at k server st.server })
answer k q p server words st =
    callback q p (record st { pending = put_at k none st.pending; buffer = words })
