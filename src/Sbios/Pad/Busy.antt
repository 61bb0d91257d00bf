-- ===== src/Sbios/Pad/Busy.antt =====
-- TGE/sbios/pad.c: a port whose request the driver has taken is not ready until the driver says so.
use kernelreloaded.Common.{
  take, ℕ, ◌≡◌, ◌⊎◌, true, false, ◌==◌, if◌then◌else◌, some, none, Option, ℤ,
}
use kernelreloaded.Sbios.Pad.{
  Ptr, pad0, PadRequest, set_main_mode, set_button_info, set_act_align, PadData, Pads, is_one,
  put_at,
}
use kernelreloaded.Sbios.Pad.Ports.{
  pad_get_req_state, pad_get_state, pad_read, busy_callback, rstat_busy, state_stable,
  state_execcmd, answer,
}

-- The requests whose callback marks the port as busy: where the answer stands, the port and the slot.
abbrev pub marks : PadRequest → Option (ℕ × ℕ × ℕ)
marks (set_main_mode port slot) = some (20, port, slot)
marks (set_button_info port slot) = some (16, port, slot)
marks (set_act_align port slot) = some (20, port, slot)
marks q = none

-- What `sbcall_padgetstate` returns for the newer structure.
abbrev shown : PadData → ℕ
shown d =
    if d.state == state_stable
    then (if d.req_state == rstat_busy then state_execcmd else d.state)
    else d.state

-- What is to be seen of the port after an answer.
abbrev pub Seen : (answer : ℤ) (port slot : ℕ) (before : PadData) (st u : Pads) → Type 0
Seen v port slot d st u =
    ((is_one v ≡ true)
      × (pad_get_req_state port slot u ≡ some rstat_busy)
      × (pad_get_state port slot u
          ≡ some (if d.state == state_stable then state_execcmd else d.state))
      × (pad_read port slot u ≡ some (take d.length d.bytes, d.length)))
    ⊎ ((is_one v ≡ false) × (u.memory ≡ st.memory))

-- The state in which the answer to a call is handled.
abbrev received : (ℕ → ℕ) → Pads → Pads
received words st = record st { pending = put_at pad0 none st.pending; buffer = words }

abbrev callback_at : Ptr → Pads → Option (ℕ × ℕ × ℕ) → Option Pads
callback_at p st none = none
callback_at p st (some (offset, port, slot)) = busy_callback offset port slot p st
