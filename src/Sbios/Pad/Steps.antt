-- ===== src/Sbios/Pad/Steps.antt =====
-- The calls of pad.c and the answers to them, in any order.
use kernelreloaded.Common.{ℕ, ◌≡◌, ℤ, none, some}
use kernelreloaded.Sbios.Pad.{Sending, Ptr, PadSif, pad0, pad1, PadRequest, Pads, pad_init, pad_end}
use kernelreloaded.Sbios.Pad.Ports.{
  pad_port_open, pad_port_close, pad_set_main_mode, pad_info_press_mode, pad_set_button_info,
  pad_set_act_align, pad_set_act_direct, answer,
}

-- One call from outside, or the answer of the IOP to a request under way, each of them whole. A step
-- that would touch a slot outside of `PadState`, or pad data at NULL, is none.
pub data Step (st : Pads) : Pads → Type 0 where
  init : (p : Ptr) (how : Sending) → Step st (pad_init p how st).1
  end_pads : (p : Ptr) (how : Sending) → Step st (pad_end p how st).1
  open_port :
      {u : Pads} (port slot : ℕ) (addr p : Ptr) (how : Sending) (r : ℤ)
      → pad_port_open port slot addr p how st ≡ some (r, u)
      → Step st u
  close_port :
      {u : Pads} (port slot : ℕ) (p : Ptr) (how : Sending) (r : ℤ)
      → pad_port_close port slot p how st ≡ some (r, u)
      → Step st u
  main_mode :
      (port slot offset lock : ℕ) (p : Ptr) (how : Sending)
      → Step st (pad_set_main_mode port slot offset lock p how st).1
  press_mode :
      (port slot : ℕ) (p : Ptr) (how : Sending) → Step st (pad_info_press_mode port slot p how st).1
  button_info :
      (port slot info : ℕ) (p : Ptr) (how : Sending)
      → Step st (pad_set_button_info port slot info p how st).1
  act_align :
      (port slot w12 w16 : ℕ) (p : Ptr) (how : Sending)
      → Step st (pad_set_act_align port slot w12 w16 p how st).1
  act_direct :
      (port slot w12 w16 : ℕ) (p : Ptr) (how : Sending)
      → Step st (pad_set_act_direct port slot w12 w16 p how st).1
  replied :
      {u : Pads} (k : PadSif) (q : PadRequest) (p : Ptr) (server : ℕ) (words : ℕ → ℕ)
      → st.pending k ≡ some (q, p)
      → answer k q p server words st ≡ some u
      → Step st u

-- Nothing is initialised, and no request is under way.
pub record Start (st : Pads) : Type 0 where
  pub counter : st.counter ≡ 0
  pub unbound0 : st.server pad0 ≡ 0
  pub idle0 : st.pending pad0 ≡ none
  pub idle1 : st.pending pad1 ≡ none

pub data Reach : Pads → Type 0 where
  start : {st : Pads} → Start st → Reach st
  later : {st u : Pads} → Reach st → Step st u → Reach u
