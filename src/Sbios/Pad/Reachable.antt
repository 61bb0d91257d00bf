-- ===== src/Sbios/Pad/Reachable.antt =====
-- The stages of the initialisation of pad.c in every order of calls and answers.
use kernelreloaded.Common.{
  Option, Option-cases, inl, ◌>>=◌, is_neg, ◌%◌, ◌<◌, ℤ, negsuc, ◌≤◌, ◌≢◌, subst, arith, ℕ, ◌≡◌,
  refl, inr, none, some, ◌==◌, if_rule, pos,
}
use kernelreloaded.Sbios.Pad.{
  Sending, lost, PadState, put_word, finish_call, Ptr, PadSif, pad0, pad1, PadRequest, init_bind,
  init_call, end_call, port_open, port_close, set_main_mode, info_press_mode, set_button_info,
  set_act_align, set_act_direct, Pads, pad_end, pad_end_callback, pad_reset, is_one, answer_word,
}
use kernelreloaded.Sbios.Pad.Ports.{
  in_range, data_at, opened, closed, open_request, put_command, put_port, pad_port_open,
  pad_port_close, pad_set_main_mode, pad_info_press_mode, pad_set_button_info, pad_set_act_align,
  pad_set_act_direct, answer, callback, pad_command, pad_port_open_callback, busy_callback,
  info_press_mode_callback, set_req_state, rstat_busy,
}
use kernelreloaded.Sbios.Pad.Stages.{
  Inv, Phase0, Phase1, Alike-Inv, Other, start_other, pad_init-Inv, forget-Inv,
}
use kernelreloaded.Sbios.Pad.Callbacks.{
  received-Inv, finish_call-Inv, bind0-Legal, bind1-Legal, call-Legal,
}
use kernelreloaded.Sbios.Pad.Steps.{
  Step, init, end_pads, open_port, close_port, main_mode, press_mode, button_info, act_align,
  act_direct, replied, Start, Reach, start, later,
}

-- The state that a step leaves, if it leaves one.
abbrev After : Option Pads → Type 0
After none = Unit {0}
After (some u) = Inv u

abbrev AfterCall : Option (ℤ × Pads) → Type 0
AfterCall none = Unit {0}
AfterCall (some (r, u)) = Inv u

After-finish_call :
    (o : Option Pads) (p : Ptr) (v : ℤ) → After o → After (o >>= (λ u. some (finish_call p v u)))
After-finish_call none p v a = tt
After-finish_call (some u) p v a = finish_call-Inv p v u a

After-call : (o : Option Pads) (v : ℤ) → After o → AfterCall (o >>= (λ u. some (v, u)))
After-call none v a = tt
After-call (some u) v a = a

put_port-After :
    (port slot : ℕ) (v : PadState) (st : Pads) → Inv st → After (put_port port slot v st)
put_port-After port slot v st inv =
    if_rule After (in_range port slot) _ _ (λ e. Alike-Inv st _ (refl, refl, refl) inv) (λ e. tt)

set_req_state-After : (port slot v : ℕ) (st : Pads) → Inv st → After (set_req_state port slot v st)
unfolding set_req_state
set_req_state-After port slot v st inv = elim (Option-cases (data_at port slot st)) [
  | inl e ↦ rw e tt
  | inr (at, e) ↦ rw e (Alike-Inv st _ (refl, refl, refl) inv)
]

busy-After :
    (offset port slot : ℕ) (p : Ptr) (st : Pads)
    → Inv st
    → After (busy_callback offset port slot p st)
unfolding busy_callback
busy-After offset port slot p st inv =
    if_rule After (is_one (answer_word offset st)) _ _
      (λ e.
        After-finish_call (set_req_state port slot rstat_busy st) p (answer_word offset st)
          (set_req_state-After port slot rstat_busy st inv))
      (λ e. finish_call-Inv p (answer_word offset st) st inv)

end-Inv : (p : Ptr) (st : Pads) → st.pending pad0 ≡ none → Inv st → Inv (pad_end_callback p st)
unfolding pad_end_callback
end-Inv p st idle inv =
    if_rule Inv (is_one (answer_word 12 st)) _ _
      (λ e.
        finish_call-Inv p (answer_word 12 st) (pad_reset st)
          (forget-Inv st (pad_reset st) refl refl refl inv (inr idle)))
      (λ e. finish_call-Inv p (answer_word 12 st) st inv)

-- Only a bind is ever under way at the second client.
only_bind :
    (st : Pads) (q : PadRequest) (p : Ptr)
    → Inv st
    → st.pending pad1 ≡ some (q, p)
    → Phase1 (some (q, p)) st.counter (st.server pad1)
only_bind st q p inv e = subst (λ o. Phase1 o st.counter (st.server pad1)) e inv.phase1

phase_of :
    (st : Pads) (q : PadRequest) (p : Ptr)
    → Inv st
    → st.pending pad0 ≡ some (q, p)
    → Phase0 (some (q, p)) st.counter (st.server pad0)
phase_of st q p inv e = subst (λ o. Phase0 o st.counter (st.server pad0)) e inv.phase0

answer0-After :
    (q : PadRequest) (p : Ptr) (server : ℕ) (words : ℕ → ℕ) (st : Pads)
    → st.pending pad0 ≡ some (q, p)
    → Inv st
    → After (answer pad0 q p server words st)
unfolding answer callback pad_port_open_callback info_press_mode_callback
answer0-After init_bind p server words st e inv =
    (bind0-Legal p server st inv (phase_of st init_bind p inv e).0).0
answer0-After init_call p server words st e inv =
    let f = phase_of st init_call p inv e in
    (call-Legal p _ (received-Inv st words inv) f.0 f.1 refl).0
answer0-After end_call p server words st e inv = end-Inv p _ refl (received-Inv st words inv)
answer0-After (port_open port slot) p server words st e inv =
    After-finish_call _ p _ (put_port-After port slot _ _ (received-Inv st words inv))
answer0-After port_close p server words st e inv = finish_call-Inv p _ _ (received-Inv st words inv)
answer0-After (set_main_mode port slot) p server words st e inv =
    busy-After 20 port slot p _ (received-Inv st words inv)
answer0-After info_press_mode p server words st e inv =
    if_rule Inv (words 3 == 0x3ffff) _ _
      (λ b. finish_call-Inv p (pos 1) _ (received-Inv st words inv))
      (λ b. finish_call-Inv p (pos 0) _ (received-Inv st words inv))
answer0-After (set_button_info port slot) p server words st e inv =
    busy-After 16 port slot p _ (received-Inv st words inv)
answer0-After (set_act_align port slot) p server words st e inv =
    busy-After 20 port slot p _ (received-Inv st words inv)
answer0-After set_act_direct p server words st e inv =
    finish_call-Inv p _ _ (received-Inv st words inv)
answer0-After lost p server words st e inv = tt

answer1-After :
    (q : PadRequest) (p : Ptr) (server : ℕ) (words : ℕ → ℕ) (st : Pads)
    → st.pending pad1 ≡ some (q, p)
    → Inv st
    → After (answer pad1 q p server words st)
unfolding answer callback
answer1-After init_bind p server words st e inv =
    (bind1-Legal p server st inv (only_bind st init_bind p inv e).0).0
answer1-After init_call p server words st e inv = absurd (only_bind st init_call p inv e)
answer1-After end_call p server words st e inv = absurd (only_bind st end_call p inv e)
answer1-After (port_open port slot) p server words st e inv =
    absurd (only_bind st (port_open port slot) p inv e)
answer1-After port_close p server words st e inv = absurd (only_bind st port_close p inv e)
answer1-After (set_main_mode port slot) p server words st e inv =
    absurd (only_bind st (set_main_mode port slot) p inv e)
answer1-After info_press_mode p server words st e inv =
    absurd (only_bind st info_press_mode p inv e)
answer1-After (set_button_info port slot) p server words st e inv =
    absurd (only_bind st (set_button_info port slot) p inv e)
answer1-After (set_act_align port slot) p server words st e inv =
    absurd (only_bind st (set_act_align port slot) p inv e)
answer1-After set_act_direct p server words st e inv = absurd (only_bind st set_act_direct p inv e)
answer1-After lost p server words st e inv = tt

opened-After :
    (port slot : ℕ) (addr : Ptr) (x : ℤ × Pads) → Inv x.1 → AfterCall (opened port slot addr x)
unfolding opened
opened-After port slot addr (r, st) inv =
    if_rule AfterCall (is_neg r) _ _ (λ e. inv)
      (λ e. After-call _ (pos 0) (put_port-After port slot _ st inv))

closed-After : (port slot : ℕ) (x : ℤ × Pads) → Inv x.1 → AfterCall (closed port slot x)
unfolding closed
closed-After port slot (r, st) inv =
    if_rule AfterCall (is_neg r) _ _ (λ e. inv)
      (λ e. After-call _ (pos 0) (put_port-After port slot _ st inv))

open-After :
    (port slot : ℕ) (addr p : Ptr) (how : Sending) (st : Pads)
    → Inv st
    → AfterCall (pad_port_open port slot addr p how st)
unfolding pad_port_open
open-After port slot addr p how st inv =
    if_rule AfterCall (addr == 0) _ _ (λ e. tt)
      (λ e.
        if_rule AfterCall (addr % 64 == 0) _ _
          (λ f. opened-After port slot addr _ (
            start_other (port_open port slot) p how (open_request port slot addr st) tt
              (Alike-Inv st (open_request port slot addr st) (refl, refl, refl) inv)))
          (λ f. inv))

close-After :
    (port slot : ℕ) (p : Ptr) (how : Sending) (st : Pads)
    → Inv st
    → AfterCall (pad_port_close port slot p how st)
unfolding pad_port_close
close-After port slot p how st inv =
    let u = put_word 16 1 (put_command 0x0e port slot st) in
    closed-After port slot _
      (start_other port_close p how u tt (Alike-Inv st u (refl, refl, refl) inv))

command-Inv :
    (q : PadRequest) (command port slot w12 w16 : ℕ) (p : Ptr) (how : Sending) (st : Pads)
    → Other q
    → Inv st
    → Inv (pad_command q command port slot w12 w16 p how st).1
unfolding pad_command
command-Inv q command port slot w12 w16 p how st o inv =
    let u = put_word 16 w16 (put_word 12 w12 (put_command command port slot st)) in
    start_other q p how u o (Alike-Inv st u (refl, refl, refl) inv)

Step-Inv : {st u : Pads} → Step st u → Inv st → Inv u
unfolding pad_end pad_set_main_mode pad_info_press_mode pad_set_button_info pad_set_act_align
    pad_set_act_direct
Step-Inv {st} (init p how) inv = pad_init-Inv p how st inv
Step-Inv {st} (end_pads p how) inv =
    let u = put_word 0 0x0f st in
    start_other end_call p how u tt (Alike-Inv st u (refl, refl, refl) inv)
Step-Inv {st} (open_port port slot addr p how r e) inv =
    subst AfterCall e (open-After port slot addr p how st inv)
Step-Inv {st} (close_port port slot p how r e) inv =
    subst AfterCall e (close-After port slot p how st inv)
Step-Inv {st} (main_mode port slot offset lock p how) inv =
    command-Inv (set_main_mode port slot) 0x06 port slot offset lock p how st tt inv
Step-Inv {st} (press_mode port slot p how) inv =
    command-Inv info_press_mode 0x09 port slot (st.buffer 3) (st.buffer 4) p how st tt inv
Step-Inv {st} (button_info port slot info p how) inv =
    command-Inv (set_button_info port slot) 0x0a port slot info (st.buffer 4) p how st tt inv
Step-Inv {st} (act_align port slot w12 w16 p how) inv =
    command-Inv (set_act_align port slot) 0x08 port slot w12 w16 p how st tt inv
Step-Inv {st} (act_direct port slot w12 w16 p how) inv =
    command-Inv set_act_direct 0x07 port slot w12 w16 p how st tt inv
Step-Inv {st} (replied pad0 q p server words e f) inv =
    subst After f (answer0-After q p server words st e inv)
Step-Inv {st} (replied pad1 q p server words e f) inv =
    subst After f (answer1-After q p server words st e inv)

Start-Inv : {st : Pads} → Start st → Inv st
Start-Inv {st} s = record {
  top = omega (arith, s.counter);
  unbound0 = λ h. s.unbound0;
  bound0 = λ h. absurd (omega (arith, s.counter));
  bound1 = λ h. absurd (omega (arith, s.counter));
  phase0 = rw s.idle0 tt;
  phase1 = rw s.idle1 tt;
}

pub Reach-Inv : {st : Pads} → Reach st → Inv st
Reach-Inv (start s) = Start-Inv s
Reach-Inv (later r m) = Step-Inv m (Reach-Inv r)

-- A request of the initialisation.
abbrev pub Initial : PadRequest → Type 0
Initial init_bind = Unit {0}
Initial init_call = Unit {0}
Initial q = ⊥

-- The answer runs the callback, which does not give -20.
abbrev pub AnsweredLegally : Ptr → Option Pads → Type 0
AnsweredLegally p none = ⊥
AnsweredLegally p (some u) = u.results p ≢ negsuc 19

answer_legal :
    (k : PadSif) (q : PadRequest) (p : Ptr) (server : ℕ) (words : ℕ → ℕ) (st : Pads)
    → st.pending k ≡ some (q, p)
    → Initial q
    → Inv st
    → AnsweredLegally p (answer k q p server words st)
unfolding answer callback
answer_legal pad0 init_bind p server words st e i inv =
    (bind0-Legal p server st inv (phase_of st init_bind p inv e).0).1
answer_legal pad0 init_call p server words st e i inv =
    let f = phase_of st init_call p inv e in
    (call-Legal p _ (received-Inv st words inv) f.0 f.1 refl).1
answer_legal pad1 init_bind p server words st e i inv =
    (bind1-Legal p server st inv (only_bind st init_bind p inv e).0).1
answer_legal pad1 init_call p server words st e i inv = absurd (only_bind st init_call p inv e)
answer_legal k end_call p server words st e i inv = absurd i
answer_legal k (port_open port slot) p server words st e i inv = absurd i
answer_legal k port_close p server words st e i inv = absurd i
answer_legal k (set_main_mode port slot) p server words st e i inv = absurd i
answer_legal k info_press_mode p server words st e i inv = absurd i
answer_legal k (set_button_info port slot) p server words st e i inv = absurd i
answer_legal k (set_act_align port slot) p server words st e i inv = absurd i
answer_legal k set_act_direct p server words st e i inv = absurd i
answer_legal k lost p server words st e i inv = absurd i

-- Whatever calls and answers come, in whatever order, each one whole before the next, and up to the
-- first that touches a slot outside of `PadState` or pad data at NULL, the counter of the
-- initialisation stays within 0 to 4, stands above 0 only with the first server bound and above 1
-- only with the second one bound too, and an answer to a request of the initialisation never finds
-- the counter in a stage that its callback calls illegal.
pub Reach-Staged :
    {st : Pads}
    → Reach st
    → (st.counter ≤ 4)
      × (0 < st.counter → st.server pad0 ≢ 0)
      × (1 < st.counter → st.server pad1 ≢ 0)
      × ((k : PadSif) (q : PadRequest) (p : Ptr) (server : ℕ) (words : ℕ → ℕ)
          → st.pending k ≡ some (q, p)
          → Initial q
          → AnsweredLegally p (answer k q p server words st))
Reach-Staged {st} r =
    let inv = Reach-Inv r in
    (
      inv.top,
      inv.bound0,
      inv.bound1,
      λ k q p server words e i. answer_legal k q p server words st e i inv,
    )
