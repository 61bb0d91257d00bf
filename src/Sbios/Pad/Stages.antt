-- ===== src/Sbios/Pad/Stages.antt =====
-- The stages of the initialisation of pad.c, whatever is called in between.
use kernelreloaded.Common.{
  pos, ◌==◌, eq_of_==, if_rule, ◌⊎◌, ℤ, arith, inl, inr, refl, Option-cases, ℕ, ◌≤◌, ◌<◌, ◌≡◌, ◌≢◌,
  Option, none, some,
}
use kernelreloaded.Sbios.Pad.{
  Sending, goes_out, no_packet, not_sent, lost, put_pending, put_word, send_failed, Ptr, PadSif,
  pad0, pad1, PadRequest, init_bind, init_call, end_call, port_open, port_close, set_main_mode,
  info_press_mode, set_button_info, set_act_align, set_act_direct, Pads, no_servers, pad_init,
  start_call, start_bind, closed_ports, finish_call, put_at,
}

-- A request of the initialisation is under way in its stage only.
abbrev pub Phase0 : Option (PadRequest × Ptr) → ℕ → ℕ → Type 0
Phase0 none c s = Unit {0}
Phase0 (some (init_bind, p)) c s = (c ≡ 0) × (s ≡ 0)
Phase0 (some (init_call, p)) c s = (1 < c) × (c < 4)
Phase0 (some (q, p)) c s = Unit {0}

abbrev pub Phase1 : Option (PadRequest × Ptr) → ℕ → ℕ → Type 0
Phase1 none c s = Unit {0}
Phase1 (some (init_bind, p)) c s = (c < 2) × (s ≡ 0)
Phase1 (some (lost, p)) c s = Unit {0}
Phase1 (some (q, p)) c s = ⊥

-- `padInitialiseCounter` passes a stage only with the server of that stage bound.
pub record Inv (st : Pads) : Type 0 where
  pub top : st.counter ≤ 4
  pub unbound0 : st.counter ≡ 0 → st.server pad0 ≡ 0
  pub bound0 : 0 < st.counter → st.server pad0 ≢ 0
  pub bound1 : 1 < st.counter → st.server pad1 ≢ 0
  pub phase0 : Phase0 (st.pending pad0) st.counter (st.server pad0)
  pub phase1 : Phase1 (st.pending pad1) st.counter (st.server pad1)

-- The invariant reads these three fields only.
abbrev pub Alike : Pads → Pads → Type 0
Alike st u = (u.counter ≡ st.counter) × (u.server ≡ st.server) × (u.pending ≡ st.pending)

pub Alike-Inv : (st u : Pads) → Alike st u → Inv st → Inv u
Alike-Inv st u (c, s, p) inv = record {
  top = rw c inv.top;
  unbound0 = rw (c, s) inv.unbound0;
  bound0 = rw (c, s) inv.bound0;
  bound1 = rw (c, s) inv.bound1;
  phase0 = rw (c, s, p) inv.phase0;
  phase1 = rw (c, s, p) inv.phase1;
}

-- A request that is none of the initialisation's.
abbrev pub Other : PadRequest → Type 0
Other init_bind = ⊥
Other init_call = ⊥
Other q = Unit {0}

-- Either the request is refused, or it is under way, or it is lost.
start_call_rule :
    (P : Pads → Type 0) (k : PadSif) (q : PadRequest) (p : Ptr) (how : Sending) (st : Pads)
    → P st
    → P (put_pending k q p st)
    → P (put_pending k lost p st)
    → P (start_call k q p how st).1
unfolding start_call
start_call_rule P k q p how st refused sent unsent = elim (Option-cases (st.pending k)) [
  | inr (x, busy) ↦ rw (busy, start_call) refused
  | inl idle ↦ rw (idle, start_call) (by_sending how)
]
  where
    by_sending :
        (h : Sending)
        → P
            (elim h as (λ x. ℤ × Pads) [
              | goes_out ↦ (pos 0, put_pending k q p st)
              | no_packet ↦ (send_failed, st)
              | not_sent ↦ (send_failed, put_pending k lost p st)
            ]).1
    by_sending goes_out = sent
    by_sending no_packet = refused
    by_sending not_sent = unsent

abbrev forgot : PadSif → Pads → Pads
forgot k st = record st { server = put_at k 0 st.server }

start_bind_rule :
    (P : Pads → Type 0) (k : PadSif) (q : PadRequest) (p : Ptr) (how : Sending) (st : Pads)
    → P st
    → P (put_pending k q p (forgot k st))
    → P (put_pending k lost p (forgot k st))
    → P (start_bind k q p how st).1
unfolding start_bind
start_bind_rule P k q p how st refused sent unsent = elim (Option-cases (st.pending k)) [
  | inr (x, busy) ↦ rw (busy, start_bind) refused
  | inl idle ↦ rw (idle, start_bind) (by_sending how)
]
  where
    by_sending :
        (h : Sending)
        → P
            (elim h as (λ x. ℤ × Pads) [
              | goes_out ↦ (pos 0, put_pending k q p (forgot k st))
              | no_packet ↦ (send_failed, st)
              | not_sent ↦ (send_failed, put_pending k lost p (forgot k st))
            ]).1
    by_sending goes_out = sent
    by_sending no_packet = refused
    by_sending not_sent = unsent

Other-Phase0 : (q : PadRequest) (p : Ptr) (c s : ℕ) → Other q → Phase0 (some (q, p)) c s
Other-Phase0 init_bind p c s o = absurd o
Other-Phase0 init_call p c s o = absurd o
Other-Phase0 end_call p c s o = tt
Other-Phase0 (port_open port slot) p c s o = tt
Other-Phase0 port_close p c s o = tt
Other-Phase0 (set_main_mode port slot) p c s o = tt
Other-Phase0 info_press_mode p c s o = tt
Other-Phase0 (set_button_info port slot) p c s o = tt
Other-Phase0 (set_act_align port slot) p c s o = tt
Other-Phase0 set_act_direct p c s o = tt
Other-Phase0 lost p c s o = tt

-- The request of the first client may become any that suits the stage.
pending0-Inv :
    (q : PadRequest) (p : Ptr) (st : Pads)
    → Phase0 (some (q, p)) st.counter (st.server pad0)
    → Inv st
    → Inv (put_pending pad0 q p st)
pending0-Inv q p st f inv = record {
  top = inv.top;
  unbound0 = inv.unbound0;
  bound0 = inv.bound0;
  bound1 = inv.bound1;
  phase0 = f;
  phase1 = inv.phase1;
}

pub start_other :
    (q : PadRequest) (p : Ptr) (how : Sending) (st : Pads)
    → Other q
    → Inv st
    → Inv (start_call pad0 q p how st).1
start_other q p how st o inv =
    start_call_rule Inv pad0 q p how st inv
      (pending0-Inv q p st (Other-Phase0 q p st.counter (st.server pad0) o) inv)
      (pending0-Inv lost p st tt inv)

init_call-Inv :
    (p : Ptr) (how : Sending) (st : Pads)
    → 1 < st.counter
    → st.counter < 4
    → Inv st
    → Inv (start_call pad0 init_call p how st).1
init_call-Inv p how st lo hi inv =
    start_call_rule Inv pad0 init_call p how st inv (pending0-Inv init_call p st (lo, hi) inv)
      (pending0-Inv lost p st tt inv)

pub lower-Phase1 :
    (o : Option (PadRequest × Ptr)) (c d s t : ℕ)
    → d < 2
    → (s ≡ 0 → t ≡ 0)
    → Phase1 o c s
    → Phase1 o d t
lower-Phase1 none c d s t h g f = tt
lower-Phase1 (some (init_bind, p)) c d s t h g f = (h, g f.1)
lower-Phase1 (some (init_call, p)) c d s t h g f = f
lower-Phase1 (some (end_call, p)) c d s t h g f = f
lower-Phase1 (some (port_open port slot, p)) c d s t h g f = f
lower-Phase1 (some (port_close, p)) c d s t h g f = f
lower-Phase1 (some (set_main_mode port slot, p)) c d s t h g f = f
lower-Phase1 (some (info_press_mode, p)) c d s t h g f = f
lower-Phase1 (some (set_button_info port slot, p)) c d s t h g f = f
lower-Phase1 (some (set_act_align port slot, p)) c d s t h g f = f
lower-Phase1 (some (set_act_direct, p)) c d s t h g f = f
lower-Phase1 (some (lost, p)) c d s t h g f = tt

first-Phase0 : (o : Option (PadRequest × Ptr)) (c s : ℕ) → c ≡ 0 → Phase0 o c s → Phase0 o c 0
first-Phase0 none c s h f = tt
first-Phase0 (some (init_bind, p)) c s h f = (h, refl)
first-Phase0 (some (init_call, p)) c s h f = absurd (omega (arith, f.0))
first-Phase0 (some (end_call, p)) c s h f = tt
first-Phase0 (some (port_open port slot, p)) c s h f = tt
first-Phase0 (some (port_close, p)) c s h f = tt
first-Phase0 (some (set_main_mode port slot, p)) c s h f = tt
first-Phase0 (some (info_press_mode, p)) c s h f = tt
first-Phase0 (some (set_button_info port slot, p)) c s h f = tt
first-Phase0 (some (set_act_align port slot, p)) c s h f = tt
first-Phase0 (some (set_act_direct, p)) c s h f = tt
first-Phase0 (some (lost, p)) c s h f = tt

-- In stage 0 the servers may be forgotten.
pub forget-Inv :
    (st u : Pads)
    → u.counter ≡ 0
    → u.server ≡ no_servers
    → u.pending ≡ st.pending
    → Inv st
    → (st.counter ≡ 0) ⊎ (st.pending pad0 ≡ none)
    → Inv u
forget-Inv st u c s p inv why = record {
  top = omega (arith, c);
  unbound0 = λ h. rw s refl;
  bound0 = λ h. absurd (omega (arith, c));
  bound1 = λ h. absurd (omega (arith, c));
  phase0 =
      rw (c, s, p)
        (elim why [
          | inl z ↦
              rw z at (first-Phase0 (st.pending pad0) st.counter (st.server pad0) z inv.phase0)
          | inr idle ↦ rw idle tt
        ]);
  phase1 =
      rw (c, s, p)
        (lower-Phase1 (st.pending pad1) st.counter 0 (st.server pad1) 0 (omega arith) (λ e. refl)
          inv.phase1);
}

-- A bind at the second client in stage 1, and one at the first client in stage 0.
bind1-Inv :
    (q : PadRequest) (p : Ptr) (st : Pads)
    → st.counter ≡ 1
    → Phase1 (some (q, p)) st.counter 0
    → Inv st
    → Inv (put_pending pad1 q p (forgot pad1 st))
bind1-Inv q p st c f inv = record {
  top = inv.top;
  unbound0 = inv.unbound0;
  bound0 = inv.bound0;
  bound1 = λ h. absurd (omega (arith, c, h));
  phase0 = inv.phase0;
  phase1 = f;
}

bind0-Inv :
    (q : PadRequest) (p : Ptr) (st : Pads)
    → st.counter ≡ 0
    → Phase0 (some (q, p)) st.counter 0
    → Inv st
    → Inv (put_pending pad0 q p (forgot pad0 st))
bind0-Inv q p st c f inv = record {
  top = inv.top;
  unbound0 = λ h. refl;
  bound0 = λ h. absurd (omega (arith, c, h));
  bound1 = λ h. absurd (omega (arith, c, h));
  phase0 = f;
  phase1 = inv.phase1;
}

pub pad_init-Inv : (p : Ptr) (how : Sending) (st : Pads) → Inv st → Inv (pad_init p how st).1
unfolding pad_init
pad_init-Inv p how st inv =
    let P = λ (x : ℤ × Pads). Inv x.1 in
    if_rule P (st.counter == 0) _ _
      (λ e0.
        let c : st.counter ≡ 0 = eq_of_== st.counter 0 e0 in
        let u : Pads = record st { server = no_servers; ports = closed_ports st.ports } in
        let iu = forget-Inv st u c refl refl inv (inl c) in
        start_bind_rule Inv pad0 init_bind p how u iu (bind0-Inv init_bind p u c (c, refl) iu)
          (bind0-Inv lost p u c tt iu))
      (λ e0.
        if_rule P (st.counter == 1) _ _
          (λ e1.
            let c : st.counter ≡ 1 = eq_of_== st.counter 1 e1 in
            start_bind_rule Inv pad1 init_bind p how st inv
              (bind1-Inv init_bind p st c (omega (arith, c), refl) inv)
              (bind1-Inv lost p st c tt inv))
          (λ e1.
            if_rule P (st.counter == 2) _ _
              (λ e2.
                let u = put_word 0 0x12 st in
                init_call-Inv p how u (ground arith) (ground arith)
                  (Alike-Inv st u (refl, refl, refl) inv))
              (λ e2.
                if_rule P (st.counter == 3) _ _
                  (λ e3.
                    let u = put_word 16 st.open_slot (put_word 0 0x10 st) in
                    init_call-Inv p how u (ground arith) (ground arith)
                      (Alike-Inv st u (refl, refl, refl) inv))
                  (λ e3. Alike-Inv st (finish_call p (pos 1) st) (refl, refl, refl) inv))))
