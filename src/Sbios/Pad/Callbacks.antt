-- ===== src/Sbios/Pad/Callbacks.antt =====
-- What the callbacks of pad.c do to the stage of the initialisation.
use kernelreloaded.Common.{
  ==_ne, negsuc, ◌+◌, true, pos, false, ◌==◌, eq_of_==, ==_refl, ℤ, arith, Bool-cases, inl, inr,
  refl, ℕ, ◌<◌, ◌≡◌, ◌≢◌, Option, none, some,
}
use kernelreloaded.Sbios.Pad.{
  lost, Ptr, pad0, pad1, PadRequest, init_bind, init_call, end_call, port_open, port_close,
  set_main_mode, info_press_mode, set_button_info, set_act_align, set_act_direct, Pads,
  pad_init_callback, is_pos, answer_word, finish_call, put_at,
}
use kernelreloaded.Sbios.Pad.Stages.{lower-Phase1, Phase0, Phase1, Inv, Alike-Inv}

-- A callback that leaves the stage as it is, and one that goes on to the next.
module _ (p : Ptr) (u : Pads) where
  abbrev pub next : Pads
  next = record u { counter = u.counter + 1 }

  stage0_stays : u.counter ≡ 0 → u.server pad0 ≡ 0 → pad_init_callback p u ≡ finish_call p (pos 0) u
  unfolding pad_init_callback
  stage0_stays c s = ground (arith, c, s)

  pub stage0_goes :
      u.counter ≡ 0 → u.server pad0 ≢ 0 → pad_init_callback p u ≡ finish_call p (pos 0) next
  unfolding pad_init_callback
  stage0_goes c s = ground (arith, c, s)

  stage1_stays : u.counter ≡ 1 → u.server pad1 ≡ 0 → pad_init_callback p u ≡ finish_call p (pos 0) u
  unfolding pad_init_callback
  stage1_stays c s = ground (arith, c, s)

  pub stage1_goes :
      u.counter ≡ 1 → u.server pad1 ≢ 0 → pad_init_callback p u ≡ finish_call p (pos 0) next
  unfolding pad_init_callback
  stage1_goes c s = ground (arith, c, s)

  at_2 :
      u.counter ≡ 2
      → ((u.counter == 0) ≡ false) × ((u.counter == 1) ≡ false) × ((u.counter == 2) ≡ true)
  at_2 c = (ground arith, ground arith, ground arith)

  stage2_stays :
      u.counter ≡ 2
      → is_pos (answer_word 12 u) ≡ false
      → pad_init_callback p u ≡ finish_call p (negsuc 5) u
  unfolding pad_init_callback
  stage2_stays c s = let (e0, e1, e2) = at_2 c in rw (e0, e1, e2, s) refl

  pub stage2_goes :
      u.counter ≡ 2
      → is_pos (answer_word 12 u) ≡ true
      → pad_init_callback p u ≡ finish_call p (pos 0) next
  unfolding pad_init_callback
  stage2_goes c s = let (e0, e1, e2) = at_2 c in rw (e0, e1, e2, s) refl

  pub stage3_goes : u.counter ≡ 3 → pad_init_callback p u ≡ finish_call p (pos 1) next
  unfolding pad_init_callback
  stage3_goes c = ground (arith, c)

-- The answers that are not the initialisation's leave the three fields, or reset them.
pub received-Inv :
    (st : Pads) (words : ℕ → ℕ)
    → Inv st
    → Inv (record st { pending = put_at pad0 none st.pending; buffer = words })
received-Inv st words inv = record {
  top = inv.top;
  unbound0 = inv.unbound0;
  bound0 = inv.bound0;
  bound1 = inv.bound1;
  phase0 = tt;
  phase1 = inv.phase1;
}

pub finish_call-Inv : (p : Ptr) (v : ℤ) (st : Pads) → Inv st → Inv (finish_call p v st)
finish_call-Inv p v st inv = Alike-Inv st (finish_call p v st) (refl, refl, refl) inv

-- The callback of the initialisation, and the result that it gives.
abbrev pub Legal : Ptr → Pads → Type 0
Legal p u = Inv u × (u.results p ≢ negsuc 19)

finished : (p : Ptr) (v : ℤ) (u : Pads) → v ≢ negsuc 19 → Inv u → Legal p (finish_call p v u)
finished p v u n inv = (finish_call-Inv p v u inv, λ e. n (rw (==_refl p) at e))

next-Phase0 : (o : Option (PadRequest × Ptr)) (c s : ℕ) → c ≡ 1 → Phase0 o c s → Phase0 o (c + 1) s
next-Phase0 none c s h f = tt
next-Phase0 (some (init_bind, p)) c s h f = absurd (omega (arith, f.0))
next-Phase0 (some (init_call, p)) c s h f = absurd (omega (arith, f.0))
next-Phase0 (some (end_call, p)) c s h f = tt
next-Phase0 (some (port_open port slot, p)) c s h f = tt
next-Phase0 (some (port_close, p)) c s h f = tt
next-Phase0 (some (set_main_mode port slot, p)) c s h f = tt
next-Phase0 (some (info_press_mode, p)) c s h f = tt
next-Phase0 (some (set_button_info port slot, p)) c s h f = tt
next-Phase0 (some (set_act_align port slot, p)) c s h f = tt
next-Phase0 (some (set_act_direct, p)) c s h f = tt
next-Phase0 (some (lost, p)) c s h f = tt

late-Phase1 : (o : Option (PadRequest × Ptr)) (c d s : ℕ) → 1 < c → Phase1 o c s → Phase1 o d s
late-Phase1 none c d s h f = tt
late-Phase1 (some (init_bind, p)) c d s h f = absurd (omega (arith, f.0))
late-Phase1 (some (init_call, p)) c d s h f = f
late-Phase1 (some (end_call, p)) c d s h f = f
late-Phase1 (some (port_open port slot, p)) c d s h f = f
late-Phase1 (some (port_close, p)) c d s h f = f
late-Phase1 (some (set_main_mode port slot, p)) c d s h f = f
late-Phase1 (some (info_press_mode, p)) c d s h f = f
late-Phase1 (some (set_button_info port slot, p)) c d s h f = f
late-Phase1 (some (set_act_align port slot, p)) c d s h f = f
late-Phase1 (some (set_act_direct, p)) c d s h f = f
late-Phase1 (some (lost, p)) c d s h f = tt

pub bind0-Legal :
    (p : Ptr) (server : ℕ) (st : Pads)
    → Inv st
    → st.counter ≡ 0
    → Legal p (
        pad_init_callback p (record st {
          pending = put_at pad0 none st.pending;
          server = put_at pad0 server st.server;
        }))
bind0-Legal p server st inv c =
    let u : Pads = record st {
      pending = put_at pad0 none st.pending;
      server = put_at pad0 server st.server;
    } in
    elim (Bool-cases (server == 0)) [
      | inl z ↦ rw (stage0_stays p u c (eq_of_== server 0 z)) (
          finished p (pos 0) u (λ e. cc)
            (record {
              top = inv.top;
              unbound0 = λ h. eq_of_== server 0 z;
              bound0 = λ h. absurd (omega (arith, c, h));
              bound1 = λ h. absurd (omega (arith, c, h));
              phase0 = tt;
              phase1 = inv.phase1;
            }))
      | inr n ↦ rw (stage0_goes p u c (==_ne server 0 n)) (
          finished p (pos 0) (next p u) (λ e. cc)
            (record {
              top = omega (arith, c);
              unbound0 = λ h. absurd (omega (arith, h));
              bound0 = λ h. ==_ne server 0 n;
              bound1 = λ h. absurd (omega (arith, c, h));
              phase0 = tt;
              phase1 =
                  lower-Phase1 (st.pending pad1) st.counter (st.counter + 1) (st.server pad1)
                    (st.server pad1) (omega (arith, c)) (λ e. e) inv.phase1;
            }))
    ]

pub bind1-Legal :
    (p : Ptr) (server : ℕ) (st : Pads)
    → Inv st
    → st.counter < 2
    → Legal p (
        pad_init_callback p (record st {
          pending = put_at pad1 none st.pending;
          server = put_at pad1 server st.server;
        }))
bind1-Legal p server st inv c =
    let u : Pads = record st {
      pending = put_at pad1 none st.pending;
      server = put_at pad1 server st.server;
    } in
    let iu : Inv u = record {
      top = inv.top;
      unbound0 = inv.unbound0;
      bound0 = inv.bound0;
      bound1 = λ h. absurd (omega (arith, c, h));
      phase0 = inv.phase0;
      phase1 = tt;
    } in
    elim (Bool-cases (st.counter == 0)) [
      | inl z ↦
          let c0 = eq_of_== st.counter 0 z in
          rw (stage0_stays p u c0 (inv.unbound0 c0)) (finished p (pos 0) u (λ e. cc) iu)
      | inr nz ↦
          let c1 : st.counter ≡ 1 = ground arith in
          elim (Bool-cases (server == 0)) [
            | inl z ↦
                rw (stage1_stays p u c1 (eq_of_== server 0 z)) (finished p (pos 0) u (λ e. cc) iu)
            | inr n ↦ rw (stage1_goes p u c1 (==_ne server 0 n)) (
                finished p (pos 0) (next p u) (λ e. cc)
                  (record {
                    top = omega (arith, c1);
                    unbound0 = λ h. absurd (omega (arith, h));
                    bound0 = λ h. inv.bound0 (omega (arith, c1));
                    bound1 = λ h. ==_ne server 0 n;
                    phase0 =
                        next-Phase0 (st.pending pad0) st.counter (st.server pad0) c1 inv.phase0;
                    phase1 = tt;
                  }))
          ]
    ]

up-Inv :
    (p : Ptr) (u : Pads)
    → 1 < u.counter
    → u.counter < 4
    → u.pending pad0 ≡ none
    → Inv u
    → Inv (next p u)
up-Inv p u lo hi idle inv = record {
  top = omega arith;
  unbound0 = λ h. absurd (omega (arith, h));
  bound0 = λ h. inv.bound0 (omega arith);
  bound1 = λ h. inv.bound1 lo;
  phase0 = rw idle tt;
  phase1 = late-Phase1 (u.pending pad1) u.counter (u.counter + 1) (u.server pad1) lo inv.phase1;
}

pub call-Legal :
    (p : Ptr) (u : Pads)
    → Inv u
    → 1 < u.counter
    → u.counter < 4
    → u.pending pad0 ≡ none
    → Legal p (pad_init_callback p u)
call-Legal p u inv lo hi idle = elim (Bool-cases (u.counter == 2)) [
  | inr n3 ↦
      rw (stage3_goes p u (ground arith))
        (finished p (pos 1) (next p u) (λ e. cc) (up-Inv p u lo hi idle inv))
  | inl e2 ↦
      let c2 = eq_of_== u.counter 2 e2 in
      elim (Bool-cases (is_pos (answer_word 12 u))) [
        | inl good ↦
            rw (stage2_goes p u c2 good)
              (finished p (pos 0) (next p u) (λ e. cc) (up-Inv p u lo hi idle inv))
        | inr bad ↦ rw (stage2_stays p u c2 bad) (finished p (negsuc 5) u (λ e. ground arith) inv)
      ]
]
