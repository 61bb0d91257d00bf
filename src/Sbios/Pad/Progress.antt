-- ===== src/Sbios/Pad/Progress.antt =====
-- The initialisation of pad.c comes to its end when each request is replied well.
use kernelreloaded.Common.{
  Option, ◌>>=◌, zero, eq_of_==, suc, if_rule, inr, ==_refl, ◌∙◌, inl, ap, Bool-cases, ◌<◌, ℤ,
  false, ℕ, ◌+◌, ◌≡◌, refl, ◌≢◌, true, none, some, arith, ◌==◌, if◌then◌else◌, pos,
}
use kernelreloaded.Common.Ints.{int_of}
use kernelreloaded.Sbios.Pad.{
  goes_out, put_word, Ptr, PadSif, pad0, pad1, PadRequest, init_bind, init_call, Pads, no_servers,
  closed_ports, pad_init, start_bind, start_call, finish_call, put_at, is_pos,
}
use kernelreloaded.Sbios.Pad.Ports.{answer, callback}
use kernelreloaded.Sbios.Pad.Callbacks.{next, stage0_goes, stage1_goes, stage2_goes, stage3_goes}
use kernelreloaded.Sbios.Pad.Steps.{init, replied, Reach, later}

abbrev pub Idle : Pads → Type 0
Idle st = (st.pending pad0 ≡ none) × (st.pending pad1 ≡ none)

-- One call of `sbcall_padinit`, whose request goes out, and the answer to that request.
unfoldable pub round : Ptr → ℕ → (ℕ → ℕ) → Pads → Option Pads
round p server words st =
    let sent = (pad_init p goes_out st).1 in
    if st.counter == 0
    then answer pad0 init_bind p server words sent
    else if st.counter == 1
    then answer pad1 init_bind p server words sent
    else answer pad0 init_call p server words sent

-- What a round comes to.
record Advanced (p : Ptr) (st : Pads) (o : Option Pads) : Type 0 where
  u : Pads
  run : o ≡ some u
  reach : Reach st → Reach u
  counter : u.counter ≡ st.counter + 1
  idle : Idle u
  result : u.results p ≡ (if st.counter == 3 then pos 1 else pos 0)

module _ (p : Ptr) (server : ℕ) (words : ℕ → ℕ) (bound : server ≢ 0)
    (version : is_pos (int_of (words 3)) ≡ true) (st : Pads) (idle : Idle st) where
  begun : Pads
  begun = (pad_init p goes_out st).1

  -- The step of the call and the one of the answer.
  both :
      (k : PadSif) (q : PadRequest) (u : Pads)
      → begun.pending k ≡ some (q, p)
      → answer k q p server words begun ≡ some u
      → Reach st
      → Reach u
  unfolding begun
  both k q u under run r = later (later r (init p goes_out)) (replied k q p server words under run)

  -- The callback goes on to the next stage.
  advanced :
      (w : Pads) (o : Option Pads) (v : ℤ)
      → ((u : Pads) → o ≡ some u → Reach st → Reach u)
      → o ≡ some (finish_call p v (next p w))
      → w.counter ≡ st.counter
      → Idle w
      → v ≡ (if st.counter == 3 then pos 1 else pos 0)
      → Advanced p st o
  advanced w o v reach e c i result = record {
    u = finish_call p v (next p w);
    run = e;
    reach = reach (finish_call p v (next p w)) e;
    counter = ap (λ n. n + 1) c;
    idle = i;
    result = rw (==_refl p) result;
  }

  sent_bind : PadSif → Pads → Pads
  sent_bind k s = record s {
    server = put_at k 0 s.server;
    pending = put_at k (some (init_bind, p)) s.pending;
  }

  sent_call : (ℕ → ℕ) → Pads
  sent_call b = record st { pending = put_at pad0 (some (init_call, p)) st.pending; buffer = b }

  first : Pads
  first = record st { server = no_servers; ports = closed_ports st.ports }

  run0 : st.counter ≡ 0 → (pad_init p goes_out st).1 ≡ sent_bind pad0 first
  unfolding pad_init start_bind sent_bind first
  run0 c = let e : (st.counter == 0) ≡ true = ground arith in rw (e, idle.0, start_bind) refl

  run1 : st.counter ≡ 1 → (pad_init p goes_out st).1 ≡ sent_bind pad1 st
  unfolding pad_init start_bind sent_bind
  run1 c =
      let e : (st.counter == 0) ≡ false = ground arith in
      let f : (st.counter == 1) ≡ true = ground arith in rw (e, f, idle.1, start_bind) refl

  run_call :
      1 < st.counter → st.counter < 4 → (b : ℕ → ℕ) × ((pad_init p goes_out st).1 ≡ sent_call b)
  unfolding pad_init start_call sent_call
  run_call lo hi =
      let e : (st.counter == 0) ≡ false = ground arith in
      let f : (st.counter == 1) ≡ false = ground arith in
      elim (Bool-cases (st.counter == 2)) [
        | inl g ↦ ((put_word 0 0x12 st).buffer, rw (e, f, g, idle.0, start_call) refl)
        | inr g ↦
            let h : (st.counter == 3) ≡ true = ground arith in
            (
              (put_word 16 st.open_slot (put_word 0 0x10 st)).buffer,
              rw (e, f, g, h, idle.0, start_call) refl,
            )
      ]

  at_bind : PadSif → Pads → Pads
  at_bind k s = record s {
    server = put_at k server (put_at k 0 s.server);
    pending = put_at k none (put_at k (some (init_bind, p)) s.pending);
  }

  at_call : Pads
  at_call = record st {
    pending = put_at pad0 none (put_at pad0 (some (init_call, p)) st.pending);
    buffer = words;
  }

  result_of :
      (v : ℤ)
      → (st.counter == 3) ≡ false
      → v ≡ pos 0
      → v ≡ (if st.counter == 3 then pos 1 else pos 0)
  result_of v e f = rw e f

  round0 : st.counter ≡ 0 → Advanced p st (answer pad0 init_bind p server words begun)
  unfolding begun answer callback sent_bind first at_bind
  round0 c =
      advanced (at_bind pad0 first) _ (pos 0) (λ u. both pad0 init_bind u (rw (run0 c) refl))
        (rw (run0 c) (ap some (stage0_goes p (at_bind pad0 first) c bound))) refl (refl, idle.1)
        (result_of (pos 0) (ground arith) refl)

  round1 : st.counter ≡ 1 → Advanced p st (answer pad1 init_bind p server words begun)
  unfolding begun answer callback sent_bind at_bind
  round1 c =
      advanced (at_bind pad1 st) _ (pos 0) (λ u. both pad1 init_bind u (rw (run1 c) refl))
        (rw (run1 c) (ap some (stage1_goes p (at_bind pad1 st) c bound))) refl (idle.0, refl)
        (result_of (pos 0) (ground arith) refl)

  round2 : st.counter ≡ 2 → Advanced p st (answer pad0 init_call p server words begun)
  unfolding begun answer callback sent_call at_call
  round2 c =
      let (b, r) = run_call (omega (arith, c)) (omega (arith, c)) in
      advanced at_call _ (pos 0) (λ u. both pad0 init_call u (rw r refl))
        (rw r (ap some (stage2_goes p at_call c version))) refl (refl, idle.1)
        (result_of (pos 0) (ground arith) refl)

  round3 : st.counter ≡ 3 → Advanced p st (answer pad0 init_call p server words begun)
  unfolding begun answer callback sent_call at_call
  round3 c =
      let (b, r) = run_call (omega (arith, c)) (omega (arith, c)) in
      let last : (st.counter == 3) ≡ true = ground arith in
      advanced at_call _ (pos 1) (λ u. both pad0 init_call u (rw r refl))
        (rw r (ap some (stage3_goes p at_call c))) refl (refl, idle.1) (rw last refl)

  round-Advanced : st.counter < 4 → Advanced p st (round p server words st)
  unfolding round begun
  round-Advanced h =
      if_rule (Advanced p st) (st.counter == 0) _ _ (λ e. round0 (eq_of_== st.counter 0 e))
        (λ e.
          if_rule (Advanced p st) (st.counter == 1) _ _ (λ f. round1 (eq_of_== st.counter 1 f))
            (λ f. elim (Bool-cases (st.counter == 2)) [
              | inl g ↦ round2 (eq_of_== st.counter 2 g)
              | inr g ↦ round3 (ground arith)
            ]))

abbrev pub rounds : ℕ → Ptr → ℕ → (ℕ → ℕ) → Pads → Option Pads
rounds zero p server words st = some st
rounds (suc n) p server words st = round p server words st >>= rounds n p server words

-- With `n` stages still to go, and no request under way, `n` calls of `sbcall_padinit` whose requests
-- go out, each replied with a server that is not NULL and a positive version before the next one is
-- made, bring the counter to 4; the last answer is the one that reports 1 to the caller. The state
-- that they lead to is reachable, with no request under way.
pub rounds-done :
    (n : ℕ) (p : Ptr) (server : ℕ) (words : ℕ → ℕ) (st : Pads)
    → server ≢ 0
    → is_pos (int_of (words 3)) ≡ true
    → Idle st
    → Reach st
    → st.counter + suc n ≡ 4
    → (u : Pads) × (rounds (suc n) p server words st ≡ some u)
      × Reach u
      × (u.counter ≡ 4)
      × (u.results p ≡ pos 1)
      × Idle u
rounds-done zero p server words st bound version idle r h =
    let a = round-Advanced p server words bound version st idle (omega arith) in
    let last : (st.counter == 3) ≡ true = ground arith in
    (a.u, rw a.run refl, a.reach r, omega (arith, a.counter), a.result ∙ rw last refl, a.idle)
rounds-done (suc n) p server words st bound version idle r h =
    let a = round-Advanced p server words bound version st idle (omega arith) in
    let (u, run, reach, counter, result, free) =
      rounds-done n p server words a.u bound version a.idle (a.reach r)
        (omega (arith, a.counter)) in
    (u, rw a.run run, reach, counter, result, free)
