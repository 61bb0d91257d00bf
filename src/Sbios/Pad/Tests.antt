-- ===== src/Sbios/Pad/Tests.antt =====
-- The pads before anything is initialised, and the theorems at such states.
use kernelreloaded.Common.{
  Option, ℕ, ◌≤◌, ◌<◌, ◌≡◌, refl, ◌≢◌, true, false, none, some, [], arith, pos, replicate,
}
use kernelreloaded.Sbios.Pad.{
  goes_out, Ptr, PadSif, pad0, pad1, PadRequest, PadData, Pads, pad_init, pad_init_callback,
  no_servers, start_bind, start_call,
}
use kernelreloaded.Sbios.Pad.Ports.{pad_port_close, closed, answer, callback, state_stable}
use kernelreloaded.Sbios.Pad.Steps.{init, Start, Reach, start, later}
use kernelreloaded.Sbios.Pad.Reachable.{AnsweredLegally, Initial, Reach-Staged}
use kernelreloaded.Sbios.Pad.Progress.{Idle, round, rounds, rounds-done}

abbrev no_data : PadData
no_data = record {
  bytes = replicate 32 0xff;
  frame = 0;
  length = 0;
  state = state_stable;
  req_state = 0;
  current_task = 0;
  button_data_ready = 0;
}

abbrev blank : Pads
blank = record {
  counter = 0;
  server = no_servers;
  pending = λ k. none;
  buffer = λ i. 1;
  ports = λ i j. record { open_flag = false; port = 0; slot = 0; pad_data = 0; pad_buf = 0 };
  memory = λ x. (no_data, no_data);
  results = λ p. pos 0;
  ended = [];
  open_slot = 0x4000;
}

blank-Start : Start blank
blank-Start = record { counter = refl; unbound0 = refl; idle0 = refl; idle1 = refl }

abbrev counter_of : Option Pads → ℕ
counter_of none = 0
counter_of (some u) = u.counter

-- The stages are left one by one, and a server that is not there is asked for again.
stages :
    (counter_of (round 7 0 (λ i. 1) blank) ≡ 0)
    × (counter_of (rounds 3 7 5 (λ i. 1) blank) ≡ 3)
    × (counter_of (rounds 4 7 5 (λ i. 1) blank) ≡ 4)
unfolding round pad_init start_bind start_call answer callback pad_init_callback
stages = (refl, refl, refl)

begun : Pads
begun = (pad_init 7 goes_out blank).1

Reach-Staged_example :
    (begun.counter ≤ 4)
    × (0 < begun.counter → begun.server pad0 ≢ 0)
    × (1 < begun.counter → begun.server pad1 ≢ 0)
    × ((k : PadSif) (q : PadRequest) (p : Ptr) (server : ℕ) (words : ℕ → ℕ)
        → begun.pending k ≡ some (q, p)
        → Initial q
        → AnsweredLegally p (answer k q p server words begun))
unfolding begun
Reach-Staged_example = Reach-Staged (later (start blank-Start) (init 7 goes_out))

rounds-done_example :
    (u : Pads) × (rounds 4 7 5 (λ i. 1) blank ≡ some u)
    × Reach u
    × (u.counter ≡ 4)
    × (u.results 7 ≡ pos 1)
    × Idle u
rounds-done_example =
    rounds-done 3 7 5 (λ i. 1) blank (λ e. omega (arith, e)) refl (refl, refl) (start blank-Start)
      (omega arith)

-- A slot with pad data at 0x100.
abbrev open_pad : Pads
open_pad = record blank {
  ports = λ i j. record { open_flag = true; port = 0; slot = 0; pad_data = 0x100; pad_buf = 0 };
}

-- The third port is not there.
far_port : pad_port_close 2 0 7 goes_out open_pad ≡ none
unfolding pad_port_close closed start_call
far_port = refl
