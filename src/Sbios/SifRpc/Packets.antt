-- ===== src/Sbios/SifRpc/Packets.antt =====
-- The packet table: what `_rpc_get_packet` and `rpc_packet_free` do to it.
use kernelreloaded.Common.Bits.{bit, clear_bit, bit-clear_bit}
use mathlib.Core.Option
use kernelreloaded.Common.{
  ==_refl, ap, get_or-set, ℕ, zero, suc, ◌<◌, ◌≡◌, refl, ◌∙◌, ◌⊎◌, inl, inr, true, false, Option,
  none, some, List, [], ◌∷◌, arith, ◌==◌, if◌then◌else◌, Bool-cases, Option-cases, length, get_or,
  set, length-set,
}
use kernelreloaded.Sbios.SifRpc.Table.{
  Rpc, Packet, no_packet, packet_at, allocated, first_free, claim, get_packet, free_packet,
  next_pid,
}

pub claim-allocated : (rid pid : ℕ) (p : Packet) → allocated (claim rid pid p) ≡ true
unfolding bit
claim-allocated rid pid p = ground arith

-- The search finds a free packet, and fails only where all are allocated.
map-suc : (o : Option ℕ) (p : ℕ) → Option.map suc o ≡ some p → (q : ℕ) × (p ≡ suc q) × (o ≡ some q)
map-suc none p e = ground arith
map-suc (some q) p e = (q, ground arith, refl)

map-suc-none : (o : Option ℕ) → Option.map suc o ≡ none → o ≡ none
map-suc-none none e = refl
map-suc-none (some q) e = ground arith

pub first_free-some :
    (ps : List Packet) (p : ℕ)
    → first_free ps ≡ some p
    → (p < length ps) × (allocated (get_or ps p no_packet) ≡ false)
unfolding first_free
first_free-some [] p e = ground arith
first_free-some (q ∷ ps) zero e = elim (Bool-cases (allocated q)) [
  | inl used ↦ let (n, z, f) = map-suc (first_free ps) 0 (rw used at e) in absurd (omega arith)
  | inr free ↦ (omega arith, free)
]
first_free-some (q ∷ ps) (suc p) e = elim (Bool-cases (allocated q)) [
  | inl used ↦
      let (n, z, f) = map-suc (first_free ps) (suc p) (rw used at e) in
      let np : n ≡ p = omega arith in
      let ih = first_free-some ps p (f ∙ ap some np) in (omega (arith, ih.0), ih.1)
  | inr free ↦ absurd (ground arith)
]

pub first_free-none :
    (ps : List Packet) (p : ℕ)
    → first_free ps ≡ none
    → p < length ps
    → allocated (get_or ps p no_packet) ≡ true
unfolding first_free
first_free-none [] p e h = absurd (omega arith)
first_free-none (q ∷ ps) zero e h = ground arith
first_free-none (q ∷ ps) (suc p) e h = elim (Bool-cases (allocated q)) [
  | inl used ↦ first_free-none ps p (map-suc-none (first_free ps) (rw used at e)) (omega arith)
  | inr free ↦ absurd (ground arith)
]

-- A packet that was free is taken: it is marked, and the others and the clients are as before.
pub record Got (r : Rpc) (p : ℕ) (r' : Rpc) : Type 0 where
  pub run : get_packet r ≡ some (p, r')
  pub within : p < length r.packets
  pub was_free : allocated (packet_at r p) ≡ false
  pub pid : ℕ
  pub packet :
      (j : ℕ) → packet_at r' j ≡ (if p == j then claim p pid (packet_at r p) else packet_at r j)
  pub size : length r'.packets ≡ length r.packets
  pub clients : r'.clients ≡ r.clients

-- `_rpc_get_packet` takes a free packet, or fails with all packets in use.
pub get_packet-Got :
    (r : Rpc)
    → ((get_packet r ≡ none) × ((p : ℕ) → p < length r.packets → allocated (packet_at r p) ≡ true))
      ⊎ ((p : ℕ) × (r' : Rpc) × Got r p r')
unfolding get_packet
get_packet-Got r = elim (Option-cases (first_free r.packets)) [
  | inl e ↦ inl (rw (e, get_packet), λ p h. first_free-none r.packets p e h)
  | inr (p, e) ↦
      let f = first_free-some r.packets p e in
      let pid = (next_pid r.pid).0 in
      let r' : Rpc = record r {
        pid = (next_pid r.pid).1;
        packets = set r.packets p (claim p pid (packet_at r p));
      } in
      inr (
        p,
        r',
        record {
          run = rw (e, get_packet);
          within = f.0;
          was_free = f.1;
          pid = pid;
          packet = λ j. get_or-set r.packets p j (claim p pid (packet_at r p)) no_packet f.0;
          size = length-set r.packets p (claim p pid (packet_at r p));
          clients = refl;
        },
      )
]

pub free_packet-at :
    (r : Rpc) (p j : ℕ)
    → p < length r.packets
    → packet_at (free_packet p r) j ≡ (
        if p == j
        then record (packet_at r p) { rpc_id = 0; rec_id = clear_bit (packet_at r p).rec_id 0 }
        else packet_at r j)
unfolding free_packet
free_packet-at r p j h = get_or-set r.packets p j _ no_packet h

pub freed-allocated :
    (p : Packet) → allocated (record p { rpc_id = 0; rec_id = clear_bit p.rec_id 0 }) ≡ false
freed-allocated p = bit-clear_bit p.rec_id 0 0 ∙ ground arith

pub free_packet-freed :
    (r : Rpc) (p : ℕ) → p < length r.packets → allocated (packet_at (free_packet p r) p) ≡ false
free_packet-freed r p h = rw (free_packet-at r p p h, ==_refl p) (freed-allocated (packet_at r p))
