-- ===== src/Sbios/SifRpc/Requests.antt =====
-- `SifBindRpc` and `SifCallRpc` without a wait: every outcome, and what each leaves.
use kernelreloaded.Common.Bits.{clear_bit}
use kernelreloaded.Common.{
  ◌%◌, arith, sym, false, pos, Option-cases, ◌⊎◌, inr, ℤ, inl, [], ◌≢◌, true, get_or-set, ap,
  Option, Bool-cases, ==_refl, ℕ, ◌≡◌, refl, ◌∙◌, none, some, List, ◌==◌, if◌then◌else◌, length-set,
}
use kernelreloaded.Sbios.SifRpc.Table.{
  Rpc, Packet, Client, Body, no_packet, packet_at, allocated, put_packet, put_client, free_packet,
  pkt_alloc, invalid_arg, claim, bind,
}
use kernelreloaded.Sbios.SifRpc.Request.{
  BindArgs, CallArgs, Command, no_wait, bind_command, bind_client, bind_rpc, call_command,
  call_client, call_body, call_rpc,
}
use kernelreloaded.Sbios.SifRpc.Reply.{check_stat}
use kernelreloaded.Sbios.SifRpc.Packets.{
  Got, get_packet-Got, claim-allocated, free_packet-at, freed-allocated,
}
use kernelreloaded.Sbios.SifRpc.Ownership.{Inv, Inv-free, Inv-tie}

-- Two successive rewrites of one packet.
twice :
    (r r' r'' : Rpc) (p : ℕ) (v w : Packet)
    → ((j : ℕ) → packet_at r' j ≡ (if p == j then v else packet_at r j))
    → ((j : ℕ) → packet_at r'' j ≡ (if p == j then w else packet_at r' j))
    → (j : ℕ) → packet_at r'' j ≡ (if p == j then w else packet_at r j)
twice r r' r'' p v w first second j = elim (Bool-cases (p == j)) [
  | inl hit ↦ second j ∙ rw hit
  | inr miss ↦ second j ∙ rw miss (first j ∙ rw miss)
]

-- A packet that was taken is given back.
give_back-Inv :
    (r r' : Rpc) (p : ℕ) (held : List ℕ) → Inv r held → Got r p r' → Inv (free_packet p r') held
unfolding free_packet
give_back-Inv r r' p held inv g =
    let q = packet_at r' p in
    let freed : Packet = record q { rpc_id = 0; rec_id = clear_bit q.rec_id 0 } in
    Inv-free r (free_packet p r') held inv (length-set r'.packets p freed ∙ g.size) p freed
      g.was_free (freed-allocated q)
      (twice r r' (free_packet p r') p (claim p g.pid (packet_at r p)) freed g.packet
        (λ j. free_packet-at r' p j (rw g.size g.within)))
      (λ c. ap (λ (f : ℕ → Client). (f c).pkt_addr) g.clients)

check_stat_of :
    (q : Rpc) (c p : ℕ)
    → (q.clients c).pkt_addr ≡ some p
    → (q.clients c).rpc_id ≡ (packet_at q p).rpc_id
    → allocated (packet_at q p) ≡ true
    → check_stat c q ≡ true
unfolding check_stat
check_stat_of q c p e same a = rw (e, check_stat, same, ==_refl (packet_at q p).rpc_id) a

-- A packet that was taken is tied to an idle client and filled.
module _ (r r' : Rpc) (c p : ℕ) (v : Client) (b : Body) (held : List ℕ) (inv : Inv r held)
    (g : Got r p r') (lone : (r.clients c).pkt_addr ≡ none) (mine : v.pkt_addr ≡ some p) where
  abbrev filled : Packet
  filled = record (packet_at r' p) { pkt_addr = some p; client = c; body = b }

  abbrev tied : Rpc
  tied = put_packet p filled (put_client c v r')

  claimed : packet_at r' p ≡ claim p g.pid (packet_at r p)
  claimed = g.packet p ∙ rw (==_refl p)

  filled-allocated : allocated filled ≡ true
  filled-allocated = ap allocated claimed ∙ claim-allocated p g.pid (packet_at r p)

  tied-at : (j : ℕ) → packet_at tied j ≡ (if p == j then filled else packet_at r j)
  tied-at =
      twice r r' tied p (claim p g.pid (packet_at r p)) filled g.packet
        (λ j. get_or-set r'.packets p j filled no_packet (rw g.size g.within))

  tied-clients :
      (x : ℕ) → (tied.clients x).pkt_addr ≡ (if x == c then some p else (r.clients x).pkt_addr)
  tied-clients x = elim (Bool-cases (x == c)) [
    | inl hit ↦ rw hit mine
    | inr miss ↦ rw miss (ap (λ (f : ℕ → Client). (f x).pkt_addr) g.clients)
  ]

  tied-Inv : Inv tied held
  tied-Inv =
      Inv-tie r tied held inv c p (length-set r'.packets p filled ∙ g.size) filled g.within
        g.was_free filled-allocated refl tied-at tied-clients lone

  tied-client : tied.clients c ≡ v
  tied-client = rw (==_refl c)

  -- The request counts as under way.
  tied-check_stat : v.rpc_id ≡ (packet_at r' p).rpc_id → check_stat c tied ≡ true
  tied-check_stat same =
      let at : packet_at tied p ≡ filled = tied-at p ∙ rw (==_refl p) in
      check_stat_of tied c p (ap (λ (k : Client). k.pkt_addr) tied-client ∙ mine)
        (ap (λ (k : Client). k.rpc_id) tied-client ∙ same ∙ ap (λ (k : Packet). k.rpc_id) (sym at))
        (ap allocated at ∙ filled-allocated)

-- What a request can come to: refused, with every client and every packet in use as it was; or
-- under way, with the client tied to a packet.
pub data Outcome {S : Type 0} (c : ℕ) (held : List ℕ) (st : Rpc × S) (r : Option (ℤ × Rpc × S))
    : Type 0 where
  refused :
      (v : ℤ) (after : Rpc) (s : S)
      → r ≡ some (v, after, s)
      → (v ≡ pkt_alloc) ⊎ (v ≡ invalid_arg)
      → after.clients ≡ st.0.clients
      → Inv after held
      → Outcome c held st r
  under_way :
      (p : ℕ) (after : Rpc) (s : S)
      → r ≡ some (pos 0, after, s)
      → (st.0.clients c).pkt_addr ≡ none
      → (after.clients c).pkt_addr ≡ some p
      → check_stat c after ≡ true
      → Inv after held
      → Outcome c held st r

module _ {S : Type 0} (send_cmd : Command → Rpc → S → ℕ × S) (r : Rpc) (s : S) (c : ℕ)
    (held : List ℕ) (inv : Inv r held)
    (sends : (k : Command) (q : Rpc) → (send_cmd k q s).0 ≢ 0) where
  -- With a ring that takes the command, `SifBindRpc` without a wait is either refused, with every
  -- client as it was, or under way, with the client, which was idle, tied to a packet and its state
  -- reported as busy; either way packets and clients belong together afterwards.
  pub bind_rpc-Outcome :
      (a : BindArgs)
      → no_wait a.mode ≡ true
      → Outcome c held (r, s) (bind_rpc send_cmd c a [] (r, s))
  unfolding bind_rpc
  bind_rpc-Outcome a quick = elim (get_packet-Got r) [
    | inl full ↦ refused pkt_alloc r s (rw (full.0, bind_rpc)) (inl refl) refl inv
    | inr (p, r', g) ↦ elim (Option-cases (r.clients c).pkt_addr) [
      | inr (q, busy) ↦
          let busy' = ap (λ (f : ℕ → Client). (f c).pkt_addr) g.clients ∙ busy in
          refused pkt_alloc (free_packet p r') s (rw (g.run, bind_rpc, busy')) (inl refl)
            (unfold free_packet in g.clients) (give_back-Inv r r' p held inv g)
      | inl lone ↦
          let lone' = ap (λ (f : ℕ → Client). (f c).pkt_addr) g.clients ∙ lone in
          let v : Client = bind_client send_cmd a p (packet_at r' p).rpc_id (r'.clients c) in
          let q = tied r r' c p v (bind a.sid) held inv g lone refl in
          let n : ((send_cmd (bind_command send_cmd p) q s).0 == 0) ≡ false =
            ground (arith, sends (bind_command send_cmd p) q) in
          under_way p q (send_cmd (bind_command send_cmd p) q s).1
            (rw (g.run, bind_rpc, lone', n, quick)) lone (rw (==_refl c))
            (tied-check_stat r r' c p v (bind a.sid) held inv g lone refl refl)
            (tied-Inv r r' c p v (bind a.sid) held inv g lone refl)
    ]
  ]

  -- With a ring that takes the command, `SifCallRpc` without a wait is either refused, with every
  -- client as it was, or under way, with the
  -- client, which was idle, tied to a packet and its state reported as busy; either way packets and
  -- clients belong together afterwards.
  pub call_rpc-Outcome :
      (a : CallArgs)
      → no_wait a.mode ≡ true
      → Outcome c held (r, s) (call_rpc send_cmd c a [] (r, s))
  unfolding call_rpc
  call_rpc-Outcome a quick = elim (Bool-cases (a.receive % 16 == 0)) [
    | inr crooked ↦ refused invalid_arg r s (rw crooked) (inr refl) refl inv
    | inl even ↦ elim (get_packet-Got r) [
      | inl full ↦ refused pkt_alloc r s (rw (even, full.0, call_rpc)) (inl refl) refl inv
      | inr (p, r', g) ↦ elim (Option-cases (r.clients c).pkt_addr) [
        | inr (q, busy) ↦
            let busy' = ap (λ (f : ℕ → Client). (f c).pkt_addr) g.clients ∙ busy in
            refused pkt_alloc (free_packet p r') s (rw (even, g.run, call_rpc, busy')) (inl refl)
              (unfold free_packet in g.clients) (give_back-Inv r r' p held inv g)
        | inl lone ↦
            let lone' = ap (λ (f : ℕ → Client). (f c).pkt_addr) g.clients ∙ lone in
            let v : Client = call_client send_cmd a p (packet_at r' p).rpc_id (r'.clients c) in
            let b = call_body send_cmd a (r'.clients c).server in
            let q = tied r r' c p v b held inv g lone refl in
            let k = call_command send_cmd p a (r'.clients c).buff in
            let n : ((send_cmd k q s).0 == 0) ≡ false = ground (arith, sends k q) in
            under_way p q (send_cmd k q s).1 (rw (even, g.run, call_rpc, lone', n, quick)) lone
              (rw (==_refl c)) (tied-check_stat r r' c p v b held inv g lone refl refl)
              (tied-Inv r r' c p v b held inv g lone refl)
      ]
    ]
  ]
