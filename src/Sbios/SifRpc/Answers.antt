-- ===== src/Sbios/SifRpc/Answers.antt =====
-- `_request_end`: the answer from the IOP frees the client and its packet.
use kernelreloaded.Common.Bits.{clear_bit}
use kernelreloaded.Common.{
  length-set, ==_refl, if_rule, false, ℕ, ◌≡◌, refl, inl, inr, none, some, List, ◌∷◌, arith, ◌==◌,
  if◌then◌else◌, Bool-cases,
}
use kernelreloaded.Sbios.SifRpc.Table.{
  Rpc, Packet, Client, Ptr, packet_at, allocated, put_client, free_packet,
}
use kernelreloaded.Sbios.SifRpc.Reply.{Answer, answered, has_callback, request_end}
use kernelreloaded.Sbios.SifRpc.Packets.{free_packet-freed, free_packet-at, freed-allocated}
use kernelreloaded.Sbios.SifRpc.Ownership.{Inv, Inv-release, Inv-drop}

pub answered-pkt_addr : (a : Answer) (c : Client) → (answered a c).pkt_addr ≡ none
answered-pkt_addr a c = ground arith

module _ {S : Type 0} (callback : Ptr → Ptr → Rpc × S → Rpc × S)
    (keeps : (f x : Ptr) (hs : List ℕ) (st : Rpc × S) → Inv st.0 hs → Inv (callback f x st).0 hs)
    (r : Rpc) (s : S) (a : Answer) (held : List ℕ) (inv : Inv r held) (p : ℕ)
    (mine : (r.clients a.client).pkt_addr ≡ some p) where
  abbrev pub untied : Rpc
  untied = put_client a.client (answered a (r.clients a.client)) r

  pub untied-Inv : Inv untied (p ∷ held)
  untied-Inv =
      Inv-release r untied held inv a.client p refl (λ j. refl)
        (λ x. elim (Bool-cases (x == a.client)) [
          | inl hit ↦ rw hit (answered-pkt_addr a (r.clients a.client))
          | inr miss ↦ rw miss
        ])
        mine

  abbrev pub told : Rpc × S
  told =
      if has_callback a (r.clients a.client)
      then callback (r.clients a.client).end_function (r.clients a.client).end_param (untied, s)
      else (untied, s)

  told-Inv : Inv told.0 (p ∷ held)
  told-Inv =
      if_rule (λ (st : Rpc × S). Inv st.0 (p ∷ held)) (has_callback a (r.clients a.client)) _ _
        (λ h. keeps _ _ (p ∷ held) (untied, s) untied-Inv) (λ h. untied-Inv)

  pub request_end_run : request_end callback a (r, s) ≡ some (free_packet p told.0, told.1)
  unfolding request_end
  request_end_run = rw mine

  -- An answer to a client with a request under way frees the client before its end function runs and
  -- the packet afterwards; packets and clients then belong together as before, and the packet can
  -- be taken again.
  pub request_end-Inv :
      (r' : Rpc) × (s' : S) × (request_end callback a (r, s) ≡ some (r', s'))
      × Inv r' held
      × (allocated (packet_at r' p) ≡ false)
  unfolding request_end free_packet
  request_end-Inv =
      let t = told.0 in
      let freed : Packet = record (packet_at t p) {
        rpc_id = 0;
        rec_id = clear_bit (packet_at t p).rec_id 0;
      } in
      let kept = told-Inv.kept p (rw (==_refl p)) in
      let at = λ (j : ℕ). free_packet-at t p j kept.0 in
      (
        free_packet p t,
        told.1,
        rw mine,
        Inv-drop t (free_packet p t) held p freed told-Inv (inv.apart a.client p mine)
            (length-set t.packets p freed) (freed-allocated (packet_at t p)) at (λ x. refl),
        free_packet-freed t p kept.0,
      )
