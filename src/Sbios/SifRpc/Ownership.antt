-- ===== src/Sbios/SifRpc/Ownership.antt =====
-- Who owns the packets: each allocated packet is tied to the one client that it names, or is about
-- to be freed; no packet is lost and none is shared.
use kernelreloaded.Common.{
  subst, ◌∷◌, ==_refl, ℕ, ◌<◌, ◌≡◌, sym, ap, ◌∙◌, ◌⊎◌, inl, inr, true, false, none, some, List,
  arith, ◌==◌, if◌then◌else◌, eq_of_==, Bool-cases, length, has,
}
use kernelreloaded.Sbios.SifRpc.Table.{Rpc, Packet, packet_at, allocated}

-- `held` lists the packets of requests that are answered and whose end function is running.
pub record Inv (r : Rpc) (held : List ℕ) : Type 0 where
  pub within : (c p : ℕ) → (r.clients c).pkt_addr ≡ some p → p < length r.packets
  pub marked : (c p : ℕ) → (r.clients c).pkt_addr ≡ some p → allocated (packet_at r p) ≡ true
  pub names : (c p : ℕ) → (r.clients c).pkt_addr ≡ some p → (packet_at r p).client ≡ c
  pub apart : (c p : ℕ) → (r.clients c).pkt_addr ≡ some p → has p held ≡ false
  pub kept :
      (p : ℕ) → has p held ≡ true → (p < length r.packets) × (allocated (packet_at r p) ≡ true)
  pub owner :
      (p : ℕ)
      → allocated (packet_at r p) ≡ true
      → (has p held ≡ true) ⊎ ((r.clients (packet_at r p).client).pkt_addr ≡ some p)

-- No two clients share a packet.
pub Inv-injective :
    (r : Rpc) (held : List ℕ) (c e p : ℕ)
    → Inv r held
    → (r.clients c).pkt_addr ≡ some p
    → (r.clients e).pkt_addr ≡ some p
    → c ≡ e
Inv-injective r held c e p inv hc he = sym (inv.names c p hc) ∙ inv.names e p he

-- States that agree on the packets and on the clients' pointers.
module _ (r r' : Rpc) (held : List ℕ) (inv : Inv r held)
    (size : length r'.packets ≡ length r.packets) where
  -- A packet that was free is rewritten and stays free.
  pub Inv-free :
      (p : ℕ) (v : Packet)
      → allocated (packet_at r p) ≡ false
      → allocated v ≡ false
      → ((j : ℕ) → packet_at r' j ≡ (if p == j then v else packet_at r j))
      → ((c : ℕ) → (r'.clients c).pkt_addr ≡ (r.clients c).pkt_addr)
      → Inv r' held
  Inv-free p v was now packet client = record {
    within = λ c q e. rw size (inv.within c q (sym (client c) ∙ e));
    marked = λ c q e.
        rw (other q (inv.marked c q (sym (client c) ∙ e))) (inv.marked c q (sym (client c) ∙ e));
    names = λ c q e.
        rw (other q (inv.marked c q (sym (client c) ∙ e))) (inv.names c q (sym (client c) ∙ e));
    apart = λ c q e. inv.apart c q (sym (client c) ∙ e);
    kept = λ q h. (rw size (inv.kept q h).0, rw (other q (inv.kept q h).1) (inv.kept q h).1);
    owner = λ q a.
        let same = stays q a in
        elim (inv.owner q (rw same at a)) [
          | inl h ↦ inl h
          | inr e ↦ inr (rw same (client (packet_at r q).client ∙ e))
        ];
  }
    where
      other : (q : ℕ) → allocated (packet_at r q) ≡ true → packet_at r' q ≡ packet_at r q
      other q a = elim (Bool-cases (p == q)) [
        | inl hit ↦
            let pq = eq_of_== p q hit in
            absurd (ground (arith, ap (λ x. allocated (packet_at r x)) pq))
        | inr miss ↦ packet q ∙ rw miss
      ]

      stays : (q : ℕ) → allocated (packet_at r' q) ≡ true → packet_at r' q ≡ packet_at r q
      stays q a = elim (Bool-cases (p == q)) [
        | inl hit ↦
            let e : packet_at r' q ≡ v = packet q ∙ rw hit in
            absurd (ground (arith, ap allocated e))
        | inr miss ↦ packet q ∙ rw miss
      ]

has-cons_ne : (q p : ℕ) (hs : List ℕ) → (p == q) ≡ false → has q (p ∷ hs) ≡ has q hs
has-cons_ne q p hs n = let e : (q == p) ≡ false = ground arith in rw e

module _ (r r' : Rpc) (held : List ℕ) (inv : Inv r held) (c p : ℕ)
    (size : length r'.packets ≡ length r.packets) where
  -- A client without a packet is tied to one that was free.
  pub Inv-tie :
      (v : Packet)
      → p < length r.packets
      → allocated (packet_at r p) ≡ false
      → allocated v ≡ true
      → v.client ≡ c
      → ((j : ℕ) → packet_at r' j ≡ (if p == j then v else packet_at r j))
      → ((x : ℕ) → (r'.clients x).pkt_addr ≡ (if x == c then some p else (r.clients x).pkt_addr))
      → (r.clients c).pkt_addr ≡ none
      → Inv r' held
  Inv-tie v room was now named packet client lone = record {
    within = λ x q e.
        by (λ q'. q' < length r'.packets) x q e (rw size room) (λ o. rw size (inv.within x q o));
    marked = λ x q e.
        by (λ q'. allocated (packet_at r' q') ≡ true) x q e (ap allocated new ∙ now)
          (λ o. rw (other q (inv.marked x q o)) (inv.marked x q o));
    names = λ x q e. elim (Bool-cases (x == c)) [
      | inl hit ↦
          let qp : p ≡ q = point x q hit e in
          rw (← qp) (ap (λ (k : Packet). k.client) new ∙ named ∙ sym (eq_of_== x c hit))
      | inr miss ↦
          let o = sym (client x ∙ rw miss) ∙ e in rw (other q (inv.marked x q o)) (inv.names x q o)
    ];
    apart = λ x q e. by (λ q'. has q' held ≡ false) x q e unheld (λ o. inv.apart x q o);
    kept = λ q h. (rw size (inv.kept q h).0, rw (other q (inv.kept q h).1) (inv.kept q h).1);
    owner = λ q a. elim (Bool-cases (p == q)) [
      | inl hit ↦
          let pq = eq_of_== p q hit in
          let nc : (packet_at r' q).client ≡ c =
            ap (λ j. (packet_at r' j).client) (sym pq)
            ∙ ap (λ (k : Packet). k.client) new
            ∙ named in
          inr (rw nc (client c ∙ rw (==_refl c) (ap some pq)))
      | inr miss ↦
          let same : packet_at r' q ≡ packet_at r q = packet q ∙ rw miss in
          elim (inv.owner q (rw same at a)) [
            | inl h ↦ inl h
            | inr o ↦ elim (Bool-cases ((packet_at r q).client == c)) [
              | inl hit ↦
                  let nn : none ≡ some q =
                    sym lone ∙ ap (λ k. (r.clients k).pkt_addr) (sym (eq_of_== _ c hit)) ∙ o in
                  absurd (ground arith)
              | inr far ↦ inr (rw same (client (packet_at r q).client ∙ rw far o))
            ]
          ]
    ];
  }
    where
      new : packet_at r' p ≡ v
      new = packet p ∙ rw (==_refl p)

      other : (q : ℕ) → allocated (packet_at r q) ≡ true → packet_at r' q ≡ packet_at r q
      other q a = elim (Bool-cases (p == q)) [
        | inl hit ↦
            let pq = eq_of_== p q hit in
            absurd (ground (arith, ap (λ x. allocated (packet_at r x)) pq))
        | inr miss ↦ packet q ∙ rw miss
      ]

      unheld : has p held ≡ false
      unheld = elim (Bool-cases (has p held)) [
        | inl h ↦ absurd (ground (arith, (inv.kept p h).1))
        | inr n ↦ n
      ]

      point : (x q : ℕ) → (x == c) ≡ true → (r'.clients x).pkt_addr ≡ some q → p ≡ q
      point x q hit e = let s : some p ≡ some q = sym (client x ∙ rw hit) ∙ e in cc

      by :
          (P : ℕ → Type 0) (x q : ℕ)
          → (r'.clients x).pkt_addr ≡ some q
          → P p
          → ((r.clients x).pkt_addr ≡ some q → P q)
          → P q
      by P x q e here there = elim (Bool-cases (x == c)) [
        | inl hit ↦ subst P (point x q hit e) here
        | inr miss ↦ there (sym (client x ∙ rw miss) ∙ e)
      ]

  -- A client gives up its packet, which is held until it is freed.
  pub Inv-release :
      ((j : ℕ) → packet_at r' j ≡ packet_at r j)
      → ((x : ℕ) → (r'.clients x).pkt_addr ≡ (if x == c then none else (r.clients x).pkt_addr))
      → (r.clients c).pkt_addr ≡ some p
      → Inv r' (p ∷ held)
  Inv-release packet client mine = record {
    within = λ x q e. rw size (inv.within x q (old x q e));
    marked = λ x q e. rw (packet q) (inv.marked x q (old x q e));
    names = λ x q e. rw (packet q) (inv.names x q (old x q e));
    apart = λ x q e. elim (Bool-cases (p == q)) [
      | inl hit ↦
          let xc : x ≡ c =
            Inv-injective r held x c p inv (old x q e ∙ ap some (sym (eq_of_== p q hit))) mine in
          let n : none ≡ some q = sym (client x ∙ rw (xc, ==_refl c)) ∙ e in absurd (ground arith)
      | inr miss ↦ has-cons_ne q p held miss ∙ inv.apart x q (old x q e)
    ];
    kept = λ q h. elim (Bool-cases (p == q)) [
      | inl hit ↦
          let pq = eq_of_== p q hit in
          (
            subst (λ k. k < length r'.packets) pq (rw size (inv.within c p mine)),
            rw (packet q) (subst (λ k. allocated (packet_at r k) ≡ true) pq (inv.marked c p mine)),
          )
      | inr miss ↦
          let k = inv.kept q (sym (has-cons_ne q p held miss) ∙ h) in
          (rw size k.0, rw (packet q) k.1)
    ];
    owner = λ q a. elim (Bool-cases (p == q)) [
      | inl hit ↦ let e : (q == p) ≡ true = ground arith in inl (rw e)
      | inr miss ↦ elim (inv.owner q (rw (packet q) at a)) [
        | inl h ↦ inl (has-cons_ne q p held miss ∙ h)
        | inr o ↦ elim (Bool-cases ((packet_at r q).client == c)) [
          | inl hit ↦
              let s : some p ≡ some q =
                sym mine ∙ ap (λ k. (r.clients k).pkt_addr) (sym (eq_of_== _ c hit)) ∙ o in
              absurd (ground arith)
          | inr far ↦ inr (rw (packet q) (client (packet_at r q).client ∙ rw far o))
        ]
      ]
    ];
  }
    where
      old : (x q : ℕ) → (r'.clients x).pkt_addr ≡ some q → (r.clients x).pkt_addr ≡ some q
      old x q e = elim (Bool-cases (x == c)) [
        | inl hit ↦ let n : none ≡ some q = sym (client x ∙ rw hit) ∙ e in absurd (ground arith)
        | inr miss ↦ sym (client x ∙ rw miss) ∙ e
      ]

-- A held packet is freed.
pub Inv-drop :
    (r r' : Rpc) (held : List ℕ) (p : ℕ) (v : Packet)
    → Inv r (p ∷ held)
    → has p held ≡ false
    → length r'.packets ≡ length r.packets
    → allocated v ≡ false
    → ((j : ℕ) → packet_at r' j ≡ (if p == j then v else packet_at r j))
    → ((x : ℕ) → (r'.clients x).pkt_addr ≡ (r.clients x).pkt_addr)
    → Inv r' held
Inv-drop r r' held p v inv once size now packet client = record {
  within = λ x q e. rw size (inv.within x q (old x q e));
  marked = λ x q e. rw (far q (miss x q e)) (inv.marked x q (old x q e));
  names = λ x q e. rw (far q (miss x q e)) (inv.names x q (old x q e));
  apart = λ x q e. sym (has-cons_ne q p held (miss x q e)) ∙ inv.apart x q (old x q e);
  kept = λ q h.
      let m : (p == q) ≡ false = other q h in
      let k = inv.kept q (has-cons_ne q p held m ∙ h) in (rw size k.0, rw (far q m) k.1);
  owner = λ q a. elim (Bool-cases (p == q)) [
    | inl hit ↦
        let e : packet_at r' q ≡ v = packet q ∙ rw hit in absurd (ground (arith, ap allocated e))
    | inr m ↦ elim (inv.owner q (rw (far q m) at a)) [
      | inl h ↦ inl (sym (has-cons_ne q p held m) ∙ h)
      | inr o ↦ inr (rw (far q m) (client (packet_at r q).client ∙ o))
    ]
  ];
}
  where
    old : (x q : ℕ) → (r'.clients x).pkt_addr ≡ some q → (r.clients x).pkt_addr ≡ some q
    old x q e = sym (client x) ∙ e

    far : (q : ℕ) → (p == q) ≡ false → packet_at r' q ≡ packet_at r q
    far q m = packet q ∙ rw m

    miss : (x q : ℕ) → (r'.clients x).pkt_addr ≡ some q → (p == q) ≡ false
    miss x q e = elim (Bool-cases (p == q)) [
      | inl hit ↦
          let h : has q (p ∷ held) ≡ false = inv.apart x q (old x q e) in
          let qp : (q == p) ≡ true = ground arith in absurd (ground arith)
      | inr m ↦ m
    ]

    other : (q : ℕ) → has q held ≡ true → (p == q) ≡ false
    other q h = elim (Bool-cases (p == q)) [
      | inl hit ↦
          let e : has p held ≡ has q held = ap (λ k. has k held) (eq_of_== p q hit) in
          absurd (ground arith)
      | inr m ↦ m
    ]
