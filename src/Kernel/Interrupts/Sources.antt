-- ===== src/Kernel/Interrupts/Sources.antt =====
-- kernel/intc.c and kernel/dmac.c: which sources an interrupt serves, and in which order.
use kernelreloaded.Common.{
  ℕ, zero, suc, ◌/◌, ◌%◌, ◌^◌, ◌≡◌, refl, ap, ◌∙◌, inl, inr, ◌&&◌, Option, none, some, List, [],
  ◌∷◌, if◌then◌else◌, Bool-cases, get_or,
}
use kernelreloaded.Common.Bits.{bit}
use kernelreloaded.Kernel.Interrupts.State.{
  Ptr, Irqs, Ports, intc_number_of_handlers, dmac_number_of_handlers,
}
use kernelreloaded.Kernel.Interrupts.Dispatch.{
  call_if, call_user_if, intc_serve, intc_loop, intc_interrupt, dmac_serve, dmac_loop,
  dmac_interrupt,
}

-- The numbers from i on, n of them, whose bits both words have.
abbrev pub both_set : ℕ → ℕ → ℕ → ℕ → List ℕ
both_set a b zero i = []
both_set a b (suc n) i =
    let rest = both_set a b n (suc i) in if bit a i && bit b i then i ∷ rest else rest

abbrev pub serve_all {ℓ} : {A : Type ℓ} → (ℕ → A → A) → List ℕ → A → A
serve_all serve [] st = st
serve_all serve (i ∷ is) st = serve_all serve is (serve i st)

module _ {H : Type 0} (io : Ports H) (call : Ptr → Irqs × H → Irqs × H)
    (call_user : Ptr → ℕ → Irqs × H → Irqs × H) where
  -- What is to be done for a source.
  abbrev pub acknowledged_and_handled : ℕ → Irqs × H → Irqs × H
  acknowledged_and_handled i (k, h) =
      let h' = io.put_intc_stat (2 ^ i) h in
      elim (get_or k.intc_handler i none) [ none ↦ (k, h') | some f ↦ call f (k, h') ]

  handled_lem :
      (o : Option Ptr) (st : Irqs × H)
      → call_if io call call_user o st ≡ (elim o [ none ↦ st | some f ↦ call f st ])
  handled_lem none st = refl
  handled_lem (some f) st = refl

  serve_lem :
      (i : ℕ) (st : Irqs × H) → intc_serve io call call_user i st ≡ acknowledged_and_handled i st
  unfolding intc_serve
  serve_lem i (k, h) = handled_lem (get_or k.intc_handler i none) (k, io.put_intc_stat (2 ^ i) h)

  serve_all_lem :
      (is : List ℕ) (st : Irqs × H)
      → serve_all (intc_serve io call call_user) is st ≡ serve_all acknowledged_and_handled is st
  serve_all_lem [] st = refl
  serve_all_lem (i ∷ is) st =
      ap (serve_all (intc_serve io call call_user) is) (serve_lem i st)
      ∙ serve_all_lem is (acknowledged_and_handled i st)

  module _
      (keeps : (f : Ptr) (st : Irqs × H)
        → (call f st).0.saved_intc_mask ≡ st.0.saved_intc_mask) where
    call_if-mask :
        (o : Option Ptr) (st : Irqs × H)
        → (call_if io call call_user o st).0.saved_intc_mask ≡ st.0.saved_intc_mask
    call_if-mask none st = refl
    call_if-mask (some f) st = keeps f st

    intc_serve-mask :
        (i : ℕ) (st : Irqs × H)
        → (intc_serve io call call_user i st).0.saved_intc_mask ≡ st.0.saved_intc_mask
    unfolding intc_serve
    intc_serve-mask i (k, h) =
        call_if-mask (get_or k.intc_handler i none) (k, io.put_intc_stat (2 ^ i) h)

    intc_loop_lem :
        (mask n i : ℕ) (st : Irqs × H)
        → intc_loop io call call_user mask n i st
          ≡ serve_all (intc_serve io call call_user) (both_set mask st.0.saved_intc_mask n i) st
    unfolding intc_loop
    intc_loop_lem mask zero i st = refl
    intc_loop_lem mask (suc n) i st = elim (Bool-cases (bit mask i && bit st.0.saved_intc_mask i)) [
      | inl on ↦
          let next = intc_serve io call call_user i st in
          rw on (
            intc_loop_lem mask n (suc i) next
            ∙ ap (λ s. serve_all (intc_serve io call call_user) (both_set mask s n (suc i)) next)
                (intc_serve-mask i st))
      | inr off ↦ rw off (intc_loop_lem mask n (suc i) st)
    ]

    -- `intc_interrupt` handles the sources that the mask register and the saved mask have both
    -- enabled, from the lowest number on and each once, whatever the status register shows: the bit
    -- of the source is written to the status register, and then the handler that is registered for
    -- it runs, if there is one. The handlers have to leave the saved mask alone.
    pub intc_interrupt-enabled :
        (k : Irqs) (h : H)
        → intc_interrupt io call call_user (k, h)
          ≡ serve_all acknowledged_and_handled
              (both_set (io.intc_mask h) k.saved_intc_mask intc_number_of_handlers 0)
              (k, h)
    unfolding intc_interrupt
    intc_interrupt-enabled k h =
        intc_loop_lem (io.intc_mask h) intc_number_of_handlers 0 (k, h)
        ∙ serve_all_lem (both_set (io.intc_mask h) k.saved_intc_mask intc_number_of_handlers 0)
            (k, h)

  dmac_loop_lem :
      (stat mask n i : ℕ) (st : Irqs × H)
      → dmac_loop io call call_user stat mask n i st
        ≡ serve_all (dmac_serve io call call_user) (both_set stat mask n i) st
  unfolding dmac_loop
  dmac_loop_lem stat mask zero i st = refl
  dmac_loop_lem stat mask (suc n) i st = elim (Bool-cases (bit stat i && bit mask i)) [
    | inl on ↦ rw on (dmac_loop_lem stat mask n (suc i) (dmac_serve io call call_user i st))
    | inr off ↦ rw off (dmac_loop_lem stat mask n (suc i) st)
  ]

  module _ (keeps : (f : Ptr) (st : Irqs × H) → (call f st).0.status ≡ st.0.status) where
    call_if-status :
        (o : Option Ptr) (st : Irqs × H) → (call_if io call call_user o st).0.status ≡ st.0.status
    call_if-status none st = refl
    call_if-status (some f) st = keeps f st

    call_user_if-status :
        (o : Option Ptr) (i : ℕ) (st : Irqs × H)
        → (call_user_if io call call_user o i st).0.status ≡ st.0.status
    call_user_if-status none i st = refl
    call_user_if-status (some f) i st = refl

    dmac_serve-status :
        (i : ℕ) (st : Irqs × H) → (dmac_serve io call call_user i st).0.status ≡ st.0.status
    unfolding dmac_serve
    dmac_serve-status i (k, h) =
        let st =
          call_if io call call_user (get_or k.dmac_handler i none)
            (k, io.put_dmac_stat (2 ^ i) h) in
        call_user_if-status (get_or st.0.dmac_useg_handler i none) i st
        ∙ call_if-status (get_or k.dmac_handler i none) (k, io.put_dmac_stat (2 ^ i) h)

    serve_all-status :
        (is : List ℕ) (st : Irqs × H)
        → (serve_all (dmac_serve io call call_user) is st).0.status ≡ st.0.status
    serve_all-status [] st = refl
    serve_all-status (i ∷ is) st =
        serve_all-status is (dmac_serve io call call_user i st) ∙ dmac_serve-status i st

    -- `dmac_interrupt` serves the channels that are pending and whose bit in the upper half of the
    -- saved mask was set when it began, from the lowest on and each once, and the status register is
    -- in the end what it was, whatever the user's handlers leave in it, where the kernel's handlers
    -- keep it.
    pub dmac_interrupt-pending :
        (k : Irqs) (h : H)
        → (dmac_interrupt io call call_user (k, h)
            ≡ serve_all
                (dmac_serve io call call_user)
                (both_set
                  (io.dmac_stat h % 2 ^ 32)
                  (k.saved_dmac_mask / 2 ^ 16 % 2 ^ 32)
                  dmac_number_of_handlers
                  0)
                (k, h))
          × ((dmac_interrupt io call call_user (k, h)).0.status ≡ k.status)
    unfolding dmac_interrupt
    dmac_interrupt-pending k h =
        let stat = io.dmac_stat h % 2 ^ 32 in
        let mask = k.saved_dmac_mask / 2 ^ 16 % 2 ^ 32 in
        let served = dmac_loop_lem stat mask dmac_number_of_handlers 0 (k, h) in
        (
          served,
          ap (λ (st : Irqs × H). st.0.status) served
              ∙ serve_all-status (both_set stat mask dmac_number_of_handlers 0) (k, h),
        )
