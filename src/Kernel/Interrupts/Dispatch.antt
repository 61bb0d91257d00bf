-- ===== src/Kernel/Interrupts/Dispatch.antt =====
-- kernel/irq.c, kernel/intc.c and kernel/dmac.c: the dispatch of an interrupt.
use kernelreloaded.Common.{
  ℕ, zero, suc, ◌*◌, ◌/◌, ◌%◌, ◌^◌, ◌&&◌, Option, none, some, if◌then◌else◌, get_or,
}
use kernelreloaded.Common.Bits.{bit}
use kernelreloaded.Kernel.Interrupts.State.{
  Ptr, Irqs, Ports, Isr, intc_isr, dmac_isr, other, intc_number_of_handlers,
  dmac_number_of_handlers,
}

-- `call` runs a handler of the kernel, `call_user` one of the user with its channel.
module _ {H : Type 0} (io : Ports H) (call : Ptr → Irqs × H → Irqs × H)
    (call_user : Ptr → ℕ → Irqs × H → Irqs × H) where
  abbrev pub call_if : Option Ptr → Irqs × H → Irqs × H
  call_if none st = st
  call_if (some f) st = call f st

  -- A source of `intc_interrupt` that is pending: acknowledged, then handled.
  unfoldable pub intc_serve : ℕ → Irqs × H → Irqs × H
  intc_serve i (k, h) = call_if (get_or k.intc_handler i none) (k, io.put_intc_stat (2 ^ i) h)

  -- The loop of `intc_interrupt`, by the rounds left; `mask` was read before.
  unfoldable pub intc_loop : ℕ → ℕ → ℕ → Irqs × H → Irqs × H
  unfolding intc_serve
  intc_loop mask zero i st = st
  intc_loop mask (suc n) i st =
      let next = if bit mask i && bit st.0.saved_intc_mask i then intc_serve i st else st in
      intc_loop mask n (suc i) next

  -- `intc_interrupt`.
  unfoldable pub intc_interrupt : Irqs × H → Irqs × H
  unfolding intc_loop
  intc_interrupt (k, h) = intc_loop (io.intc_mask h) intc_number_of_handlers 0 (k, h)

  -- A handler of the user runs in kernel mode with the interrupts off, and the status register is
  -- put back.
  abbrev pub call_user_if : Option Ptr → ℕ → Irqs × H → Irqs × H
  call_user_if none i st = st
  call_user_if (some f) i (k, h) =
      let done = call_user f i (record k { status = k.status / 32 * 32 }, h) in
      (record (done.0) { status = k.status }, done.1)

  unfoldable pub dmac_serve : ℕ → Irqs × H → Irqs × H
  dmac_serve i (k, h) =
      let st = call_if (get_or k.dmac_handler i none) (k, io.put_dmac_stat (2 ^ i) h) in
      call_user_if (get_or st.0.dmac_useg_handler i none) i st

  -- The loop of `dmac_interrupt`; both masks were read before.
  unfoldable pub dmac_loop : ℕ → ℕ → ℕ → ℕ → Irqs × H → Irqs × H
  unfolding dmac_serve
  dmac_loop stat mask zero i st = st
  dmac_loop stat mask (suc n) i st =
      let next = if bit stat i && bit mask i then dmac_serve i st else st in
      dmac_loop stat mask n (suc i) next

  -- `dmac_interrupt`.
  unfoldable pub dmac_interrupt : Irqs × H → Irqs × H
  unfolding dmac_loop
  dmac_interrupt (k, h) =
      dmac_loop (io.dmac_stat h % 2 ^ 32) (k.saved_dmac_mask / 2 ^ 16 % 2 ^ 32)
        dmac_number_of_handlers 0 (k, h)

  abbrev pub run_isr : Option Isr → Irqs × H → Irqs × H
  run_isr none st = st
  run_isr (some intc_isr) st = intc_interrupt st
  run_isr (some dmac_isr) st = dmac_interrupt st
  run_isr (some (other f)) st = call f st

  -- One of the three tests of `irq_interrupt`.
  abbrev pub irq_step : ℕ → ℕ → ℕ → Irqs × H → Irqs × H
  irq_step cause b nr st =
      let served = run_isr (get_or st.0.irq_handler nr none) st in
      if bit cause b then served else st

  -- `irq_interrupt`, with the cause register.
  unfoldable pub irq_interrupt : ℕ → Irqs × H → Irqs × H
  unfolding intc_interrupt dmac_interrupt
  irq_interrupt cause st = irq_step cause 15 2 (irq_step cause 11 1 (irq_step cause 10 0 st))
