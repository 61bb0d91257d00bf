-- ===== src/Kernel/Interrupts/State.antt =====
-- kernel/irq.c, kernel/intc.c and kernel/dmac.c: the tables of handlers and the masks.
use kernelreloaded.Common.{
  ◌%◌, ℕ, ◌+◌, ◌^◌, Option, none, some, List, ltb, if◌then◌else◌, get_or, set, replicate,
}
use kernelreloaded.Common.Bits.{bit, set_bit, clear_bit}

abbrev pub Ptr : Type 0
Ptr = ℕ

abbrev pub irq_number_of_handlers : ℕ
irq_number_of_handlers = 3

abbrev pub intc_number_of_handlers : ℕ
intc_number_of_handlers = 11

abbrev pub dmac_number_of_handlers : ℕ
dmac_number_of_handlers = 16

abbrev pub dmac_cim0 : ℕ
dmac_cim0 = 16

-- What `irq_handler` holds: the two dispatchers, or another handler. NULL is `none`.
pub data Isr : Type 0 where
  intc_isr dmac_isr : Isr
  other : Ptr → Isr

-- The static data of the three files, and the status register of coprocessor 0.
pub record Irqs : Type 0 where
  pub irq_handler : List (Option Isr)
  pub intc_handler : List (Option Ptr)
  pub saved_intc_mask : ℕ
  pub dmac_handler : List (Option Ptr)
  pub dmac_useg_handler : List (Option Ptr)
  pub saved_dmac_mask : ℕ
  pub status : ℕ

-- The registers of the two interrupt controllers.
pub record Ports (H : Type 0) : Type 0 where
  pub intc_mask : H → ℕ
  pub put_intc_mask : ℕ → H → H
  pub intc_stat : H → ℕ
  pub put_intc_stat : ℕ → H → H
  pub dmac_stat : H → ℕ
  pub put_dmac_stat : ℕ → H → H

-- `irq_register_handler`; too large a number ends in `panic`: `none`.
unfoldable pub irq_register : ℕ → Option Isr → Irqs → Option (Option Isr × Irqs)
irq_register nr f k =
    if ltb nr irq_number_of_handlers
    then some (get_or k.irq_handler nr none, record k { irq_handler = set k.irq_handler nr f })
    else none

unfoldable pub intc_register : ℕ → Option Ptr → Irqs → Option (Option Ptr × Irqs)
intc_register nr f k =
    if ltb nr intc_number_of_handlers
    then some (get_or k.intc_handler nr none, record k { intc_handler = set k.intc_handler nr f })
    else none

unfoldable pub dmac_register : ℕ → Option Ptr → Irqs → Option (Option Ptr × Irqs)
dmac_register nr f k =
    if ltb nr dmac_number_of_handlers
    then some (get_or k.dmac_handler nr none, record k { dmac_handler = set k.dmac_handler nr f })
    else none

-- `syscallAddDmacHandler`; -1 is `none`.
unfoldable pub add_dmac_handler : ℕ → Option Ptr → Irqs → Option (ℕ × Irqs)
add_dmac_handler channel f k =
    if ltb 9 channel
    then none
    else some (channel, record k { dmac_useg_handler = set k.dmac_useg_handler channel f })

module _ {H : Type 0} (io : Ports H) where
  -- `intc_enable_irq` and `intc_disable_irq`, for a number whose bit the type `int` of `1` holds:
  -- `none` beyond.
  unfoldable pub intc_enable : ℕ → Irqs × H → Option (Irqs × H)
  intc_enable n (k, h) =
      if ltb n 31
      then (if bit k.saved_intc_mask n
          then some (k, h)
          else some (
            record k { saved_intc_mask = set_bit k.saved_intc_mask n },
            io.put_intc_mask (set_bit (io.intc_mask h) n) h,
          ))
      else none

  unfoldable pub intc_disable : ℕ → Irqs × H → Option (Irqs × H)
  intc_disable n (k, h) =
      if ltb n 31
      then (if bit k.saved_intc_mask n
          then some (
            record k { saved_intc_mask = clear_bit k.saved_intc_mask n },
            io.put_intc_mask (set_bit (io.intc_mask h) n) h,
          )
          else some (k, h))
      else none

  -- `dmac_enable_irq` and `dmac_disable_irq`. The processor shifts by the amount modulo 32.
  unfoldable pub dmac_enable : ℕ → Irqs × H → Irqs × H
  dmac_enable n (k, h) =
      let b = (n + dmac_cim0) % 32 in
      if bit k.saved_dmac_mask b
      then (k, h)
      else (record k { saved_dmac_mask = set_bit k.saved_dmac_mask b }, io.put_dmac_stat (2 ^ b) h)

  unfoldable pub dmac_disable : ℕ → Irqs × H → Irqs × H
  dmac_disable n (k, h) =
      let b = (n + dmac_cim0) % 32 in
      if bit k.saved_dmac_mask b
      then (
        record k { saved_dmac_mask = clear_bit k.saved_dmac_mask b },
        io.put_dmac_stat (2 ^ b) h,
      )
      else (k, h)

  -- `syscallEnableDmac` and `syscallDisableDmac`
  unfoldable pub enable_dmac : ℕ → Irqs × H → ℕ × (Irqs × H)
  unfolding dmac_enable
  enable_dmac channel (k, h) =
      if bit k.saved_dmac_mask (channel % 32) then (1, dmac_enable channel (k, h)) else (0, (k, h))

  unfoldable pub disable_dmac : ℕ → Irqs × H → ℕ × (Irqs × H)
  unfolding dmac_disable
  disable_dmac channel (k, h) =
      if bit k.saved_dmac_mask (channel % 32) then (0, (k, h)) else (1, dmac_disable channel (k, h))

  -- `intc_init_module` and `dmac_init_module`.
  unfoldable pub intc_init : Irqs × H → Option (Irqs × H)
  unfolding irq_register
  intc_init (k, h) =
      let h' = io.put_intc_mask (io.intc_mask h) h in
      let h'' = io.put_intc_stat (io.intc_stat h') h' in
      let k' = record k {
        saved_intc_mask = 0;
        intc_handler = replicate intc_number_of_handlers none;
      } in
      elim (irq_register 0 (some intc_isr) k') [ none ↦ none | some (old, k'') ↦ some (k'', h'') ]

  unfoldable pub dmac_init : Irqs × H → Option (Irqs × H)
  unfolding irq_register
  dmac_init (k, h) =
      let h' = io.put_dmac_stat (io.dmac_stat h) h in
      let h'' = io.put_dmac_stat (io.dmac_stat h') h' in
      let k' = record k {
        saved_dmac_mask = 0;
        dmac_handler = replicate dmac_number_of_handlers none;
        dmac_useg_handler = replicate dmac_number_of_handlers none;
      } in
      elim (irq_register 1 (some dmac_isr) k') [ none ↦ none | some (old, k'') ↦ some (k'', h'') ]
