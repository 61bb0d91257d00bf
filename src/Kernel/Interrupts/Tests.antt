-- ===== src/Kernel/Interrupts/Tests.antt =====
-- The interrupts of the kernel: the theorems on a device that keeps its registers, and a run.
use kernelreloaded.Common.{ℕ, ◌^◌, ◌≡◌, refl, none, some, List, [], ◌∷◌, arith, set, replicate}
use kernelreloaded.Common.Bits.{bit, set_bit}
use kernelreloaded.Kernel.Interrupts.State.{
  Ptr, Irqs, Ports, Isr, intc_number_of_handlers, dmac_number_of_handlers, dmac_init, irq_register,
  enable_dmac, disable_dmac, dmac_enable,
}
use kernelreloaded.Kernel.Interrupts.Dispatch.{
  intc_serve, intc_loop, intc_interrupt, dmac_serve, dmac_interrupt,
}
use kernelreloaded.Kernel.Interrupts.Sources.{
  acknowledged_and_handled, both_set, serve_all, intc_interrupt-enabled, dmac_interrupt-pending,
}
use kernelreloaded.Kernel.Interrupts.Masks.{enable, user_enable, run, step, enable_dmac_never}

-- The registers, and the numbers of the handlers that ran, the last one first.
record Device : Type 0 where
  mask : ℕ
  stat : ℕ
  dmac : ℕ
  log : List ℕ

abbrev ports : Ports Device
ports = record {
  intc_mask = λ d. d.mask;
  put_intc_mask = λ v d. record d { mask = v };
  intc_stat = λ d. d.stat;
  put_intc_stat = λ v d. record d { stat = v };
  dmac_stat = λ d. d.dmac;
  put_dmac_stat = λ v d. record d { dmac = v };
}

abbrev call : Ptr → Irqs × Device → Irqs × Device
call f (k, d) = (k, record d { log = f ∷ d.log })

abbrev call_user : Ptr → ℕ → Irqs × Device → Irqs × Device
call_user f i (k, d) = (record k { status = 0 }, record d { log = f ∷ i ∷ d.log })

abbrev unset : Irqs
unset = record {
  irq_handler = replicate 3 none;
  intc_handler = replicate 11 none;
  saved_intc_mask = 0;
  dmac_handler = replicate 16 none;
  dmac_useg_handler = replicate 16 none;
  saved_dmac_mask = 0;
  status = 0x1f;
}

abbrev device : Device
device = record { mask = 0; stat = 0; dmac = 0; log = [] }

-- The sources 2 and 3 are enabled, and only 3 has a handler; channel 5 has a handler of the user.
abbrev busy : Irqs
busy = record unset {
  saved_intc_mask = 12;
  intc_handler = set (replicate 11 none) 3 (some 70);
  saved_dmac_mask = 2 ^ 21;
  dmac_useg_handler = set (replicate 16 none) 5 (some 80);
}

abbrev pending : Device
pending = record device { mask = 12; dmac = 32 }

intc_interrupt-enabled_example :
    intc_interrupt ports call call_user (busy, pending)
    ≡ serve_all
        (acknowledged_and_handled ports call call_user)
        (both_set 12 12 intc_number_of_handlers 0)
        (busy, pending)
intc_interrupt-enabled_example =
    intc_interrupt-enabled ports call call_user (λ f st. refl) busy pending

dmac_interrupt-pending_example :
    (dmac_interrupt ports call call_user (busy, pending)
      ≡ serve_all
          (dmac_serve ports call call_user)
          (both_set 32 32 dmac_number_of_handlers 0)
          (busy, pending))
    × ((dmac_interrupt ports call call_user (busy, pending)).0.status ≡ 0x1f)
dmac_interrupt-pending_example =
    dmac_interrupt-pending ports call call_user (λ f st. refl) busy pending

-- Both sources are served though the status register shows none.
served :
    (intc_interrupt ports call call_user (busy, pending)).1
    ≡ record pending { stat = 8; log = 70 ∷ [] }
unfolding intc_interrupt intc_loop intc_serve bit
served = refl

abbrev started : Irqs × Device
started = (record unset { irq_handler = set (replicate 3 none) 1 (some Isr.dmac_isr) }, device)

abbrev later : Irqs × Device
later = (record (started.0) { saved_dmac_mask = 2 ^ 21 }, record device { dmac = 2 ^ 21 })

init : dmac_init ports (unset, device) ≡ some started
unfolding dmac_init irq_register
init = refl

calls : run ports (enable 5 ∷ user_enable 5 ∷ []) started ≡ later
unfolding run step dmac_enable enable_dmac bit set_bit
calls = refl

enable_dmac_never_example :
    (enable_dmac ports 5 (run ports (enable 5 ∷ user_enable 5 ∷ []) started)
      ≡ (0, run ports (enable 5 ∷ user_enable 5 ∷ []) started))
    × ((disable_dmac ports 5 (run ports (enable 5 ∷ user_enable 5 ∷ []) started)).0 ≡ 1)
enable_dmac_never_example =
    enable_dmac_never ports (unset, device) started (enable 5 ∷ user_enable 5 ∷ []) 5 init
      (omega arith, (omega arith, tt)) (omega arith)
