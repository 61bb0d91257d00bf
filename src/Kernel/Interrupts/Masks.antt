-- ===== src/Kernel/Interrupts/Masks.antt =====
-- kernel/dmac.c: the saved mask has no bit below 16, which are the bits that the system calls test.
use kernelreloaded.Common.{
  ◌%◌, ap, sym, ℕ, zero, suc, ◌+◌, ◌<◌, ◌≡◌, refl, subst, ◌∙◌, false, Option, none, some, List, [],
  ◌∷◌, arith, if_rule,
}
use kernelreloaded.Common.Bits.{bit, set_bit, clear_bit, bit-set_bit, bit-clear_bit}
use kernelreloaded.Kernel.Interrupts.State.{
  Irqs, Ports, dmac_enable, dmac_disable, enable_dmac, disable_dmac, dmac_init, irq_register,
  dmac_cim0,
}

-- The calls that change the saved mask.
pub data Call : Type 0 where
  enable disable user_enable user_disable : ℕ → Call

abbrev LowClear : ℕ → Type 0
LowClear mask = (j : ℕ) → j < 16 → bit mask j ≡ false

-- The channel of a call.
abbrev pub channel_of : Call → ℕ
channel_of (enable n) = n
channel_of (disable n) = n
channel_of (user_enable n) = n
channel_of (user_disable n) = n

abbrev pub AllChannels : List Call → Type 0
AllChannels [] = Unit {0}
AllChannels (c ∷ cs) = (channel_of c < 16) × AllChannels cs

LowClear-set_bit :
    (mask n : ℕ) → n < 16 → LowClear mask → LowClear (set_bit mask ((n + dmac_cim0) % 32))
LowClear-set_bit mask n s low j small =
    bit-set_bit mask ((n + dmac_cim0) % 32) j ∙ ground (arith, low j small)

LowClear-clear_bit :
    (mask n : ℕ) → n < 16 → LowClear mask → LowClear (clear_bit mask ((n + dmac_cim0) % 32))
LowClear-clear_bit mask n s low j small =
    bit-clear_bit mask ((n + dmac_cim0) % 32) j ∙ ground (arith, low j small)

LowClear-zero : (j : ℕ) → bit 0 j ≡ false
unfolding bit
LowClear-zero zero = refl
LowClear-zero (suc j) = LowClear-zero j

module _ {H : Type 0} (io : Ports H) where
  unfoldable pub step : Call → Irqs × H → Irqs × H
  step (enable n) st = dmac_enable io n st
  step (disable n) st = dmac_disable io n st
  step (user_enable c) st = (enable_dmac io c st).1
  step (user_disable c) st = (disable_dmac io c st).1

  -- The calls, one after the other.
  unfoldable pub run : List Call → Irqs × H → Irqs × H
  run [] st = st
  run (c ∷ cs) st = run cs (step c st)

  abbrev Low : Irqs × H → Type 0
  Low st = LowClear st.0.saved_dmac_mask

  dmac_enable-Low : (n : ℕ) (st : Irqs × H) → n < 16 → Low st → Low (dmac_enable io n st)
  unfolding dmac_enable
  dmac_enable-Low n (k, h) s low =
      if_rule Low (bit k.saved_dmac_mask ((n + dmac_cim0) % 32)) _ _ (λ b. low)
        (λ b. LowClear-set_bit k.saved_dmac_mask n s low)

  dmac_disable-Low : (n : ℕ) (st : Irqs × H) → n < 16 → Low st → Low (dmac_disable io n st)
  unfolding dmac_disable
  dmac_disable-Low n (k, h) s low =
      if_rule Low (bit k.saved_dmac_mask ((n + dmac_cim0) % 32)) _ _
        (λ b. LowClear-clear_bit k.saved_dmac_mask n s low) (λ b. low)

  step-Low : (c : Call) (st : Irqs × H) → channel_of c < 16 → Low st → Low (step c st)
  unfolding step enable_dmac disable_dmac
  step-Low (enable n) st s low = dmac_enable-Low n st s low
  step-Low (disable n) st s low = dmac_disable-Low n st s low
  step-Low (user_enable c) (k, h) s low =
      if_rule (λ (r : ℕ × (Irqs × H)). Low r.1) (bit k.saved_dmac_mask (c % 32)) _ _
        (λ b. dmac_enable-Low c (k, h) s low) (λ b. low)
  step-Low (user_disable c) (k, h) s low =
      if_rule (λ (r : ℕ × (Irqs × H)). Low r.1) (bit k.saved_dmac_mask (c % 32)) _ _ (λ b. low)
        (λ b. dmac_disable-Low c (k, h) s low)

  run-Low : (cs : List Call) (st : Irqs × H) → AllChannels cs → Low st → Low (run cs st)
  unfolding run
  run-Low [] st all low = low
  run-Low (c ∷ cs) st (s, all) low = run-Low cs (step c st) all (step-Low c st s low)

  abbrev saved_of : Option (Irqs × H) → ℕ
  saved_of none = 0
  saved_of (some (k, h)) = k.saved_dmac_mask

  dmac_init-mask : (st0 st : Irqs × H) → dmac_init io st0 ≡ some st → st.0.saved_dmac_mask ≡ 0
  unfolding dmac_init irq_register
  dmac_init-mask (k, h) st i = sym (ap saved_of i)

  -- After `dmac_init_module` and any calls that enable or disable channels below 16, by the kernel or
  -- by the user, `syscallEnableDmac` of a channel below 16 returns 0 and enables nothing, and
  -- `syscallDisableDmac` returns 1.
  pub enable_dmac_never :
      (st0 st : Irqs × H) (cs : List Call) (c : ℕ)
      → dmac_init io st0 ≡ some st
      → AllChannels cs
      → c < 16
      → (enable_dmac io c (run cs st) ≡ (0, run cs st)) × ((disable_dmac io c (run cs st)).0 ≡ 1)
  unfolding enable_dmac disable_dmac
  enable_dmac_never st0 st cs c i all small =
      let low0 : Low st = subst LowClear (sym (dmac_init-mask st0 st i)) (λ j l. LowClear-zero j) in
      let off : bit (run cs st).0.saved_dmac_mask (c % 32) ≡ false =
        run-Low cs st all low0 (c % 32) (omega arith) in
      (rw off refl, rw off refl)
