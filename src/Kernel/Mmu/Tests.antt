-- ===== src/Kernel/Mmu/Tests.antt =====
-- kernel/mmu.c: the theorems at a TLB that is all zero, and some addresses.
use kernelreloaded.Common.{ℕ, ◌≡◌, refl, ap, none, some, arith, get_elem?, replicate}
use kernelreloaded.Kernel.Mmu.Tlb.{Cp0}
use kernelreloaded.Kernel.Mmu.Setup.{mmu_init}
use kernelreloaded.Kernel.Mmu.Translate.{translate}
use kernelreloaded.Kernel.Mmu.Layout.{page_table, mmu_init_lem}
use kernelreloaded.Kernel.Mmu.User.{UserViews, entry_at, mmu_init-UserViews, mmu_init_unique}

abbrev boot : Cp0
boot = record {
  wired = 0;
  index = 0;
  page_mask = 0;
  entry_hi = 0;
  entry_lo0 = 0;
  entry_lo1 = 0;
  tlb = replicate 48 (record { page_mask = 0; hi = 0; lo0 = 0; lo1 = 0 });
}

abbrev ready : Cp0
ready = (mmu_init_lem 0x80010000 boot refl (omega arith)).0

ready_init : mmu_init 0x80010000 boot ≡ some ready
ready_init = (mmu_init_lem 0x80010000 boot refl (omega arith)).1

mmu_init-UserViews_example : (c' : Cp0) × (mmu_init 0x80010000 boot ≡ some c') × UserViews c'.tlb
mmu_init-UserViews_example = mmu_init-UserViews 0x80010000 boot refl (omega arith)

ready_table : ready.tlb ≡ page_table
ready_table = (mmu_init_lem 0x80010000 boot refl (omega arith)).2

mmu_init_unique_example : ◌≡◌ {A = ℕ} 14 14
mmu_init_unique_example =
    mmu_init_unique 0x80010000 boot ready 14 14 0x123456 (entry_at 14) (entry_at 14) refl
      (omega arith) ready_init (ap (λ t. get_elem? t 14) ready_table)
      (ap (λ t. get_elem? t 14) ready_table) refl refl

alias : translate page_table 0x1ff000 ≡ translate page_table 0x1bf000
alias = refl

kernel_image_too_large : mmu_init 0x80078001 boot ≡ none
unfolding mmu_init
kernel_image_too_large = refl
