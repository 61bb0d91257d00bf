-- ===== src/Kernel/Mmu/Tlb.antt =====
-- kernel/mmu.c: the registers of the TLB, `mapMemory` and `flush_tlbs`.
use kernelreloaded.Common.{ℕ, zero, suc, ◌+◌, ◌-◌, ◌*◌, ◌/◌, ◌%◌, ◌^◌, List, [], ◌∷◌, set}
use Prim.Native.Nat.{bit_and, bit_or}

abbrev pub u32 : ℕ
u32 = 2 ^ 32

-- The page sizes, as the page mask register takes them.
abbrev pub page_4k : ℕ
page_4k = 0x00 * 2 ^ 13

abbrev pub page_16k : ℕ
page_16k = 0x03 * 2 ^ 13

abbrev pub page_64k : ℕ
page_64k = 0x0f * 2 ^ 13

abbrev pub page_256k : ℕ
page_256k = 0x3f * 2 ^ 13

abbrev pub page_1m : ℕ
page_1m = 0xff * 2 ^ 13

abbrev pub page_4m : ℕ
page_4m = 0x3ff * 2 ^ 13

abbrev pub page_16m : ℕ
page_16m = 0xfff * 2 ^ 13

-- An entry of the TLB: two neighbouring pages.
pub record Entry : Type 0 where
  pub page_mask : ℕ
  pub hi : ℕ
  pub lo0 : ℕ
  pub lo1 : ℕ

-- The registers of coprocessor 0 that the file writes, and the TLB.
pub record Cp0 : Type 0 where
  pub wired : ℕ
  pub index : ℕ
  pub page_mask : ℕ
  pub entry_hi : ℕ
  pub entry_lo0 : ℕ
  pub entry_lo1 : ℕ
  pub tlb : List Entry

-- `tlbwi`.
abbrev pub write_entry : Cp0 → Cp0
write_entry c = record c {
  tlb =
      set c.tlb c.index
        (record { page_mask = c.page_mask; hi = c.entry_hi; lo0 = c.entry_lo0; lo1 = c.entry_lo1 });
}

-- The arguments of a call of `mapMemory`.
pub data Mapping : Type 0 where
  mapping : (index vaddr paddr1 flags1 paddr2 flags2 pagesize : ℕ) → Mapping

-- `~((pagesize | 0x1FFF) >> 1)`.
abbrev pub frame_mask : ℕ → ℕ
frame_mask pagesize = u32 - 1 - bit_or pagesize 0x1fff / 2

abbrev pub entry_lo : ℕ → ℕ → ℕ → ℕ
entry_lo pagesize paddr flags = bit_or (bit_and paddr (frame_mask pagesize) / 2 ^ 6) flags

abbrev pub entry_hi_of : ℕ → ℕ → ℕ
entry_hi_of pagesize vaddr = bit_and vaddr (frame_mask pagesize * 2 % u32)

-- `mapMemory`.
unfoldable pub map_memory : Mapping → Cp0 → Cp0
map_memory (mapping index vaddr paddr1 flags1 paddr2 flags2 pagesize) c = write_entry (record c {
  page_mask = pagesize;
  index = index;
  entry_lo0 = entry_lo pagesize paddr1 flags1;
  entry_lo1 = entry_lo pagesize paddr2 flags2;
  entry_hi = entry_hi_of pagesize vaddr;
})

-- Calls of `mapMemory`, in order.
unfoldable pub map_all : List Mapping → Cp0 → Cp0
map_all [] c = c
map_all (m ∷ ms) c = map_all ms (map_memory m c)

abbrev pub kseg0 : ℕ
kseg0 = 0x8000_0000

-- One round of the loop of `flush_tlbs`.
abbrev pub flush_entry : ℕ → Cp0 → Cp0
flush_entry entry c =
    write_entry
      (record c { entry_hi = (kseg0 + entry * (bit_or page_16m 0x1fff + 1)) % u32; index = entry })

-- `for (entry = 0; entry < 48; entry++)`, by the rounds left.
unfoldable pub flush_loop : ℕ → ℕ → Cp0 → Cp0
flush_loop zero entry c = c
flush_loop (suc n) entry c = flush_loop n (suc entry) (flush_entry entry c)

-- `flush_tlbs`.
unfoldable pub flush_tlbs : Cp0 → Cp0
unfolding flush_loop
flush_tlbs c =
    flush_loop 48 0 (record c { wired = 0; page_mask = page_16m; entry_lo0 = 0; entry_lo1 = 0 })
