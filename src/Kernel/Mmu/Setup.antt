-- ===== src/Kernel/Mmu/Setup.antt =====
-- kernel/mmu.c: `mmu_init_module`, with its calls of `mapMemory` in the groups of its comments.
use kernelreloaded.Common.{ℕ, ◌+◌, ◌*◌, ◌^◌, Option, none, some, List, [], ◌∷◌, ltb, if◌then◌else◌}
use kernelreloaded.Kernel.Mmu.Tlb.{
  page_4k, page_16k, page_64k, page_256k, page_1m, page_4m, page_16m, Mapping, mapping, map_all,
  flush_tlbs, kseg0, Cp0,
}

abbrev pub zero_reg_address : ℕ
zero_reg_address = 0x78000

-- `PAGE_DIRTY | PAGE_VALID | PAGE_GLOBAL`, with each kind of caching.
abbrev pub flags_cached : ℕ
flags_cached = 3 * 2 ^ 3 + 2 ^ 2 + 2 + 1

abbrev pub flags_uncached : ℕ
flags_uncached = 2 * 2 ^ 3 + 2 ^ 2 + 2 + 1

abbrev pub flags_accelerated : ℕ
flags_accelerated = 7 * 2 ^ 3 + 2 ^ 2 + 2 + 1

abbrev pub flags_spram : ℕ
flags_spram = flags_uncached + 2 ^ 31

-- Uncached, without `PAGE_DIRTY`, and without `PAGE_VALID`.
abbrev pub flags_read_only : ℕ
flags_read_only = 2 * 2 ^ 3 + 2 + 1

abbrev pub flags_invalid : ℕ
flags_invalid = 2 * 2 ^ 3 + 2 ^ 2 + 1

abbrev pub first_mappings : List Mapping
first_mappings = mapping 0 0x70000000 0x00000000 flags_spram 0x00000000 flags_uncached page_4k ∷ []

abbrev pub kernel_mappings : List Mapping
kernel_mappings =
    mapping 1 0xffff8000 zero_reg_address flags_cached (zero_reg_address + 0x4000) flags_cached
      page_16k
    ∷ mapping 2 0x10000000 0x10000000 flags_uncached 0x10001000 flags_read_only page_4k
    ∷ mapping 3 0x10002000 0x10002000 flags_uncached 0x10003000 flags_uncached page_4k
    ∷ mapping 4 0x10004000 0x10004000 flags_uncached 0x10005000 flags_uncached page_4k
    ∷ mapping 5 0x10006000 0x10006000 flags_uncached 0x10007000 flags_uncached page_4k
    ∷ mapping 6 0x10008000 0x10008000 flags_uncached 0x10009000 flags_uncached page_4k
    ∷ mapping 7 0x1000a000 0x1000a000 flags_uncached 0x1000b000 flags_uncached page_4k
    ∷ mapping 8 0x1000c000 0x1000c000 flags_read_only 0x1000d000 flags_uncached page_4k
    ∷ mapping 9 0x1000e000 0x1000e000 flags_uncached 0x1000f000 flags_uncached page_4k
    ∷ mapping 10 0x11000000 0x11000000 flags_uncached 0x11010000 flags_invalid page_64k
    ∷ mapping 11 0x12000000 0x12000000 flags_uncached 0x12010000 flags_invalid page_64k
    ∷ mapping 12 0x1e000000 0x1e000000 flags_uncached 0x1f000000 flags_uncached page_16m
    ∷ []

abbrev pub cached_user_mappings : List Mapping
cached_user_mappings =
    mapping 13 0x80000 0x80000 flags_cached 0xc0000 flags_cached page_256k
    ∷ mapping 14 0x100000 0x100000 flags_cached 0x140000 flags_cached page_256k
    ∷ mapping 15 0x180000 0x180000 flags_cached 0x180000 flags_cached page_256k
    ∷ mapping 16 0x200000 0x200000 flags_cached 0x300000 flags_cached page_1m
    ∷ mapping 17 0x400000 0x400000 flags_cached 0x500000 flags_cached page_1m
    ∷ mapping 18 0x600000 0x600000 flags_cached 0x700000 flags_cached page_1m
    ∷ mapping 19 0x800000 0x800000 flags_cached 0xc00000 flags_cached page_4m
    ∷ mapping 20 0x1000000 0x1000000 flags_cached 0x1400000 flags_cached page_4m
    ∷ mapping 21 0x1800000 0x1800000 flags_cached 0x1c00000 flags_cached page_4m
    ∷ []

abbrev pub uncached_user_mappings : List Mapping
uncached_user_mappings =
    mapping 22 0x20080000 0x80000 flags_uncached 0xc0000 flags_uncached page_256k
    ∷ mapping 23 0x20100000 0x100000 flags_uncached 0x140000 flags_uncached page_256k
    ∷ mapping 24 0x20180000 0x180000 flags_uncached 0x180000 flags_uncached page_256k
    ∷ mapping 25 0x20200000 0x200000 flags_uncached 0x300000 flags_uncached page_1m
    ∷ mapping 26 0x20400000 0x400000 flags_uncached 0x500000 flags_uncached page_1m
    ∷ mapping 27 0x20600000 0x600000 flags_uncached 0x700000 flags_uncached page_1m
    ∷ mapping 28 0x20800000 0x800000 flags_uncached 0xc00000 flags_uncached page_4m
    ∷ mapping 29 0x21000000 0x1000000 flags_uncached 0x1400000 flags_uncached page_4m
    ∷ mapping 30 0x21800000 0x1800000 flags_uncached 0x1c00000 flags_uncached page_4m
    ∷ []

abbrev pub accelerated_user_mappings : List Mapping
accelerated_user_mappings =
    mapping 31 0x30100000 0x100000 flags_accelerated 0x140000 flags_accelerated page_256k
    ∷ mapping 32 0x30180000 0x180000 flags_accelerated 0x1c0000 flags_accelerated page_256k
    ∷ mapping 33 0x30200000 0x200000 flags_accelerated 0x300000 flags_accelerated page_1m
    ∷ mapping 34 0x30400000 0x400000 flags_accelerated 0x500000 flags_accelerated page_1m
    ∷ mapping 35 0x30600000 0x600000 flags_accelerated 0x700000 flags_accelerated page_1m
    ∷ mapping 36 0x30800000 0x800000 flags_accelerated 0xc00000 flags_accelerated page_4m
    ∷ mapping 37 0x31000000 0x1000000 flags_accelerated 0x1400000 flags_accelerated page_4m
    ∷ mapping 38 0x31800000 0x1800000 flags_accelerated 0x1c00000 flags_accelerated page_4m
    ∷ []

-- `mmu_init_module`, by the address of `_end`. An image that reaches the zero register area ends in
-- `panic`, which does not return: `none`.
unfoldable pub mmu_init : ℕ → Cp0 → Option Cp0
mmu_init end c =
    let first = map_all first_mappings (record (flush_tlbs c) { wired = 31 }) in
    if ltb (kseg0 + zero_reg_address) end
    then none
    else some (
        map_all accelerated_user_mappings (
          map_all uncached_user_mappings
            (map_all cached_user_mappings (map_all kernel_mappings first))))
