-- ===== src/Sbios/SifDma/Access.antt =====
-- TGE/sbios/sifdma.c: the state of a transfer, and the SIF registers.
use kernelreloaded.Common.Bits.{bit, clear_bit}
use mathlib.Core.Option
use kernelreloaded.Common.{
  ℕ, ◌+◌, ◌-◌, ◌/◌, ◌%◌, ◌^◌, Bool, false, ◌&&◌, ◌||◌, Option, none, some, List, [], ◌∷◌, ltb, leb,
  ◌==◌, if◌then◌else◌, ℤ, pos, negsuc, get_elem?, set,
}
use kernelreloaded.Sbios.SifDma.State.{num_sifregs, u32, Dma, Memory}
use kernelreloaded.Sbios.SifDma.Send.{hw_index}

-- `sif_dma_stat`: 0 while the transfer is in progress, else -1. The early return does not restore
-- the interrupt enable bit.
unfoldable pub dma_stat : Memory → ℕ → Dma → ℤ × Dma
dma_stat m id d =
    if bit d.sif1_chcr 8
    then (let ntags = id % 256 in
        let starttag = id / 2 ^ 8 % 256 in
        let lasttag = (starttag + ntags + u32 - 1) % u32 % 31 in
        let round = id / 2 ^ 16 in
        let signed_round = if ltb id (2 ^ 31) then round else round + (u32 - 2 ^ 16) in
        let count = if lasttag == 0 then (signed_round + 1) % u32 else signed_round in
        let index = hw_index m d in
        let dma_count =
          if ltb d.dmatag_index index then (d.dma_count + u32 - 1) % u32 else d.dma_count in
        let busy =
          (dma_count == round || dma_count == count) && (leb starttag index && leb index lasttag) in
        if busy then (pos 0, record d { ie = false }) else (negsuc 0, d))
    else (negsuc 0, d)

-- `sif_get_msflag` and `sif_get_smflag`: the register is read until two successive reads agree. The
-- list holds what it shows; `none` means that the reads have not agreed.
unfoldable pub stable_read : List ℕ → Option ℕ
stable_read [] = none
stable_read (v ∷ []) = none
stable_read (v ∷ w ∷ rs) = let again = stable_read rs in if v == w then some v else again

abbrev pub is_system : ℕ → Bool
is_system r = bit r 31

-- `SifSetReg`, with what the flag register shows after the write.
unfoldable pub set_reg : ℕ → ℕ → List ℕ → Dma → Option (ℕ × Dma)
set_reg r val reads d =
    if r == 1
    then some (val, record d { mainaddr = val })
    else if r == 3
    then Option.map (λ v. (v, record d { msflag = v })) (stable_read reads)
    else if r == 4
    then Option.map (λ v. (v, record d { smflag = v })) (stable_read reads)
    else if is_system r && ltb (clear_bit r 31) num_sifregs
    then some (0, record d { reg_table = set d.reg_table (clear_bit r 31) val })
    else some (0, d)

-- `SifGetReg`.
unfoldable pub get_reg : ℕ → List ℕ → Dma → Option ℕ
get_reg r reads d =
    if r == 1
    then some d.mainaddr
    else if r == 2
    then some d.subaddr
    else if r == 3
    then stable_read reads
    else if r == 4
    then stable_read reads
    else if is_system r && ltb (clear_bit r 31) num_sifregs
    then get_elem? d.reg_table (clear_bit r 31)
    else some 0
