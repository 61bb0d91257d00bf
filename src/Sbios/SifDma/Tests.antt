-- ===== src/Sbios/SifDma/Tests.antt =====
-- Runs of `SifSetDma` on a ring after `sbcall_sifinit`, and the theorems at these states.
use kernelreloaded.Common.Bits.{bit}
use kernelreloaded.Common.{
  pos, ℕ, ◌+◌, ◌/◌, ◌≤◌, ◌≡◌, refl, true, false, some, [], ◌∷◌, arith, replicate,
}
use kernelreloaded.Sbios.SifDma.State.{Dma, Memory, Transfer, ref, sif_init}
use kernelreloaded.Sbios.SifDma.Send.{set_dma, free_dma_tags, suspend, count_tags, hw_index}
use kernelreloaded.Sbios.SifDma.Access.{dma_stat}
use kernelreloaded.Sbios.SifDma.Place.{dma_transfer, next_tag}
use kernelreloaded.Sbios.SifDma.Ring.{steps}
use kernelreloaded.Sbios.SifDma.Tags.{Carries, transfer-Carries}
use kernelreloaded.Sbios.SifDma.SetDma.{Sent, set_dma-Sent, set_dma-room}

abbrev memory : Memory
memory = record { tags_at = 0x10000; iop_tags_at = 0x20000; quad = λ a. a / 16 }

abbrev cold : Dma
cold = record {
  initialized = false;
  reg_table = replicate 32 0;
  dmatag_index = 0;
  dma_count = 0;
  ee_tags = replicate 32 (record { id_qwc = 0; addr = 0 });
  iop_tags = replicate 32 (record { addr = 0; size = 0; payload = replicate 7 0 });
  sif0_chcr = 0;
  sif0_qwc = 0;
  sif1_chcr = 0;
  sif1_qwc = 0;
  sif1_madr = 0;
  sif1_tadr = 0;
  enabler = 0;
  mainaddr = 0;
  subaddr = 0;
  msflag = 0;
  smflag = 0;
  unknf260 = 0;
  ie = true;
}

warm : Dma
unfolding sif_init
warm = sif_init memory cold

-- Two tags are pending: the hardware is at tag 3, the software at tag 5.
abbrev pending : Dma
pending = record cold { dmatag_index = 5; dma_count = 2; sif1_tadr = 0x10040; sif1_chcr = 0x184 }

abbrev small : Transfer
small = record { src = 0x3000; dest = 0x80_1000; size = 40; attr = 0x44 }

abbrev large : Transfer
large = record { src = 0x5000; dest = 0x90_2000; size = 300; attr = 0 }

three_tags : count_tags (large ∷ small ∷ []) ≡ 3
unfolding count_tags bit
three_tags = refl

hw_pending : hw_index memory pending ≡ 3
unfolding hw_index
hw_pending = refl

free_pending : free_dma_tags memory (suspend pending) ≡ 28
unfolding free_dma_tags suspend
free_pending = refl

set_dma-Sent_example :
    (id : ℕ) × (d' : Dma) × (set_dma memory (large ∷ small ∷ []) pending ≡ some (id, d'))
    × Sent (count_tags (large ∷ small ∷ [])) pending id d'
set_dma-Sent_example =
    set_dma-Sent memory large (small ∷ []) pending
      (record { index = omega arith; count = omega arith }) (omega (arith, hw_pending))
      (omega arith) (omega (arith, three_tags, free_pending))

set_dma-room_example :
    (id : ℕ) × (d' : Dma) × (set_dma memory (large ∷ small ∷ []) pending ≡ some (id, d'))
    × (steps (hw_index memory pending) d'.dmatag_index
        ≡ steps (hw_index memory pending) 5 + count_tags (large ∷ small ∷ []))
    × (steps (hw_index memory pending) d'.dmatag_index ≤ 30)
set_dma-room_example =
    set_dma-room memory large (small ∷ []) pending
      (record { index = omega arith; count = omega arith }) (omega (arith, hw_pending))
      (omega arith) (omega (arith, three_tags, free_pending)) (omega (arith, hw_pending))

-- The software is one place behind the hardware: no tag is free.
abbrev crowded : Dma
crowded = record cold { dmatag_index = 2; dma_count = 2; sif1_tadr = 0x10040; sif1_chcr = 0x184 }

transfer-Carries_example : Carries memory large ref 6 7 (dma_transfer memory large ref pending)
unfolding next_tag bit
transfer-Carries_example =
    transfer-Carries memory large ref pending
      (record { addr = 0; size = 0; payload = replicate 7 0 }) refl refl refl (omega arith)
      (omega arith) (omega arith)

-- Tags 3 and 4 of round 2, with the hardware at tag 3.
stat_runs : dma_stat memory 0x2_0302 pending ≡ (pos 0, record pending { ie = false })
unfolding dma_stat bit hw_index
stat_runs = refl
