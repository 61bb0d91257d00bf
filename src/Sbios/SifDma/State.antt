-- ===== src/Sbios/SifDma/State.antt =====
-- TGE/sbios/sifdma.c: the state of the SIF, and its initialisation.
use kernelreloaded.Common.Bits.{bit}
use kernelreloaded.Common.{
  ℕ, ◌+◌, ◌*◌, ◌%◌, ◌^◌, Bool, true, false, List, if◌then◌else◌, set, replicate,
}

abbrev pub num_sifregs : ℕ
num_sifregs = 32

abbrev pub u32 : ℕ
u32 = 2 ^ 32

abbrev pub qwc_payload_first_pkt : ℕ
qwc_payload_first_pkt = 7

-- `ee_dmatag_t`, without its padding.
pub record EeTag : Type 0 where
  pub id_qwc : ℕ
  pub addr : ℕ

-- `iop_dmatag_t`, without its padding; seven quadwords of data.
pub record IopTag : Type 0 where
  pub addr : ℕ
  pub size : ℕ
  pub payload : List ℕ

pub record Dma : Type 0 where
  pub initialized : Bool
  pub reg_table : List ℕ
  pub dmatag_index : ℕ
  pub dma_count : ℕ
  pub ee_tags : List EeTag
  pub iop_tags : List IopTag
  pub sif0_chcr : ℕ
  pub sif0_qwc : ℕ
  pub sif1_chcr : ℕ
  pub sif1_qwc : ℕ
  pub sif1_madr : ℕ
  pub sif1_tadr : ℕ
  pub enabler : ℕ
  pub mainaddr : ℕ
  pub subaddr : ℕ
  pub msflag : ℕ
  pub smflag : ℕ
  pub unknf260 : ℕ
  pub ie : Bool

-- `tge_sifdma_transfer_t`.
pub record Transfer : Type 0 where
  pub src : ℕ
  pub dest : ℕ
  pub size : ℕ
  pub attr : ℕ

abbrev pub attr_int_i : Transfer → Bool
attr_int_i t = bit t.attr 1

abbrev pub attr_int_o : Transfer → Bool
attr_int_o t = bit t.attr 2

abbrev pub attr_dmatag : Transfer → Bool
attr_dmatag t = bit t.attr 5

abbrev pub attr_ert : Transfer → Bool
attr_ert t = bit t.attr 6

pub data TagId : Type 0 where
  refe next ref : TagId

abbrev pub tag_id : TagId → ℕ
tag_id refe = 0
tag_id next = 2
tag_id ref = 3

-- `EE_DMATAG_ID_QWC`, with `EE_DMATAG_IRQ` where the transfer asks for it.
abbrev pub id_qwc_irq : TagId → ℕ → Bool → ℕ
id_qwc_irq id n irq = tag_id id * 2 ^ 28 + n + (if irq then 2 ^ 31 else 0)

abbrev pub phys : ℕ → ℕ
phys a = a % 2 ^ 29

-- What the linker and the memory hold: the physical addresses of `sif1_dmatags` and
-- `iop_dmatags`, and the quadword at each physical address.
pub record Memory : Type 0 where
  pub tags_at : ℕ
  pub iop_tags_at : ℕ
  pub quad : ℕ → ℕ

-- `sbcall_sifsetdchain`.
unfoldable pub set_dchain : Dma → Dma
set_dchain d = record d { sif0_chcr = 0x184; sif0_qwc = 0 }

-- `sbcall_sifstopdma`.
unfoldable pub stop_dma : Dma → Dma
stop_dma d = record d { sif0_chcr = 0; sif0_qwc = 0 }

-- `sif_dma_init`: the last tag leads back to the first.
unfoldable pub dma_init : Memory → Dma → Dma
dma_init m d = record d {
  dma_count = 0xffff;
  dmatag_index = 30;
  ee_tags = set d.ee_tags 31 (record { id_qwc = tag_id next * 2 ^ 28; addr = m.tags_at });
  sif1_qwc = 0;
  sif1_tadr = m.tags_at;
}

-- `sbcall_sifinit`.
unfoldable pub sif_init : Memory → Dma → Dma
unfolding set_dchain dma_init
sif_init m d =
    if d.initialized
    then d
    else dma_init m (
        set_dchain (record d {
          initialized = true;
          reg_table = replicate num_sifregs 0;
          unknf260 = 0xff;
          sif0_chcr = 0;
          sif1_chcr = 0;
        }))

-- `sbcall_sifexit`.
unfoldable pub sif_exit : Dma → Dma
sif_exit d = record d { initialized = false }
