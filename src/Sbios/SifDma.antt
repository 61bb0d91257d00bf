-- ===== src/Sbios/SifDma.antt =====
-- TGE/sbios/sifdma.c: the SIF registers and the ring of DMA tags by which the EE sends to the IOP.
-- A hardware register reads as it was last written; the DMA controller is halted while the ring is
-- changed. `core_save_disable` and `core_restore` act on the interrupt enable bit `ie`.
-- Fields of a word that do not overlap are joined by `+`.
pub mod State
pub mod Place
pub mod Send
pub mod Access
pub mod Ring
pub mod Registers
pub mod Tags
pub mod SetDma
mod Tests
