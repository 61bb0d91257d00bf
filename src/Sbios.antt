-- ===== src/Sbios.antt =====
-- The SBIOS, TGE/sbios/.
pub mod SifDma
pub mod SifRpc
pub mod SifCmd
pub mod Mutex
pub mod IopHeap
pub mod Pad
