-- ===== src/Kernel/Mmu.antt =====
-- kernel/mmu.c: the fixed page table of the kernel, and what an address translates to.
pub mod Tlb
pub mod Setup
pub mod Translate
pub mod Layout
pub mod User
mod Tests
