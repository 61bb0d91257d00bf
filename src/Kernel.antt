-- ===== src/Kernel.antt =====
-- The kernel: the semaphores, the page table and the interrupts.
pub mod Semaphore
pub mod Mmu
pub mod Interrupts
pub mod Snprintf
