-- ===== src/Kernel/Interrupts.antt =====
-- kernel/irq.c, kernel/intc.c and kernel/dmac.c: the interrupts of the kernel.
pub mod State
pub mod Dispatch
pub mod Sources
pub mod Masks
mod Tests
