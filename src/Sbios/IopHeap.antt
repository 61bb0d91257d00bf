-- ===== src/Sbios/IopHeap.antt =====
-- TGE/sbios/iopheap.c: the allocator of the IOP's memory, called through the remote interface.
pub mod Calls
pub mod Locking
pub mod Answer
mod Tests
