-- ===== src/Lib.antt =====
-- kernelreloaded: a boot loader and kernel stub for Linux on the PlayStation 2. The loader (loader/)
-- puts a kernel image, a small run-time kernel (kernel/) and the SBIOS (TGE/sbios/) into the memory of
-- the main processor, the EE; Linux then reaches the I/O processor, the IOP, through the calls of the
-- SBIOS. This library models the parts of the kernel and of the SBIOS that keep state, and the
-- loader's checks of what it has read.
--
-- The parts and how they interact:
--  - kernel/thread.c, Kernel/Semaphore: the 32 semaphores of the system calls, an array whose unused
--    entries form a list. createSema is create_sema, iDeleteSema is delete_sema, and so on.
--  - kernel/mmu.c, Kernel/Mmu: mapMemory, flush_tlbs and the table of mmu_init_module. Mmu/Translate
--    describes, apart from the code, what an entry of the TLB maps; Mmu/User compares the two.
--  - kernel/irq.c, kernel/intc.c and kernel/dmac.c, Kernel/Interrupts: the tables of handlers, the
--    masks, and the dispatch from the three interrupt lines to the sources of the two controllers.
--  - TGE/sbios/sifdma.c, Sbios/SifDma: the ring of 31 DMA tags by which transfers go to the IOP.
--    SifSetDma is set_dma, sif_dma_transfer is dma_transfer; State, Place, Send and Access hold the
--    definitions.
--  - TGE/sbios/sifcmd.c, Sbios/SifCmd: commands, which are packets of at most 112 bytes with optional
--    data. sif_cmd_send is cmd_send, which ends in set_dma; sif_cmd_interrupt is cmd_interrupt.
--  - TGE/sbios/sifrpc.c, Sbios/SifRpc: the client side of the remote calls. SifBindRpc and SifCallRpc
--    are bind_rpc and call_rpc, which take a packet from a table, tie it to the client and send it;
--    _request_end is request_end, which runs when the answer arrives. SifRpc/Server holds the server
--    side: SifRegisterRpc is register_rpc, _request_call is request_call, and so on.
--  - TGE/sbios/mutex.c and TGE/sbios/iopheap.c, Sbios/Mutex and Sbios/IopHeap: the allocator of the
--    IOP's memory, a client of the remote calls whose lock is held from a call to its answer.
--  - TGE/sbios/pad.c, Sbios/Pad: the controllers, two clients of the remote calls: the five stages of
--    their initialisation, the double buffer of each port and the requests that change a mode.
--    padGetDmaStr is get_dma_str, sbcall_padinit is pad_init, and so on.
--  - kernel/snprintf.c, Kernel/Snprintf: the formatted output of the kernel.
--  - loader/crc32check.c and tools/crc32gen/crc32gen.c, Loader/Crc: the checksums of the loader's
--    sections, written by a tool of the build and compared when the loader starts.
--  - loader/rom.c, Loader/Rom: the files that are linked into the loader, behind the functions of the
--    C library. Rom/Files describes a file and its position apart from the code.
--  - loader/loader.c, Loader/Elf: the test of the sections of the kernel image, their copying and the
--    comparison. check_sections32 is check_sections, and so on; kernel/loader.c has the same
--    copy_sections.
-- Common holds the lists, the tests and the bits of machine words that they share.
--
-- How the code is modelled: a structure is a record and a function takes and returns the state that it
-- changes. An address is a number, and a pointer into a table is its index, with `none` for NULL. An
-- access outside an array, and a loop that does not end, is the result `none`; a theorem says where it
-- cannot happen. Numbers are natural numbers with the wrap-around of the C type written out; the
-- semaphores' counts and the return codes are integers of their own type. A hardware register holds
-- what was last written to it; reads that the hardware may change are arguments. What the interrupts do
-- while a call waits is a list of functions, one for each round of the loop that waits, and code that
-- is reached through a pointer is a function that the definitions take. Elsewhere a call, and the
-- handling of an answer, is one step: that an interrupt comes within one is not modelled. The loops run
-- over a list, over the rounds that are left or over a counter; only search_svdata, which follows
-- pointers, counts its rounds, up to one more than there are structures, so that a run that uses them
-- up is one that goes in a circle. A shift by a register takes the amount modulo 32, as the processor
-- does. The write-backs of the data cache and the messages that are printed are left out.
--
-- Not modelled: the other clients in TGE/sbios (discs, memory cards, sound, files), which follow the
-- pattern of the heap, the rest of the loader with its user interface and its devices, the timers of
-- the kernel, the drivers in iop/, and the assembler files.
pub mod Common
pub mod Kernel
pub mod Loader
pub mod Sbios
