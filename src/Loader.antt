-- ===== src/Loader.antt =====
-- The loader, loader/, and the tools it is built with, tools/.
pub mod Crc
pub mod Rom
pub mod Elf
