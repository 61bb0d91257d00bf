-- ===== src/Sbios/SifCmd.antt =====
-- TGE/sbios/sifcmd.c: the commands that the EE and the IOP send each other over the SIF.
pub mod State
pub mod Send
pub mod Dispatch
pub mod Handlers
pub mod Interrupt
pub mod Delivery
pub mod Ready
pub mod Loopback
mod Tests
