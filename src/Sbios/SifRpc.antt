-- ===== src/Sbios/SifRpc.antt =====
-- TGE/sbios/sifrpc.c: the client side of the SIF RPC, by which the SBIOS calls servers on the IOP.
-- A request takes a packet of the table `pkt_table` and ties a client structure to it until
-- the answer arrives. A pointer to a packet is its index in the table. `SifSendCmd`, and what an end
-- function does, are parameters over a state `S` of the rest of the SBIOS.
pub mod Table
pub mod Request
pub mod Reply
pub mod Packets
pub mod Ownership
pub mod Requests
pub mod Answers
pub mod Rejected
pub mod Server
pub mod Tests
