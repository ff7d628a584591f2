-- ===== src/Packet.antt =====
-- core/src/mc_packet.c: the writer of packet bodies, and the framing of packets.
pub mod Writer
pub mod Writes
pub mod Strings
pub mod Frame
pub mod Framing
pub mod Compressed
mod Tests
