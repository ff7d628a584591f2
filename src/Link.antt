-- ===== src/Link.antt =====
-- core/src/mc_link.c: the frames of the serial link.
pub mod Crc
pub mod Cobs
pub mod Frame
pub mod Parser
mod Tests
