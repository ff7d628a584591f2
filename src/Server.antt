-- ===== src/Server.antt =====
-- core/src/mc_server.c: the parts of the Java server that are modelled.
pub mod Queue
pub mod State
pub mod Play
pub mod Handle
pub mod Receive
pub mod Tick
pub mod Session
pub mod Packets
pub mod Json
pub mod Body
pub mod Frames
pub mod Spawn
mod Tests
