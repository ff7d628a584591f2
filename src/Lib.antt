-- ===== src/Lib.antt =====
-- A verification library for starrysky-mc-server: a Minecraft server for a small board, and the serial
-- link by which a host's bridge carries the players' bytes to it.
--
-- The parts, and the files that model them:
--
-- Varint models core/src/mc_varint.c: `encode` and `decode` are `mc_varint_encode` and
-- `mc_varint_decode`. An `int32_t` is its 32-bit pattern. The encoder has five rounds, since five groups
-- of seven bits cover 32 bits.
--
-- Ringbuf models core/src/mc_ringbuf.c, the byte queue between all the parts: the record `Ringbuf` is
-- `mc_ringbuf_t` with the storage that `data` points to, and each operation has the name of its function
-- without the prefix. Ringbuf/Bounds has the invariant, Ringbuf/Refine and Ringbuf/Reads say what each
-- operation does to the queue of bytes, and Ringbuf/Script compares whole runs.
--
-- Packet models core/src/mc_packet.c: Packet/Writer the writer of packet bodies, Packet/Frame the
-- framing with and without the compressed format. A float is its bit pattern.
--
-- Link models core/src/mc_link.c: Link/Crc the checksum, Link/Cobs the streaming COBS encoder and the
-- decoder, Link/Frame `mc_link_encode` and `mc_link_decode_frame`, Link/Parser the parser
-- `mc_link_parser_feed`. The parser's loop over its buffer has one round more than the buffer has bytes,
-- because each round that goes on shortens the buffer.
--
-- Session models firmware/mc_link_session.c, the board's end of the link, on top of Link and Ringbuf:
-- Session has its state and what queues frames, Session/Handlers the received frames, Session/Transmit
-- the server's output and the reading of the queues. The ring `rx` is shared with the server by a
-- pointer; here it is a field, and what the server does to it between two calls is not modelled. The
-- loop over the received frames has 513 rounds, because a frame takes a byte at least out of the
-- parser's 512.
--
-- Led models firmware/mc_activity_led.c, with the tick rate of 72 MHz, the default. Led/Lamp describes
-- what the lamp is to do, in times that do not wrap round.
--
-- Server models core/src/mc_server.c: Server/State the state with its resets and the results of
-- commands, Server/Queue the queueing of packets, alone and in batches with the checkpoint of the ring,
-- Server/Packets and Server/Json the bodies that are sent, Server/Body the readers of bodies that are
-- received, Server/Frames the test whether a whole frame has been received, Server/Play what a client
-- that plays may send and the keepalive, Server/Handle the handshake, the login and the choice by state
-- and packet id, Server/Receive `mc_server_receive`, and Server/Tick `mc_server_tick_at` with the
-- sending of the world. Server/Session has what holds between the calls, the moves of the
-- connection, and the packets of the world as bytes (Server/Session/Outgoing). The loop over the frames has one round more than there are bytes, because each frame
-- takes a byte at least; the loop over the stages has one for each stage that is left. The build flag
-- of compression and the world are parameters: Server/Tick has the interface `Chunks`, and
-- Server/Spawn fills it in for the builds with the flat chunks and with the compressed map.
--
-- Commands models core/src/mc_commands.c: Commands/Text the builder of replies, Commands/Tokens the
-- splitting of a line, Commands/Fixed the hundredths of a double or float, Commands/Decimal the reading
-- of numbers, and Commands/Handle the commands. A C string is the list of its bytes before the final
-- zero, and a double or float its bit pattern, since the code takes them apart itself. Ten rounds are
-- enough for the digits of 32 bits, and 64 for the highest bit of 64.
--
-- World models core/src/mc_world.c, the flat chunks and their queueing; World/Data says what the loops
-- over the cells write. World/Compressed models core/src/mc_world_compressed.c in a build with the map:
-- the generated assets are a parameter, and a pointer into the arena is an offset.
--
-- Config has the constants of core/include/mc_config.h that these share, and Prelude the notation, the
-- lists over native numbers, and lemmas on bits and memory.
--
-- Machine words: `size_t` and `uint32_t` have 32 bits, as on the board, with the wrap-around written
-- out. Null pointers, which the code tests in places, are not modelled, and neither are the output to
-- the log and the server's trace, which the host sets to read along. Not modelled: the main loops of
-- the firmware and of the Linux server, which call these functions around a UART or a socket, the
-- platform layer with the registers of the board, and the bridge, which is in another language.
pub mod Prelude
pub mod Config
pub mod Varint
pub mod Ringbuf
pub mod Packet
pub mod Link
pub mod Session
pub mod Led
pub mod Server
pub mod World
pub mod Commands
