-- ===== src/World/Body.antt =====
-- core/src/mc_world.c: the bodies of the chunks, and what queueing one does.
use starrysky_mc_server.Packet.Framing.{framed, length-framed}
use starrysky_mc_server.Packet.Writes.{
  >>-Appends, write_varint-Appends, write_i32-Appends, write_bool-Appends, write_u16-Appends,
  write_bytes-Appends, big_endian,
}
use starrysky_mc_server.Prelude.{
  ℕ, ◌+◌, ◌^◌, ◌≤◌, ◌≡◌, refl, sym, ap, ◌∙◌, arith, List, [], ◌∷◌, ◌++◌, true, some, length, get_or,
  ◌>>◌,
}
use starrysky_mc_server.Packet.Writer.{write_i32, write_u16, write_bool, write_bytes, write_varint}
use starrysky_mc_server.Server.Packets.{build}
use starrysky_mc_server.Server.Packets.Built.{build-some}
use starrysky_mc_server.Varint.RoundTrip.{bytes_of}
use starrysky_mc_server.World.Data.{
  ground_blocks, light_and_biomes, chunk_data_lem, length-chunk_data,
}
use starrysky_mc_server.World.{spawn_chunks, chunk_data, build_chunk_body, spawn_chunk_body}

-- The packet of a chunk with given data: its id, the place, the marks of a whole column with one
-- section, the length of the data, and the data.
abbrev header : ℕ → ℕ → List ℕ
header chunk_x chunk_z =
    ((((bytes_of 0x21 ++ big_endian 4 chunk_x) ++ big_endian 4 chunk_z) ++ (1 ∷ []))
      ++ big_endian 2 1)
    ++ bytes_of 12544

abbrev with_data : ℕ → ℕ → List ℕ → List ℕ
with_data chunk_x chunk_z bytes = header chunk_x chunk_z ++ bytes

unfoldable pub chunk_packet : ℕ → ℕ → List ℕ
chunk_packet chunk_x chunk_z = with_data chunk_x chunk_z (ground_blocks ++ light_and_biomes)

length-chunk_data_bytes : length (ground_blocks ++ light_and_biomes) ≡ 12544
length-chunk_data_bytes = sym (ap length chunk_data_lem) ∙ length-chunk_data

length-with_data : (x z : ℕ) (d : List ℕ) → length (with_data x z d) ≡ length d + 14
unfolding bytes_of
length-with_data x z d = omega arith

pub length-chunk_packet : (x z : ℕ) → length (chunk_packet x z) ≡ 12558
unfolding chunk_packet
length-chunk_packet x z =
    length-with_data x z (ground_blocks ++ light_and_biomes)
    ∙ omega (arith, length-chunk_data_bytes)

build-with_data :
    (x z body_cap : ℕ) (d : List ℕ)
    → length d ≡ 12544
    → 12558 ≤ body_cap
    → body_cap ≤ 2 ^ 31
    → build body_cap (
        write_varint 0x21
        >> write_i32 x
        >> write_i32 z
        >> write_bool true
        >> write_u16 0x0001
        >> write_varint 12544
        >> write_bytes d)
      ≡ some (with_data x z d)
build-with_data x z body_cap d n fits small =
    let id_x =
      >>-Appends (bytes_of 0x21) (big_endian 4 x) (write_varint-Appends 0x21 (omega arith))
        (write_i32-Appends x) in
    let place = >>-Appends _ (big_endian 4 z) id_x (write_i32-Appends z) in
    let whole = >>-Appends _ (1 ∷ []) place (write_bool-Appends true) in
    let mask = >>-Appends _ (big_endian 2 1) whole (write_u16-Appends 1) in
    let size = >>-Appends _ (bytes_of 12544) mask (write_varint-Appends 12544 (omega arith)) in
    build-some body_cap (with_data x z d) _ (>>-Appends (header x z) d size (write_bytes-Appends d))
      (omega (arith, n, length-with_data x z d)) small

-- In a buffer with room for 12558 bytes the body of a chunk is built: the packet's id, the place,
-- the marks of a whole column with one section, the length of the data in a VarInt, and the data:
-- a layer of bedrock, three of dirt, one of grass and eleven of air, full light, and one biome.
pub build_chunk_body_lem :
    (x z body_cap : ℕ)
    → 12558 ≤ body_cap
    → body_cap ≤ 2 ^ 31
    → build_chunk_body x z body_cap ≡ some (chunk_packet x z)
unfolding build_chunk_body chunk_packet
build_chunk_body_lem x z body_cap fits small =
    build-with_data x z body_cap chunk_data length-chunk_data fits small
    ∙ ap (λ d. some (with_data x z d)) chunk_data_lem

-- The packet at an index of the table.
abbrev pub packet_at : ℕ → List ℕ
packet_at index = let (x, z) = get_or spawn_chunks index (0, 0) in chunk_packet x z

pub length-packet_at : (index : ℕ) → length (packet_at index) ≡ 12558
length-packet_at index = length-chunk_packet _ _

pub spawn_chunk_body_lem : (index : ℕ) → spawn_chunk_body index ≡ some (packet_at index)
unfolding spawn_chunk_body
spawn_chunk_body_lem index = build_chunk_body_lem _ _ 12576 (omega arith) (omega arith)

-- A frame around it.
unfoldable pub chunk_frame : ℕ → List ℕ
chunk_frame index = framed (packet_at index)

pub length-chunk_frame : (index : ℕ) → length (chunk_frame index) ≡ 12560
unfolding chunk_frame
length-chunk_frame index =
    length-framed (packet_at index) ∙ rw (length-packet_at index) (unfold bytes_of in refl)
