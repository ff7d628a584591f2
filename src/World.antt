-- ===== src/World.antt =====
-- core/src/mc_world.c: the chunks around the spawn, in a build without the compressed map.
mod Tests
pub mod Data
pub mod Body
pub mod Spawn
pub mod Compressed
use starrysky_mc_server.Packet.Writer.{write_i32, write_u16, write_bool, write_bytes, write_varint}
use starrysky_mc_server.Prelude.{
  ℕ, zero, suc, ◌+◌, ◌-◌, ◌*◌, ◌%◌, Bool, true, false, not, ◌||◌, Option, none, some, List, [], ◌∷◌,
  length, leb, ltb, ◌==◌, if◌then◌else◌, shl, shr, set, copy_at, replicate, get_or, Act, ◌>>◌,
}
use starrysky_mc_server.Ringbuf
use starrysky_mc_server.Ringbuf.{Ringbuf, add_size}
use starrysky_mc_server.Server.Packets.{build}
use starrysky_mc_server.Server.Queue.{queue_packet}
use starrysky_mc_server.Varint.{encode}

abbrev pub chunk_section_bytes : ℕ
chunk_section_bytes = 12544

abbrev pub chunk_count : ℕ
chunk_count = 9

-- `world_spawn_chunks`; -1 is 0xffffffff.
abbrev pub spawn_chunks : List (ℕ × ℕ)
spawn_chunks =
    (0, 0)
    ∷ (1, 0)
    ∷ (0xffffffff, 0)
    ∷ (0, 1)
    ∷ (0, 0xffffffff)
    ∷ (1, 1)
    ∷ (0xffffffff, 0xffffffff)
    ∷ (1, 0xffffffff)
    ∷ (0xffffffff, 1)
    ∷ []

unfoldable pub block_for_y : ℕ → ℕ
block_for_y y =
    if y == 0 then shl 7 4 else if leb y 3 then shl 3 4 else if y == 4 then shl 2 4 else 0

-- A cell of the chunk, at `off`.
unfoldable pub put_block : ℕ → ℕ → List ℕ → List ℕ
put_block block off mem = set (set mem off (block % 256)) (off + 1) (shr block 8 % 256)

-- The three loops, each over the rounds that are left of sixteen.
unfoldable pub x_loop : ℕ → ℕ → ℕ → ℕ → List ℕ → List ℕ
unfolding put_block
x_loop zero y z block mem = mem
x_loop (suc left) y z block mem =
    x_loop left y z block (put_block block (((y * 16 + z) * 16 + (15 - left)) * 2) mem)

unfoldable pub z_loop : ℕ → ℕ → ℕ → List ℕ → List ℕ
unfolding x_loop
z_loop zero y block mem = mem
z_loop (suc left) y block mem = z_loop left y block (x_loop 16 y (15 - left) block mem)

unfoldable pub y_loop : ℕ → List ℕ → List ℕ
unfolding z_loop block_for_y
y_loop zero mem = mem
y_loop (suc left) mem = y_loop left (z_loop 16 (15 - left) (block_for_y (15 - left)) mem)

-- `world_chunk_data` with the blocks, the light and the biomes.
unfoldable pub chunk_data : List ℕ
unfolding y_loop
chunk_data =
    let blocks = y_loop 16 (replicate chunk_section_bytes 0) in
    let block_light = copy_at blocks 8192 (replicate 2048 0xff) in
    let sky_light = copy_at block_light 10240 (replicate 2048 0xff) in
    copy_at sky_light 12288 (replicate 256 1)

unfoldable pub build_chunk_body : ℕ → ℕ → ℕ → Option (List ℕ)
unfolding build chunk_data
build_chunk_body chunk_x chunk_z body_cap = build body_cap (
    write_varint 0x21
    >> write_i32 chunk_x
    >> write_i32 chunk_z
    >> write_bool true
    >> write_u16 0x0001
    >> write_varint chunk_section_bytes
    >> write_bytes chunk_data)

-- The body at an index of the table, in `world_chunk_body`.
unfoldable pub spawn_chunk_body : ℕ → Option (List ℕ)
unfolding build_chunk_body
spawn_chunk_body index =
    let (chunk_x, chunk_z) = get_or spawn_chunks index (0, 0) in
    build_chunk_body chunk_x chunk_z (chunk_section_bytes + 32)

unfoldable pub queue_spawn_chunk : ℕ → Act Ringbuf
unfolding spawn_chunk_body
queue_spawn_chunk index tx =
    if leb chunk_count index
    then (false, tx)
    else elim (spawn_chunk_body index) [ none ↦ (false, tx) | some body ↦ queue_packet body tx ]

-- A round of the preflight, for the body of a chunk: the new `needed`, or `none` for a return of 0.
unfoldable pub preflight_step : ℕ → List ℕ → ℕ → Option ℕ
preflight_step free_len body needed =
    let prefix_len = length (encode (length body) 5) in
    let frame_len = add_size prefix_len (length body) in
    if prefix_len == 0 || (ltb free_len prefix_len || ltb (free_len - prefix_len) (length body))
    then none
    else if ltb free_len needed || ltb (free_len - needed) frame_len
    then none
    else some (add_size needed frame_len)

-- The loops over the nine chunks, each over the rounds that are left.
unfoldable pub preflight_loop : ℕ → ℕ → ℕ → Bool
unfolding preflight_step spawn_chunk_body
preflight_loop zero free_len needed = true
preflight_loop (suc left) free_len needed = elim (spawn_chunk_body (8 - left)) [
  | none ↦ false
  | some body ↦ elim (preflight_step free_len body needed) [
    | none ↦ false
    | some needed' ↦ preflight_loop left free_len needed'
  ]
]

unfoldable pub preflight_spawn_chunk_space : Ringbuf → Bool
unfolding preflight_loop
preflight_spawn_chunk_space tx = preflight_loop chunk_count (Ringbuf.free tx) 0

unfoldable pub queue_chunks_loop : ℕ → Act Ringbuf
unfolding queue_spawn_chunk
queue_chunks_loop zero tx = (true, tx)
queue_chunks_loop (suc left) tx =
    let (queued, tx') = queue_spawn_chunk (8 - left) tx in
    let rest = queue_chunks_loop left tx' in if queued then rest else (false, tx')

unfoldable pub queue_spawn_chunks : Act Ringbuf
unfolding preflight_spawn_chunk_space queue_chunks_loop
queue_spawn_chunks tx =
    if not (preflight_spawn_chunk_space tx) then (false, tx) else queue_chunks_loop chunk_count tx
