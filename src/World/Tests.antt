-- ===== src/World/Tests.antt =====
-- The chunks at concrete inputs.
use starrysky_mc_server.Prelude.{
  ℕ, ◌-◌, ◌<◌, ◌≤◌, ◌≡◌, ◌⊎◌, refl, arith, List, [], ◌∷◌, true, false, some,
}
use starrysky_mc_server.Ringbuf.Bounds.{IsValid}
use starrysky_mc_server.Ringbuf.{Ringbuf}
use starrysky_mc_server.Server.Queue.Single.{IsQueued}
use starrysky_mc_server.Varint.{encode}
use starrysky_mc_server.World.Body.{chunk_packet, build_chunk_body_lem}
use starrysky_mc_server.World.Compressed.Loading.{AllSame, compressed_init_lem}
use starrysky_mc_server.World.Compressed.Queueing.{WholeFrame, queue_compressed-WholeFrame}
use starrysky_mc_server.World.Compressed.{Asset, compressed_init, queue_compressed_spawn_chunk}
use starrysky_mc_server.World.Spawn.{frames_left, queue_spawn_chunks_lem}
use starrysky_mc_server.World.{block_for_y, build_chunk_body, queue_spawn_chunks}

abbrev output : Ringbuf
output = record {
  storage = 0 ∷ 0 ∷ 0 ∷ 0 ∷ 0 ∷ 0 ∷ 0 ∷ 0 ∷ [];
  cap = 8;
  head = 3;
  tail = 3;
  len = 0;
}

output-IsValid : IsValid output
output-IsValid = omega arith

grass : block_for_y 4 ≡ 32
unfolding block_for_y
grass = refl

build_chunk_body_lem_example :
    build_chunk_body 1 0xffffffff 12576 ≡ some (chunk_packet 1 0xffffffff)
build_chunk_body_lem_example = build_chunk_body_lem 1 0xffffffff 12576 (omega arith) (omega arith)

queue_spawn_chunks_lem_example :
    ((113040 ≤ output.cap - output.len)
      × IsQueued (frames_left 9) output (queue_spawn_chunks output))
    ⊎ ((output.cap - output.len < 113040) × (queue_spawn_chunks output ≡ (false, output)))
queue_spawn_chunks_lem_example = queue_spawn_chunks_lem output output-IsValid

-- Two assets of three and two bytes.
abbrev assets : List Asset
assets =
    record {
      chunk_x = 0;
      chunk_z = 0;
      raw_body_len = 9;
      compressed_len = 3;
      compressed = 7 ∷ 8 ∷ 9 ∷ [];
    }
    ∷ record {
      chunk_x = 1;
      chunk_z = 0;
      raw_body_len = 5;
      compressed_len = 2;
      compressed = 4 ∷ 5 ∷ [];
    }
    ∷ []

abbrev arena : List ℕ
arena = 0 ∷ 0 ∷ 0 ∷ 0 ∷ 0 ∷ 0 ∷ []

loads : (compressed_init assets 5 arena).0 ≡ true
unfolding compressed_init encode
loads = refl

compressed_init_lem_example :
    AllSame
      (compressed_init assets 5 arena).1.arena
      assets
      (compressed_init assets 5 arena).1.chunks
compressed_init_lem_example =
    compressed_init_lem assets 5 arena (omega arith) (omega arith, (omega arith, tt)) loads

queue_compressed-WholeFrame_example :
    WholeFrame 5
      (4 ∷ 5 ∷ [])
      output
      (queue_compressed_spawn_chunk (compressed_init assets 5 arena).1 1 output)
queue_compressed-WholeFrame_example =
    queue_compressed-WholeFrame assets 5 arena 1
      (record {
        chunk_x = 1;
        chunk_z = 0;
        raw_body_len = 5;
        compressed_len = 2;
        compressed = 4 ∷ 5 ∷ [];
      })
      output (omega arith) (omega arith, (omega arith, tt)) loads refl output-IsValid
