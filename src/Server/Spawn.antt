-- ===== src/Server/Spawn.antt =====
-- core/src/mc_server.c: the worlds that the ticks send, one for each build.
use starrysky_mc_server.Prelude.{ℕ, Bool, false, not, leb, if◌then◌else◌, Act}
use starrysky_mc_server.Ringbuf.{Ringbuf}
use starrysky_mc_server.Server.Tick.{Chunks, queue_body}
use starrysky_mc_server.World.Compressed.{
  Runtime, queue_compressed_spawn_chunk, compressed_chunk_count,
}
use starrysky_mc_server.World.{chunk_count, spawn_chunk_body, queue_spawn_chunk}

-- `server_spawn_chunks` and `server_chunk_body` are as in the world.
unfoldable pub queue_spawn_chunk_auto : Bool → ℕ → Act Ringbuf
queue_spawn_chunk_auto compression_enabled index tx =
    if not compression_enabled
    then queue_spawn_chunk index tx
    else if leb chunk_count index
    then (false, tx)
    else queue_body compression_enabled (spawn_chunk_body index) tx

-- The nine flat chunks, in a build without the compressed map.
abbrev pub flat_world : Chunks
flat_world = record { queue_chunk = queue_spawn_chunk_auto; chunk_count = λ enabled. chunk_count }

-- The compressed map, for a client with compression; any other gets no chunk in that build.
abbrev pub mapped_world : Runtime → Chunks
mapped_world r = record {
  queue_chunk =
      λ enabled index tx. if enabled then queue_compressed_spawn_chunk r index tx else (false, tx);
  chunk_count = λ enabled. if enabled then compressed_chunk_count r else chunk_count;
}
