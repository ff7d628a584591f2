-- ===== src/World/Compressed.antt =====
-- core/src/mc_world_compressed.c: the chunks of the compressed map, in a build that has it. The
-- assets, a file that the build generates, are a parameter of the initialisation.
pub mod Loading
pub mod Queueing
use starrysky_mc_server.Config.{max_packet_body, int32_max}
use starrysky_mc_server.Prelude.{
  ℕ, zero, suc, ◌-◌, Bool, true, false, not, ◌||◌, Option, none, some, List, [], ◌∷◌, length, take,
  drop, leb, ltb, ◌==◌, if◌then◌else◌, copy_at, Act, ◌>>◌,
}
use starrysky_mc_server.Ringbuf
use starrysky_mc_server.Ringbuf.{Ringbuf, add_size}
use starrysky_mc_server.Server.Queue.{write_all}
use starrysky_mc_server.Varint.{encode}

abbrev pub max_chunks : ℕ
max_chunks = 32

-- `mc_world_compressed_asset_t`, as the code reads it.
pub record Asset : Type 0 where
  pub chunk_x : ℕ
  pub chunk_z : ℕ
  pub raw_body_len : ℕ
  pub compressed_len : ℕ
  pub compressed : List ℕ

-- `mc_world_compressed_chunk_t`; `compressed` is an offset into the arena.
pub record Chunk : Type 0 where
  pub chunk_x : ℕ
  pub chunk_z : ℕ
  pub raw_body_len : ℕ
  pub compressed_len : ℕ
  pub compressed : ℕ

-- The static variables, and the arena; `chunks` is `runtime_chunks[0 .. runtime_chunk_count)`.
pub record Runtime : Type 0 where
  pub chunks : List Chunk
  pub ready : Bool
  pub arena : List ℕ

unfoldable pub frame_valid : ℕ → ℕ → Bool
frame_valid raw_body_len compressed_len =
    let data_len_len = length (encode raw_body_len 5) in
    let inner_len = add_size data_len_len compressed_len in
    if raw_body_len == 0
      || (ltb max_packet_body raw_body_len
          || (compressed_len == 0 || ltb max_packet_body compressed_len))
    then false
    else if data_len_len == 0 || ltb (int32_max - data_len_len) compressed_len
    then false
    else not (ltb max_packet_body inner_len || length (encode inner_len 5) == 0)

-- The chunk of an asset that is copied to `pos`.
unfoldable pub chunk_of : Asset → ℕ → Chunk
chunk_of asset pos = record {
  chunk_x = asset.chunk_x;
  chunk_z = asset.chunk_z;
  raw_body_len = asset.raw_body_len;
  compressed_len = asset.compressed_len;
  compressed = pos;
}

-- The tests on an asset.
unfoldable pub refused : Asset → ℕ → ℕ → Bool
unfolding frame_valid
refused asset arena_len pos =
    asset.compressed_len == 0
    || (not (frame_valid asset.raw_body_len asset.compressed_len)
        || (ltb arena_len pos || ltb (arena_len - pos) asset.compressed_len))

-- The loop over the assets, with the arena; `none` is a return of 0.
unfoldable pub load_loop : ℕ → List Asset → ℕ → List ℕ → Option (List Chunk) × List ℕ
unfolding refused chunk_of
load_loop arena_len [] pos dst = (some [], dst)
load_loop arena_len (asset ∷ assets) pos dst =
    let (chunks, dst') =
      load_loop arena_len assets (add_size pos asset.compressed_len)
        (copy_at dst pos (take asset.compressed_len asset.compressed)) in
    if refused asset arena_len pos then (none, dst) else (
      elim chunks as (λ _. Option (List Chunk)) [
        | none ↦ none
        | some chunks ↦ some (chunk_of asset pos ∷ chunks)
      ],
      dst',
    )

-- A load that failed leaves no chunk.
unfoldable pub loaded : Option (List Chunk) × List ℕ → Bool × Runtime
loaded (none, arena) = (false, record { chunks = []; ready = false; arena = arena })
loaded (some chunks, arena) = (true, record { chunks = chunks; ready = true; arena = arena })

unfoldable pub compressed_init : List Asset → ℕ → List ℕ → Bool × Runtime
unfolding load_loop loaded
compressed_init assets total_bytes arena =
    if ltb max_chunks (length assets) || ltb (length arena) total_bytes
    then loaded (none, arena)
    else loaded (load_loop (length arena) assets 0 arena)

unfoldable pub compressed_chunk_count : Runtime → ℕ
compressed_chunk_count r = length r.chunks

abbrev pub at {ℓ} : {A : Type ℓ} → List A → ℕ → Option A
at [] index = none
at (x ∷ xs) zero = some x
at (x ∷ xs) (suc index) = at xs index

unfoldable pub compressed_chunk : Runtime → ℕ → Option Chunk
compressed_chunk r index =
    if not r.ready || leb (length r.chunks) index then none else at r.chunks index

-- The bytes of a chunk in the arena.
unfoldable pub chunk_bytes : List ℕ → Chunk → List ℕ
chunk_bytes arena chunk = take chunk.compressed_len (drop chunk.compressed arena)

unfoldable pub queue_chunk_bytes : ℕ → ℕ → List ℕ → Act Ringbuf
unfolding frame_valid
queue_chunk_bytes raw_body_len compressed_len bytes tx =
    let data_len_varint = encode raw_body_len 5 in
    let data_len_len = length data_len_varint in
    let inner_len = add_size data_len_len compressed_len in
    let prefix = encode inner_len 5 in
    let prefix_len = length prefix in
    if not (frame_valid raw_body_len compressed_len)
    then (false, tx)
    else if data_len_len == 0 || ltb (int32_max - data_len_len) compressed_len
    then (false, tx)
    else if prefix_len == 0 || ltb (Ringbuf.free tx) (add_size prefix_len inner_len)
    then (false, tx)
    else (write_all prefix >> (write_all data_len_varint >> write_all bytes)) tx

unfoldable pub queue_compressed_spawn_chunk : Runtime → ℕ → Act Ringbuf
unfolding compressed_chunk queue_chunk_bytes chunk_bytes
queue_compressed_spawn_chunk r index tx = elim (compressed_chunk r index) [
  | none ↦ (false, tx)
  | some chunk ↦
      queue_chunk_bytes chunk.raw_body_len chunk.compressed_len (chunk_bytes r.arena chunk) tx
]
