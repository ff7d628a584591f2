-- ===== src/World/Compressed/Queueing.antt =====
-- core/src/mc_world_compressed.c: what queueing a chunk of the compressed map does.
use mathlib.Core.Bool.{false≢true}
use mathlib.Core.Option.{none-ne-some, some-injective}
use mathlib.Core.Path.{subst}
use starrysky_mc_server.Config.{max_packet_body, int32_max}
use starrysky_mc_server.Packet.Compressed.{framed_compressed}
use starrysky_mc_server.Packet.Framing.{framed, length-framed}
use starrysky_mc_server.Prelude.{
  ℕ, zero, suc, ◌+◌, ◌-◌, ◌^◌, ◌≤◌, ◌<◌, ◌≡◌, ◌⊎◌, inl, inr, refl, sym, ap, ◌∙◌, arith, Bool, true,
  false, not, ◌||◌, Option, none, some, List, [], ◌∷◌, ◌++◌, length, leb, ltb, ◌==◌, if◌then◌else◌,
  leb→le, pos→ne, length-take, length-append, Bool-cases, le→ltb, ltb→le, ltb→lt, All, Act, ◌>>◌,
}
use starrysky_mc_server.Ringbuf.{Ringbuf, add_size}
use starrysky_mc_server.Ringbuf.Bounds.{IsValid, free_lem}
use starrysky_mc_server.Server.Queue.Single.{IsQueued, three_writes}
use starrysky_mc_server.Server.Queue.{write_all}
use starrysky_mc_server.Varint.RoundTrip.{bytes_of, length-bytes_of, encode-eq-bytes_of}
use starrysky_mc_server.World.Compressed.{
  Asset, Chunk, Runtime, frame_valid, compressed_init, compressed_chunk, chunk_bytes, at,
  queue_chunk_bytes, queue_compressed_spawn_chunk,
}
use starrysky_mc_server.World.Compressed.Loading.{
  asset_bytes, IsWhole, Same, AllSame, no_chunks, more_chunks, compressed_init_lem,
  compressed_init_ready,
}

length-framed_compressed :
    (raw : ℕ) (bytes : List ℕ)
    → length (framed_compressed raw bytes)
      ≡ length (bytes_of (length (bytes_of raw) + length bytes))
        + (length (bytes_of raw) + length bytes)
unfolding framed_compressed
length-framed_compressed raw bytes =
    length-framed (bytes_of raw ++ bytes)
    ∙ ap (λ n. length (bytes_of n) + n) (length-append (bytes_of raw) bytes)

framed_compressed-eq :
    (raw : ℕ) (bytes : List ℕ)
    → bytes_of (length (bytes_of raw) + length bytes) ++ (bytes_of raw ++ bytes)
      ≡ framed_compressed raw bytes
unfolding framed_compressed framed
framed_compressed-eq raw bytes =
    ap (λ n. bytes_of n ++ (bytes_of raw ++ bytes)) (sym (length-append (bytes_of raw) bytes))

abbrev limits : ℕ → ℕ → Bool
limits raw len = raw == 0 || (ltb max_packet_body raw || (len == 0 || ltb max_packet_body len))

-- What the test comes to, for lengths within the limit.
frame_valid-eq :
    (raw len : ℕ)
    → limits raw len ≡ false
    → frame_valid raw len ≡ leb (length (bytes_of raw) + len) max_packet_body
unfolding frame_valid
frame_valid-eq raw len e =
    let l = length-bytes_of raw in
    let small : raw ≤ 32768 = ground arith in
    let short : len ≤ 32768 = ground arith in
    let inner : add_size (length (bytes_of raw)) len ≡ length (bytes_of raw) + len =
      omega (arith, l) in
    rw
      (
        e,
        encode-eq-bytes_of raw 5 (omega arith) (omega arith),
        inner,
        encode-eq-bytes_of (length (bytes_of raw) + len) 5 (omega (arith, l)) (omega arith),
      )
      (ground (arith, l, length-bytes_of (length (bytes_of raw) + len)))

frame_valid_not : (raw len : ℕ) → limits raw len ≡ true → frame_valid raw len ≡ false
unfolding frame_valid
frame_valid_not raw len e = rw e refl

-- A valid frame is within the limit.
frame_valid_lem :
    (raw len : ℕ)
    → frame_valid raw len ≡ true
    → (raw ≤ max_packet_body) × (length (bytes_of raw) + len ≤ max_packet_body)
frame_valid_lem raw len e = elim (Bool-cases (limits raw len)) [
  | inl t ↦ absurd (false≢true (sym (frame_valid_not raw len t) ∙ e))
  | inr t ↦ (ground arith, leb→le _ _ (sym (frame_valid-eq raw len t) ∙ e))
]

queue_chunk_bytes_lem :
    (raw len : ℕ) (bytes : List ℕ) (tx : Ringbuf)
    → frame_valid raw len ≡ true
    → len ≡ length bytes
    → IsValid tx
    → queue_chunk_bytes raw len bytes tx ≡ (
        if ltb (tx.cap - tx.len) (length (framed_compressed raw bytes))
        then (false, tx)
        else (write_all (bytes_of (length (bytes_of raw) + length bytes))
              >> (write_all (bytes_of raw) >> write_all bytes))
            tx)
unfolding queue_chunk_bytes
queue_chunk_bytes_lem raw len bytes tx ok e v =
    let (small, all) = frame_valid_lem raw len ok in
    let l = length-bytes_of raw in
    let k = length-bytes_of (length (bytes_of raw) + length bytes) in
    let inner : add_size (length (bytes_of raw)) len ≡ length (bytes_of raw) + length bytes =
      omega (arith, l) in
    let total : add_size (length (bytes_of (length (bytes_of raw) + length bytes)))
          (length (bytes_of raw) + length bytes)
        ≡ length (framed_compressed raw bytes) =
      omega (arith, l, k, length-framed_compressed raw bytes) in
    rw
      (
        ok,
        encode-eq-bytes_of raw 5 (omega arith) (omega arith),
        inner,
        encode-eq-bytes_of (length (bytes_of raw) + length bytes) 5 (omega (arith, l))
            (omega arith),
        total,
        free_lem tx v,
        le→ltb (int32_max - length (bytes_of raw)) len (omega (arith, l)),
        pos→ne (length (bytes_of raw)) (omega (arith, l)),
        pos→ne (length (bytes_of (length (bytes_of raw) + length bytes))) (omega (arith, k)),
      )
      refl

-- A frame of the compressed format is queued whole or not at all.
pub record WholeFrame (raw : ℕ) (bytes : List ℕ) (tx : Ringbuf) (r : Bool × Ringbuf) : Type 0 where
  pub outcome :
      ((length (framed_compressed raw bytes) ≤ tx.cap - tx.len)
        × IsQueued (framed_compressed raw bytes) tx r)
      ⊎ ((tx.cap - tx.len < length (framed_compressed raw bytes)) × (r ≡ (false, tx)))

queue_chunk_bytes-WholeFrame :
    (raw len : ℕ) (bytes : List ℕ) (tx : Ringbuf)
    → frame_valid raw len ≡ true
    → len ≡ length bytes
    → IsValid tx
    → WholeFrame raw bytes tx (queue_chunk_bytes raw len bytes tx)
queue_chunk_bytes-WholeFrame raw len bytes tx ok e v =
    let lem = queue_chunk_bytes_lem raw len bytes tx ok e v in
    let act : Act Ringbuf =
      write_all (bytes_of (length (bytes_of raw) + length bytes))
      >> (write_all (bytes_of raw) >> write_all bytes) in
    elim (Bool-cases (ltb (tx.cap - tx.len) (length (framed_compressed raw bytes)))) [
      | inl t ↦ record { outcome = inr (ltb→lt _ _ t, lem ∙ rw t refl) }
      | inr t ↦
          let room : length (framed_compressed raw bytes) ≤ tx.cap - tx.len = ltb→le _ _ t in
          let writes =
            three_writes (bytes_of (length (bytes_of raw) + length bytes)) (bytes_of raw) bytes tx v
              (omega (arith, length-framed_compressed raw bytes)) in
          record {
            outcome = inl (
              room,
              subst (λ r. IsQueued (framed_compressed raw bytes) tx r)
                  (sym (lem ∙ ap (λ b. if b then (false, tx) else act tx) t))
                  (subst (λ l. IsQueued l tx (act tx)) (framed_compressed-eq raw bytes) writes),
            );
          }
    ]

length-asset_bytes :
    (asset : Asset) → IsWhole asset → length (asset_bytes asset) ≡ asset.compressed_len
length-asset_bytes asset h = omega (arith, length-take asset.compressed_len asset.compressed)

-- The chunk of an asset.
Same-at :
    (arena : List ℕ) (assets : List Asset) (chunks : List Chunk) (index : ℕ) (asset : Asset)
    → AllSame arena assets chunks
    → at assets index ≡ some asset
    → (chunk : Chunk) × (at chunks index ≡ some chunk)
      × (index < length chunks)
      × Same arena asset chunk
Same-at arena [] [] index asset no_chunks e = absurd (none-ne-some asset e)
Same-at arena [] (chunk ∷ chunks) index asset same e = elim same [ ]
Same-at arena (first ∷ assets) [] index asset same e = elim same [ ]
Same-at arena (first ∷ assets) (chunk ∷ chunks) zero asset (more_chunks same rest) e =
    (chunk, refl, omega arith, subst (λ a. Same arena a chunk) (some-injective first asset e) same)
Same-at arena (first ∷ assets) (chunk ∷ chunks) (suc index) asset (more_chunks same rest) e =
    let (found, f, bound, same') = Same-at arena assets chunks index asset rest e in
    (found, f, omega arith, same')

compressed_chunk-eq :
    (r : Runtime) (index : ℕ)
    → r.ready ≡ true
    → index < length r.chunks
    → compressed_chunk r index ≡ at r.chunks index
unfolding compressed_chunk
compressed_chunk-eq r index ready bound =
    let test : (not r.ready || leb (length r.chunks) index) ≡ false = ground arith in
    ap (λ b. if b then none else at r.chunks index) test

queue_compressed-eq :
    (r : Runtime) (index : ℕ) (chunk : Chunk) (tx : Ringbuf)
    → compressed_chunk r index ≡ some chunk
    → queue_compressed_spawn_chunk r index tx
      ≡ queue_chunk_bytes chunk.raw_body_len chunk.compressed_len (chunk_bytes r.arena chunk) tx
unfolding queue_compressed_spawn_chunk
queue_compressed-eq r index chunk tx e =
    ap
      (λ (o : Option Chunk). elim o as (λ _. Bool × Ringbuf) [
        | none ↦ (false, tx)
        | some chunk ↦
            queue_chunk_bytes chunk.raw_body_len chunk.compressed_len (chunk_bytes r.arena chunk) tx
      ])
      e

All-at :
    (assets : List Asset) (index : ℕ) (asset : Asset)
    → All IsWhole assets
    → at assets index ≡ some asset
    → IsWhole asset
All-at [] index asset h e = absurd (none-ne-some asset e)
All-at (first ∷ assets) zero asset h e = subst IsWhole (some-injective first asset e) h.0
All-at (first ∷ assets) (suc index) asset h e = All-at assets index asset h.1 e

Same-WholeFrame :
    (arena : List ℕ) (asset : Asset) (chunk : Chunk) (tx : Ringbuf)
    → IsWhole asset
    → Same arena asset chunk
    → IsValid tx
    → WholeFrame asset.raw_body_len
        (asset_bytes asset)
        tx
        (queue_chunk_bytes chunk.raw_body_len chunk.compressed_len (chunk_bytes arena chunk) tx)
Same-WholeFrame arena asset chunk tx whole same v =
    rw (same.bytes, same.raw_body_len, same.compressed_len)
      (queue_chunk_bytes-WholeFrame asset.raw_body_len asset.compressed_len (asset_bytes asset) tx
        same.valid (sym (length-asset_bytes asset whole)) v)

-- Where the initialisation succeeds, on an arena of less than 2^32 bytes and with assets as long
-- as they say: queueing the chunk of an asset on a valid ring queues the frame with its bytes and
-- the length they have uncompressed, where the ring has room for it; elsewhere the call fails and
-- leaves the ring as it was.
pub queue_compressed-WholeFrame :
    (assets : List Asset) (total_bytes : ℕ) (arena : List ℕ) (index : ℕ) (asset : Asset)
    (tx : Ringbuf)
    → length arena < 2 ^ 32
    → All IsWhole assets
    → (compressed_init assets total_bytes arena).0 ≡ true
    → at assets index ≡ some asset
    → IsValid tx
    → WholeFrame asset.raw_body_len
        (asset_bytes asset)
        tx
        (queue_compressed_spawn_chunk (compressed_init assets total_bytes arena).1 index tx)
queue_compressed-WholeFrame assets total_bytes arena index asset tx small h ok e v =
    let r = (compressed_init assets total_bytes arena).1 in
    let (chunk, f, bound, same) =
      Same-at r.arena assets r.chunks index asset
        (compressed_init_lem assets total_bytes arena small h ok) e in
    let found =
      compressed_chunk-eq r index (compressed_init_ready assets total_bytes arena ok) bound ∙ f in
    rw (queue_compressed-eq r index chunk tx found)
      (Same-WholeFrame r.arena asset chunk tx (All-at assets index asset h e) same v)
