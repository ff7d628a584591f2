-- ===== src/Server/Queue.antt =====
-- core/src/mc_server.c: packets are queued for the player, alone and in batches.
pub mod Single
pub mod Batch
use starrysky_mc_server.Prelude.{
  ℕ, ◌+◌, ◌-◌, List, [], ◌∷◌, Bool, true, false, ◌||◌, Option, none, some, length, ltb, ◌==◌,
  if◌then◌else◌, Act, ◌>>◌,
}
use starrysky_mc_server.Config.{max_packet_body, int32_max}
use starrysky_mc_server.Varint.{encode}
use starrysky_mc_server.Ringbuf
use starrysky_mc_server.Ringbuf.{Ringbuf, add_size}
use starrysky_mc_server.Packet.Frame.{frame_len, compressed_plain_frame_len}

-- `mc_ringbuf_write(tx, bytes, n) == n`.
unfoldable pub write_all : List ℕ → Act Ringbuf
write_all bytes tx = let (n, tx') = Ringbuf.write tx bytes in (n == length bytes, tx')

unfoldable pub queue_packet : List ℕ → Act Ringbuf
queue_packet body tx =
    let free_len = Ringbuf.free tx in
    let prefix = encode (length body) 5 in
    let prefix_len = length prefix in
    if ltb max_packet_body (length body)
    then (false, tx)
    else if prefix_len == 0
        || (ltb free_len prefix_len || ltb (free_len - prefix_len) (length body))
    then (false, tx)
    else (write_all prefix >> write_all body) tx

unfoldable pub queue_packet_compressed_plain : List ℕ → Act Ringbuf
queue_packet_compressed_plain body tx =
    let inner_len = add_size 1 (length body) in
    let prefix = encode inner_len 5 in
    let prefix_len = length prefix in
    if ltb max_packet_body (length body) || ltb int32_max inner_len
    then (false, tx)
    else if prefix_len == 0 || ltb (Ringbuf.free tx) (add_size prefix_len inner_len)
    then (false, tx)
    else (write_all prefix >> (write_all (0 ∷ []) >> write_all body)) tx

-- The first argument is `server->compression_enabled`, which stays false in a build without
-- compression.
unfoldable pub queue_packet_auto : Bool → List ℕ → Act Ringbuf
queue_packet_auto compression_enabled body =
    if compression_enabled then queue_packet_compressed_plain body else queue_packet body

unfoldable pub packet_auto_frame_len : Bool → ℕ → ℕ
packet_auto_frame_len compression_enabled body_len =
    if compression_enabled then compressed_plain_frame_len body_len else frame_len body_len

-- `add_packet_auto_frame_len`: the new `*needed`, or `none` for a return of 0.
unfoldable pub add_packet_auto_frame_len : Bool → ℕ → ℕ → Option ℕ
add_packet_auto_frame_len compression_enabled body_len needed =
    let len = packet_auto_frame_len compression_enabled body_len in
    if len == 0 || ltb (4294967295 - needed) len then none else some (add_size needed len)

-- `tx_checkpoint_t`.
pub record Checkpoint : Type 0 where
  pub head : ℕ
  pub tail : ℕ
  pub len : ℕ

unfoldable pub checkpoint_save : Ringbuf → Checkpoint
checkpoint_save tx = record { head = tx.head; tail = tx.tail; len = tx.len }

unfoldable pub checkpoint_restore : Ringbuf → Checkpoint → Ringbuf
checkpoint_restore tx checkpoint = record tx {
  head = checkpoint.head;
  tail = checkpoint.tail;
  len = checkpoint.len;
}

-- The first loop of `queue_packet_batch`.
unfoldable pub needed_loop : Bool → List (List ℕ) → ℕ → Option ℕ
needed_loop compression_enabled [] needed = some needed
needed_loop compression_enabled (body ∷ packets) needed =
    elim (add_packet_auto_frame_len compression_enabled (length body) needed) [
      | none ↦ none
      | some needed' ↦ needed_loop compression_enabled packets needed'
    ]

-- Its second loop.
unfoldable pub queue_loop : Bool → List (List ℕ) → Checkpoint → Act Ringbuf
queue_loop compression_enabled [] checkpoint tx = (true, tx)
queue_loop compression_enabled (body ∷ packets) checkpoint tx =
    let (done, tx') = queue_packet_auto compression_enabled body tx in
    let rest = queue_loop compression_enabled packets checkpoint tx' in
    if done then rest else (false, checkpoint_restore tx' checkpoint)

unfoldable pub queue_packet_batch : Bool → List (List ℕ) → Act Ringbuf
queue_packet_batch compression_enabled packets tx =
    elim (needed_loop compression_enabled packets 0) [
      | none ↦ (false, tx)
      | some needed ↦
          if ltb (Ringbuf.free tx) needed
          then (false, tx)
          else queue_loop compression_enabled packets (checkpoint_save tx) tx
    ]
