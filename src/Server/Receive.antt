-- ===== src/Server/Receive.antt =====
-- core/src/mc_server.c: received bytes are gathered, and whole frames are handled.
use starrysky_mc_server.Config.{max_packet_body, is_negative}
use starrysky_mc_server.Packet.Frame.{get_compressed_body, Packet, try_read}
use starrysky_mc_server.Prelude.{
  ℕ, zero, suc, ◌+◌, Bool, true, false, not, ◌||◌, Option, none, some, List, [], ◌∷◌, ◌++◌, length,
  drop, leb, ltb, ◌==◌, if◌then◌else◌,
}
use starrysky_mc_server.Ringbuf.{Ringbuf}
use starrysky_mc_server.Server.Frames.{need_more, ready, invalid, classify_frame}
use starrysky_mc_server.Server.Handle.{handle_packet}
use starrysky_mc_server.Server.State.{Server}
use starrysky_mc_server.Varint.{decode}

-- `MC_MAX_PACKET_BODY + 8`.
abbrev pub rx_accum_cap : ℕ
rx_accum_cap = 32776

-- The bytes of a packet id, at the end of what has arrived.
unfoldable pub invalid_packet_id : List ℕ → Bool
invalid_packet_id rest = elim (decode rest) [
  | none ↦ leb 5 (length rest)
  | some (packet_id, used) ↦ is_negative packet_id || ltb 0x7f packet_id
]

-- What has arrived of the body.
unfoldable pub invalid_partial_body : Bool → List ℕ → Bool
unfolding invalid_packet_id
invalid_partial_body compressed body =
    if not compressed then invalid_packet_id body else elim (decode body) [
      | none ↦ leb 5 (length body)
      | some (data_len, used) ↦
          if not (data_len == 0)
          then true
          else if leb (length body) used
          then false
          else invalid_packet_id (drop used body)
    ]

-- Every error discards what has been gathered.
unfoldable pub discard : Server → Ringbuf → Bool × Server × Ringbuf
discard s tx = (false, record s { rx_accum = [] }, tx)

-- The body that is handled: the packet's, or the one inside it; `none` is an error.
unfoldable pub body_of : Bool → Packet → Option (List ℕ)
body_of false packet = some packet.body
body_of true packet = elim (get_compressed_body packet.body) [
  | none ↦ none
  | some c ↦ if not (c.data_len == 0) then none else some c.body
]

-- The frame is taken off after it was handled.
unfoldable pub take_frame : ℕ → Bool × Server × Ringbuf → Bool × Server × Ringbuf
unfolding discard
take_frame frame_len (true, s, tx) = (true, record s { rx_accum = drop frame_len s.rx_accum }, tx)
take_frame frame_len (false, s, tx) = discard s tx

-- The loop goes on after a frame that was handled.
unfoldable pub next_frame :
    (Server → Ringbuf → Option (Bool × Server × Ringbuf))
    → Bool × Server × Ringbuf
    → Option (Bool × Server × Ringbuf)
next_frame continue (true, s, tx) = continue s tx
next_frame continue (false, s, tx) = some (false, s, tx)

-- The first loop; it ends early when the array is full.
unfoldable pub gather_bytes : List ℕ → Server → Bool × Server
gather_bytes [] s = (true, s)
gather_bytes (b ∷ bytes) s =
    let rest = gather_bytes bytes (record s { rx_accum = s.rx_accum ++ (b ∷ []) }) in
    if length s.rx_accum == rx_accum_cap then (false, record s { rx_accum = [] }) else rest

-- `compression` is `MC_PROTOCOL_COMPRESSION_ENABLE` of the build.
module _ (compression : Bool) where
  unfoldable pub partial_frame_has_invalid_packet_id : Server → Bool
  unfolding invalid_partial_body
  partial_frame_has_invalid_packet_id s = elim (decode s.rx_accum) [
    | none ↦ false
    | some (body_len, prefix_len) ↦
        if is_negative body_len || ltb max_packet_body body_len
        then true
        else if leb (length s.rx_accum) prefix_len
        then false
        else invalid_partial_body (if compression then s.compression_enabled else false)
            (drop prefix_len s.rx_accum)
  ]

  unfoldable pub handle_body : ℕ → Option (List ℕ) → Server → Ringbuf → Bool × Server × Ringbuf
  unfolding take_frame discard
  handle_body frame_len none s tx = discard s tx
  handle_body frame_len (some body) s tx =
      take_frame frame_len (handle_packet compression body s tx)

  unfoldable pub handle_frame : Server → Ringbuf → Bool × Server × Ringbuf
  unfolding handle_body body_of discard
  handle_frame s tx = elim (try_read s.rx_accum) [
    | none ↦ discard s tx
    | some packet ↦ handle_body packet.frame_len (body_of s.compression_enabled packet) s tx
  ]

  -- The loop over the frames, on fuel.
  unfoldable pub frames_loop : ℕ → Server → Ringbuf → Option (Bool × Server × Ringbuf)
  unfolding handle_frame partial_frame_has_invalid_packet_id discard next_frame
  frames_loop zero s tx = none
  frames_loop (suc fuel) s tx = elim (classify_frame s.rx_accum) [
    | need_more ↦
        some (if partial_frame_has_invalid_packet_id s then discard s tx else (true, s, tx))
    | invalid ↦ some (discard s tx)
    | ready len ↦ next_frame (frames_loop fuel) (handle_frame s tx)
  ]

  -- Each frame takes a byte at least, so a round for each byte and one more are enough.
  unfoldable pub receive : List ℕ → Server → Ringbuf → Option (Bool × Server × Ringbuf)
  unfolding gather_bytes frames_loop
  receive bytes s tx =
      let (ok, s') = gather_bytes bytes s in
      if ok then frames_loop (length s'.rx_accum + 1) s' tx else some (false, s', tx)
