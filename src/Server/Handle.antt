-- ===== src/Server/Handle.antt =====
-- core/src/mc_server.c: what a packet does in each state of the connection.
use starrysky_mc_server.Prelude.{
  ℕ, ◌+◌, Bool, true, false, not, ◌&&◌, ◌||◌, Option, none, some, List, [], ◌∷◌, length, take, drop,
  leb, ltb, ◌==◌, if◌then◌else◌,
}
use starrysky_mc_server.Packet.Frame.{frame_len, compressed_plain_frame_len}
use starrysky_mc_server.Ringbuf
use starrysky_mc_server.Ringbuf.{Ringbuf, add_size}
use starrysky_mc_server.Server.Body.{read_varint_body, read_string_body}
use starrysky_mc_server.Server.Packets.{
  status_response_body, pong_body, login_success_body, set_compression_body,
}
use starrysky_mc_server.Server.Play.{
  handle_keepalive_ack, handle_chat_message, handle_play_movement,
}
use starrysky_mc_server.Server.Queue.{queue_packet, queue_packet_compressed_plain}
use starrysky_mc_server.Server.State.{
  ConnState, handshake, status, login, play, Server, reset_logical_session,
}

-- The C string in an array: its bytes before the first zero.
unfoldable pub c_string : List ℕ → List ℕ
c_string [] = []
c_string (b ∷ bytes) = if b == 0 then [] else b ∷ c_string bytes

pub data HandshakeResult : Type 0 where
  no_match accepted invalid : HandshakeResult

-- The fields of a handshake packet up to `next_state`, which has to end the body; `none` is invalid.
unfoldable pub read_next_state : List ℕ → ℕ → Option ℕ
read_next_state body pos = elim (read_varint_body body pos) [
  | none ↦ none
  | some (proto, pos) ↦ elim (read_string_body 256 body pos) [
    | none ↦ none
    | some (host, pos) ↦
        if ltb (length body) (add_size pos 2)
        then none
        else elim (read_varint_body body (add_size pos 2)) [
          | none ↦ none
          | some (next_state, pos) ↦ if not (pos == length body) then none else some next_state
        ]
  ]
]

-- The session begins anew also where `next_state` is neither 1 nor 2.
unfoldable pub enter_next_state : Option ℕ → Server → HandshakeResult × Server
enter_next_state none s = (invalid, s)
enter_next_state (some next_state) s =
    let fresh = reset_logical_session s in
    if next_state == 1
    then (accepted, record fresh { state = status })
    else if next_state == 2
    then (accepted, record fresh { state = login })
    else (invalid, fresh)

unfoldable pub try_handle_handshake : List ℕ → Server → HandshakeResult × Server
unfolding read_next_state enter_next_state
try_handle_handshake body s = elim (read_varint_body body 0) [
  | none ↦ (invalid, s)
  | some (packet_id, pos) ↦
      if not (packet_id == 0) then (no_match, s) else enter_next_state (read_next_state body pos) s
]

-- A packet whose body was built, or not.
unfoldable pub queue_built : Option (List ℕ) → Ringbuf → Bool × Ringbuf
queue_built none tx = (false, tx)
queue_built (some body) tx = queue_packet body tx

-- The login with compression; `compression_enabled` stays set when only the second packet fails.
unfoldable pub login_compressed :
    Option (List ℕ) → Option (List ℕ) → Server → Ringbuf → Bool × Server × Ringbuf
login_compressed (some compression) (some success) s tx =
    let needed =
      add_size (frame_len (length compression)) (compressed_plain_frame_len (length success)) in
    if needed == 0 || ltb (Ringbuf.free tx) needed
    then (false, s, tx)
    else let (first, tx1) = queue_packet compression tx in
      let s1 = record s { compression_enabled = true } in
      let (second, tx2) = queue_packet_compressed_plain success tx1 in
      if first then (second, s1, tx2) else (false, s, tx1)
login_compressed _ _ s tx = (false, s, tx)

unfoldable pub login_plain : Option (List ℕ) → Server → Ringbuf → Bool × Server × Ringbuf
unfolding queue_built
login_plain success s tx = let (ok, tx') = queue_built success tx in (ok, s, tx')

unfoldable pub handle_status : ℕ → List ℕ → ℕ → Server → Ringbuf → Bool × Server × Ringbuf
unfolding queue_built
handle_status packet_id body pos s tx =
    let (ok, tx') =
      if packet_id == 0
      then queue_built status_response_body tx
      else if (packet_id == 1) && leb (pos + 8) (length body)
      then queue_built (pong_body (take 8 (drop pos body))) tx
      else (true, tx) in
    (ok, s, tx')

unfoldable pub handle_play : ℕ → List ℕ → ℕ → Server → Ringbuf → Bool × Server × Ringbuf
handle_play packet_id body pos s tx =
    if packet_id == 0
    then (let (ok, s') = handle_keepalive_ack body pos s in (ok, s', tx))
    else if packet_id == 1
    then handle_chat_message body pos s tx
    else if (packet_id == 3) || (packet_id == 4) || (packet_id == 5) || (packet_id == 6)
    then (let (ok, s') = handle_play_movement packet_id body pos s in (ok, s', tx))
    else (true, s, tx)

-- `compression` is `MC_PROTOCOL_COMPRESSION_ENABLE` of the build.
module _ (compression : Bool) where
  unfoldable pub login_as : List ℕ → Server → Ringbuf → Bool × Server × Ringbuf
  unfolding login_compressed login_plain
  login_as username s tx =
      let success = login_success_body username in
      let (ok, s', tx') =
        if compression
        then login_compressed (set_compression_body s.compression_threshold) success s tx
        else login_plain success s tx in
      (ok, (if ok then record s' { username = username; state = play } else s'), tx')

  unfoldable pub handle_login : List ℕ → ℕ → Server → Ringbuf → Bool × Server × Ringbuf
  unfolding login_as c_string
  handle_login body pos s tx = elim (read_string_body 17 body pos) [
    | none ↦ (false, s, tx)
    | some (bytes, pos') ↦
        if length (c_string bytes) == 0 then (false, s, tx) else login_as (c_string bytes) s tx
  ]

  -- The tests on the state after the handshakes.
  unfoldable pub handle_in_state :
      ConnState → ℕ → List ℕ → ℕ → Server → Ringbuf → Bool × Server × Ringbuf
  unfolding handle_status handle_login handle_play
  handle_in_state handshake packet_id body pos s tx = (true, s, tx)
  handle_in_state status packet_id body pos s tx = handle_status packet_id body pos s tx
  handle_in_state login packet_id body pos s tx =
      if packet_id == 0 then handle_login body pos s tx else (true, s, tx)
  handle_in_state play packet_id body pos s tx = handle_play packet_id body pos s tx

  -- What follows a handshake that was not accepted, in the state it leaves.
  unfoldable pub after_handshake :
      ConnState → List ℕ → ℕ → Server → Ringbuf → Bool × Server × Ringbuf
  unfolding handle_in_state
  after_handshake status body pos s tx = handle_in_state status 0 body pos s tx
  after_handshake login body pos s tx = handle_in_state login 0 body pos s tx
  after_handshake _ body pos s tx = (false, s, tx)

  -- A packet with id 0 of a client that does not play is tried as a handshake first.
  unfoldable pub handle_zero :
      HandshakeResult × Server → List ℕ → ℕ → Ringbuf → Bool × Server × Ringbuf
  unfolding after_handshake
  handle_zero (accepted, s) body pos tx = (true, s, Ringbuf.drop tx tx.len)
  handle_zero (invalid, s) body pos tx = after_handshake s.state body pos s tx
  handle_zero (no_match, s) body pos tx = after_handshake s.state body pos s tx

  unfoldable pub by_packet_id :
      ConnState → ℕ → List ℕ → ℕ → Server → Ringbuf → Bool × Server × Ringbuf
  unfolding handle_zero handle_in_state try_handle_handshake
  by_packet_id play packet_id body pos s tx = handle_in_state play packet_id body pos s tx
  by_packet_id state packet_id body pos s tx =
      if packet_id == 0
      then handle_zero (try_handle_handshake body s) body pos tx
      else handle_in_state state packet_id body pos s tx

  unfoldable pub handle_packet : List ℕ → Server → Ringbuf → Bool × Server × Ringbuf
  unfolding by_packet_id
  handle_packet body s tx = elim (read_varint_body body 0) [
    | none ↦ (false, s, tx)
    | some (packet_id, pos) ↦ by_packet_id s.state packet_id body pos s tx
  ]
