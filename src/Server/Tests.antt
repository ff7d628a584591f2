-- ===== src/Server/Tests.antt =====
-- mc_server.c at concrete inputs.
use starrysky_mc_server.Prelude.{
  ℕ, Bool, All, IsByte, replicate, take, drop, length-replicate, ◌+◌, ◌<◌, ◌≤◌, ◌≡◌, refl, arith,
  List, [], ◌∷◌, ◌++◌, true, false, some, length,
}
use starrysky_mc_server.Commands.Handle.{clear, default_position}
use starrysky_mc_server.Packet.Frame.{try_read}
use starrysky_mc_server.Ringbuf
use starrysky_mc_server.Server.Handle.{handle_packet}
use starrysky_mc_server.Server.Receive.{receive}
use starrysky_mc_server.Server.Session.Finishing.{HasRoom, SendsAll, run_ticks, run_ticks-sends}
use starrysky_mc_server.Server.Session.Receiving.{Received, receive_ends, receive_plays}
use starrysky_mc_server.Server.Session.Outgoing.{world_packets}
use starrysky_mc_server.Server.Session.Runs.{
  started, then_step, received, ticked, IsSettled, Runs-IsSettled,
}
use starrysky_mc_server.Server.Session.Keepalive.{Ticked}
use starrysky_mc_server.Server.Session.Ticking.{tick_at-Ticked}
use starrysky_mc_server.Server.Session.{IsSession}
use starrysky_mc_server.Server.Spawn.{flat_world}
use starrysky_mc_server.Server.State.{Server, login, play, server_init, reset_logical_session}
use starrysky_mc_server.Server.Tick.{tick_at}
use starrysky_mc_server.Varint.{decode}
use starrysky_mc_server.Varint.RoundTrip.{bytes_of}
use starrysky_mc_server.Ringbuf.{Ringbuf}
use starrysky_mc_server.Ringbuf.Bounds.{IsValid}
use starrysky_mc_server.Packet.Framing.{framed}
use starrysky_mc_server.Packet.Compressed.{framed_compressed}
use starrysky_mc_server.Server.Queue.{queue_packet_batch}
use starrysky_mc_server.Server.Queue.Single.{IsQueued, frame_of}
use starrysky_mc_server.Server.Queue.Batch.{
  frames_of, queue_packet_batch-IsQueued, queue_packet_batch_refused,
}
use starrysky_mc_server.Server.Body.{
  read_varint_body, read_string_body, bytes_have_c0_control, read_chat_body,
}
use starrysky_mc_server.Server.Body.Bounds.{IsPlain, read_chat_body_takes, read_string_body-written}
use starrysky_mc_server.Server.Frames.{ready, judge, classify_loop, classify_frame}
use starrysky_mc_server.Server.Frames.Agreement.{Agrees, classify_frame-Agrees}

-- Eight cells, of which one is taken, close to the end.
abbrev output : Ringbuf
output = record {
  storage = 0 ∷ 0 ∷ 0 ∷ 0 ∷ 0 ∷ 0 ∷ 5 ∷ 0 ∷ [];
  cap = 8;
  head = 7;
  tail = 6;
  len = 1;
}

output-IsValid : IsValid output
output-IsValid = omega arith

abbrev body : List ℕ
body = 1 ∷ 2 ∷ []

abbrev packets : List (List ℕ)
packets = body ∷ (3 ∷ []) ∷ []

one-fits : length (frame_of true body) ≤ 7
unfolding frame_of framed_compressed framed bytes_of
one-fits = omega arith

long-fails : 7 < length (frame_of false (1 ∷ 2 ∷ 3 ∷ 4 ∷ 5 ∷ 6 ∷ 7 ∷ []))
unfolding frame_of framed bytes_of
long-fails = omega arith

two-fit : length (frames_of false packets) ≤ 7
unfolding frames_of frame_of framed bytes_of
two-fit = omega arith

two-fail : 7 < length (frames_of true (body ∷ body ∷ []))
unfolding frames_of frame_of framed_compressed framed bytes_of
two-fail = omega arith

queue_packet_batch-IsQueued_example :
    IsQueued (frames_of false packets) output (queue_packet_batch false packets output)
queue_packet_batch-IsQueued_example =
    queue_packet_batch-IsQueued false packets output output-IsValid (omega arith) two-fit

queue_packet_batch_refused_example :
    queue_packet_batch true (body ∷ body ∷ []) output ≡ (false, output)
queue_packet_batch_refused_example =
    queue_packet_batch_refused true (body ∷ body ∷ []) output output-IsValid (omega arith) two-fail

read_chat_body_takes_example :
    (2 < 256)
    × All IsPlain (72 ∷ 105 ∷ [])
    × (let text : List ℕ = 72 ∷ 105 ∷ [] in text ≡ take 2 (drop 2 (1 ∷ 2 ∷ 72 ∷ 105 ∷ [])))
    × (1 + 2 < 4)
    × (4 ≤ 4)
unfolding read_chat_body read_varint_body decode bytes_have_c0_control
read_chat_body_takes_example =
    read_chat_body_takes 256 1 (1 ∷ 2 ∷ 72 ∷ 105 ∷ []) (72 ∷ 105 ∷ []) 4 (omega arith) (omega arith)
      (omega arith) refl

string-small : length ((0 ∷ []) ++ (bytes_of 2 ++ ((72 ∷ 105 ∷ []) ++ (9 ∷ [])))) < 2147483648
unfolding bytes_of
string-small = omega arith

read_string_body-written_example :
    read_string_body 17 ((0 ∷ []) ++ (bytes_of 2 ++ ((72 ∷ 105 ∷ []) ++ (9 ∷ [])))) 1
    ≡ some (72 ∷ 105 ∷ [], 1 + (length (bytes_of 2) + 2))
read_string_body-written_example =
    read_string_body-written 17 (0 ∷ []) (72 ∷ 105 ∷ []) (9 ∷ []) (omega arith) string-small

classify_run : classify_frame (2 ∷ 7 ∷ 8 ∷ 9 ∷ []) ≡ ready 3
unfolding classify_frame classify_loop judge decode
classify_run = refl

classify_frame-Agrees_example :
    Agrees (2 ∷ 7 ∷ 8 ∷ 9 ∷ []) (1 ∷ []) (classify_frame (2 ∷ 7 ∷ 8 ∷ 9 ∷ []))
classify_frame-Agrees_example = classify_frame-Agrees (2 ∷ 7 ∷ 8 ∷ 9 ∷ []) (1 ∷ []) (omega arith)

-- A handshake for a login, alone in its frame.
abbrev login_handshake : List ℕ
login_handshake = 6 ∷ 0 ∷ 47 ∷ 0 ∷ 0 ∷ 0 ∷ 2 ∷ []

handshake-bytes : All IsByte login_handshake
handshake-bytes = (
  omega arith,
  (omega arith, (omega arith, (omega arith, (omega arith, (omega arith, (omega arith, tt)))))),
)

abbrev login_state : Server
login_state = record {
  state = login;
  compression_enabled = false;
  compression_threshold = 8192;
  username = [];
  ticks = 0;
  last_keepalive_tick = 0;
  keepalive_id = 0;
  keepalive_pending = false;
  position = default_position;
  on_ground = 0;
  world_time = 6000;
  weather = clear;
  bootstrap_sent = false;
  rx_accum = [];
  bootstrap_stage = 0;
  chunk_index = 0;
  tx_reset_requested = true;
}

-- The output behind the handshake, which empties it.
abbrev drained : Ringbuf
drained = record output { tail = 7; len = 0 }

login_run : receive true login_handshake server_init output ≡ some (true, login_state, drained)
unfolding receive server_init classify_frame classify_loop judge decode try_read handle_packet
    read_varint_body read_string_body reset_logical_session Ringbuf.drop
login_run = refl

Runs-IsSettled_example : IsSettled (tick_at flat_world 1 login_state drained).1
Runs-IsSettled_example = Runs-IsSettled true flat_world (
    then_step
      (then_step started (
        received server_init login_handshake output (true, login_state, drained) handshake-bytes
          login_run))
      (ticked login_state 1 drained))

-- A client that has joined, with the first stage of the world to be sent.
abbrev joined : Server
joined = record login_state { state = play; username = 98 ∷ 111 ∷ 98 ∷ [] }

joined-IsSession : IsSession joined
joined-IsSession = record {
  name = (omega arith, omega arith);
  sent = omega arith;
  time = omega arith;
  id = omega arith;
}

receive_ends_example :
    (r : Bool × Server × Ringbuf) × (receive true login_handshake joined output ≡ some r)
    × Received joined r
receive_ends_example =
    receive_ends true login_handshake joined output joined-IsSession tt handshake-bytes
      (omega arith)

receive_plays_example :
    (r : Bool × Server × Ringbuf) × (receive true login_handshake joined output ≡ some r)
    × (r.1.state ≡ play)
receive_plays_example =
    receive_plays true login_handshake joined output joined-IsSession tt handshake-bytes
      (omega arith) refl

tick_at-Ticked_example : Ticked joined (tick_at flat_world 5 joined output).1
tick_at-Ticked_example = tick_at-Ticked flat_world 5 joined output joined-IsSession

-- An output of 16384 bytes, of which none is taken.
abbrev wide : Ringbuf
wide = record { storage = replicate 16384 0; cap = 16384; head = 0; tail = 0; len = 0 }

wide-IsValid : IsValid wide
wide-IsValid = record {
  storage_fits = omega (arith, length-replicate {A = ℕ} 16384 0);
  nonempty = omega arith;
  small = omega arith;
  tail_in = omega arith;
  len_in = omega arith;
  head_at = refl;
}

abbrev ten_ticks : List (ℕ × Ringbuf)
ten_ticks = replicate 10 (7, wide)

ten_ticks-HasRoom : All HasRoom ten_ticks
ten_ticks-HasRoom =
    let room : HasRoom (7, wide) = (wide-IsValid, omega arith) in
    (room, (room, (room, (room, (room, (room, (room, (room, (room, (room, tt))))))))))

run_ticks-sends_example :
    ((run_ticks ten_ticks joined).bootstrap_sent ≡ true)
    × SendsAll ten_ticks joined (world_packets joined)
run_ticks-sends_example =
    run_ticks-sends ten_ticks joined joined-IsSession refl refl refl refl ten_ticks-HasRoom
      (omega arith)
