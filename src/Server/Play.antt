-- ===== src/Server/Play.antt =====
-- core/src/mc_server.c: what a playing client sends, and the keepalive.
use starrysky_mc_server.Commands.Handle.{Position, handle_chat, command_text_cap}
use starrysky_mc_server.Config.{int32_max, keepalive_interval_ticks, is_negative}
use starrysky_mc_server.Prelude.{
  ℕ, ◌+◌, ◌-◌, ◌%◌, Bool, true, false, not, ◌&&◌, ◌||◌, Option, none, some, List, length, leb, ltb,
  ◌==◌, if◌then◌else◌, u32_mod,
}
use starrysky_mc_server.Ringbuf.{Ringbuf}
use starrysky_mc_server.Server.Body.{
  read_varint_body, read_chat_body, read_bool_body, read_f32_body, read_f64_body,
}
use starrysky_mc_server.Server.Packets.{keepalive_body}
use starrysky_mc_server.Server.Queue.{queue_packet_auto}
use starrysky_mc_server.Server.State.{
  ConnState, play, Server, build_command_context, execute_command_result,
}

-- `if (!read(...)) return 0;`, and what follows with the value and the new position.
infixl 5 ◌>>=◌
abbrev pub ◌>>=◌ : {A B : Type 0} → Option (A × ℕ) → (A → ℕ → Option B) → Option B
none >>= k = none
some (a, pos) >>= k = k a pos

-- `p` and `on_ground` as a movement packet leaves them, with the position where reading ended.
pub record Movement : Type 0 where
  pub position : Position
  pub on_ground : ℕ
  pub end : ℕ

unfoldable pub read_place : List ℕ → Position → ℕ → Option (Position × ℕ)
read_place body p pos = read_f64_body body pos >>= λ x pos. read_f64_body body pos >>= λ y pos.
    read_f64_body body pos >>= λ z pos. some (record p { x = x; y = y; z = z }, pos)

unfoldable pub read_look : List ℕ → Position → ℕ → Option (Position × ℕ)
read_look body p pos = read_f32_body body pos >>= λ yaw pos.
    read_f32_body body pos >>= λ pitch pos. some (record p { yaw = yaw; pitch = pitch }, pos)

unfoldable pub read_ground : List ℕ → Position → ℕ → Option Movement
read_ground body p pos = read_bool_body body pos >>= λ on_ground pos.
    some (record { position = p; on_ground = on_ground; end = pos })

-- The switch on the packet id.
unfoldable pub read_movement : ℕ → List ℕ → Position → ℕ → Option Movement
unfolding read_place read_look read_ground
read_movement packet_id body p pos =
    if packet_id == 0x03
    then read_ground body p pos
    else if packet_id == 0x04
    then (read_place body p pos >>= λ p pos. read_ground body p pos)
    else if packet_id == 0x05
    then (read_look body p pos >>= λ p pos. read_ground body p pos)
    else if packet_id == 0x06
    then (read_place body p pos >>= λ p pos.
        read_look body p pos >>= λ p pos. read_ground body p pos)
    else none

unfoldable pub handle_play_movement : ℕ → List ℕ → ℕ → Server → Bool × Server
unfolding read_movement
handle_play_movement packet_id body pos s = elim (read_movement packet_id body s.position pos) [
  | none ↦ (false, s)
  | some m ↦
      if not (m.end == length body)
      then (false, s)
      else (true, record s { position = m.position; on_ground = m.on_ground })
]

-- The client's answer to a keepalive; the id in it is not compared.
unfoldable pub handle_keepalive_ack : List ℕ → ℕ → Server → Bool × Server
handle_keepalive_ack body pos s = elim (read_varint_body body pos) [
  | none ↦ (false, s)
  | some (keepalive_id, pos') ↦
      if not (pos' == length body)
      then (false, s)
      else (true, record s { keepalive_pending = false })
]

unfoldable pub handle_chat_line : List ℕ → Server → Ringbuf → Bool × Server × Ringbuf
handle_chat_line message s tx =
    let (ok, result) = handle_chat s.username message (build_command_context s) in
    if ok then execute_command_result result s tx else (false, s, tx)

unfoldable pub handle_chat_message : List ℕ → ℕ → Server → Ringbuf → Bool × Server × Ringbuf
unfolding handle_chat_line
handle_chat_message body pos s tx = elim (read_chat_body command_text_cap body pos) [
  | none ↦ (false, s, tx)
  | some (message, pos') ↦
      if not (pos' == length body) then (false, s, tx) else handle_chat_line message s tx
]

-- `now_ticks - then_ticks`, in 32 bits.
unfoldable pub elapsed_ticks : ℕ → ℕ → ℕ
elapsed_ticks now_ticks then_ticks = (now_ticks + u32_mod - then_ticks) % u32_mod

abbrev pub is_play : ConnState → Bool
is_play play = true
is_play _ = false

unfoldable pub next_keepalive_id : ℕ → ℕ
next_keepalive_id id = if leb int32_max id && not (is_negative id) then 1 else (id + 1) % u32_mod

unfoldable pub send_keepalive : Option (List ℕ) → ℕ → ℕ → Server → Ringbuf → Bool × Server × Ringbuf
send_keepalive none id now_ticks s tx = (false, s, tx)
send_keepalive (some body) id now_ticks s tx =
    let (ok, tx') = queue_packet_auto s.compression_enabled body tx in
    (
      ok,
      (if ok
          then record s {
            keepalive_id = id;
            keepalive_pending = true;
            last_keepalive_tick = now_ticks;
          }
          else s),
      tx',
    )

unfoldable pub tick_keepalive : ℕ → Server → Ringbuf → Bool × Server × Ringbuf
unfolding elapsed_ticks next_keepalive_id send_keepalive
tick_keepalive now_ticks s tx =
    if not (is_play s.state) || not s.bootstrap_sent
    then (true, s, tx)
    else if not (s.last_keepalive_tick == 0)
        && ltb (elapsed_ticks now_ticks s.last_keepalive_tick) keepalive_interval_ticks
    then (true, s, tx)
    else let id = next_keepalive_id s.keepalive_id in
      send_keepalive (keepalive_body id) id now_ticks s tx
