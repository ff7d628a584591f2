-- ===== src/Server/Packets.antt =====
-- core/src/mc_server.c: the bodies of the packets that the server sends, built in local buffers.
pub mod Built
use starrysky_mc_server.Commands.Handle.{Position, Weather, clear, rain, thunder}
use starrysky_mc_server.Config.{is_negative}
use starrysky_mc_server.Packet.Writer.{
  Writer, writer_init, write_u8, write_i8, write_i32, write_i64, write_f32, write_f64, write_bool,
  write_bytes, write_varint, write_string,
}
use starrysky_mc_server.Prelude.{
  ℕ, ◌+◌, Bool, true, false, Option, none, some, List, [], ◌∷◌, take, replicate, if◌then◌else◌,
  codes, Act, ◌>>◌,
}

-- A local buffer of `cap` bytes, a chain of writes, and `body[0 .. w.len)`.
unfoldable pub build : ℕ → Act Writer → Option (List ℕ)
build cap write =
    let (ok, w) = write (writer_init (replicate cap 0) cap) in
    if ok then some (take w.len w.buf) else none

abbrev pub status_json : List ℕ
status_json =
    codes
      "{\"version\":{\"name\":\"1.8.x\",\"protocol\":47},\"players\":{\"max\":1,\"online\":0},\"description\":{\"text\":\"MC UART\"}}"

unfoldable pub status_response_body : Option (List ℕ)
unfolding build
status_response_body = build 512 (write_varint 0x00 >> write_string status_json)

unfoldable pub pong_body : List ℕ → Option (List ℕ)
unfolding build
pong_body payload = build 16 (write_varint 0x01 >> write_bytes payload)

abbrev pub player_uuid : List ℕ
player_uuid = codes "00000000-0000-0000-0000-000000000001"

unfoldable pub login_success_body : List ℕ → Option (List ℕ)
unfolding build
login_success_body username =
    build 128 (write_varint 0x02 >> write_string player_uuid >> write_string username)

unfoldable pub set_compression_body : ℕ → Option (List ℕ)
unfolding build
set_compression_body threshold = build 16 (write_varint 0x03 >> write_varint threshold)

unfoldable pub join_game_body : Option (List ℕ)
unfolding build
join_game_body = build 128 (
    write_varint 0x01
    >> write_i32 1
    >> write_u8 1
    >> write_i8 0
    >> write_u8 0
    >> write_u8 1
    >> write_string (codes "flat")
    >> write_bool false)

unfoldable pub spawn_position_body : Option (List ℕ)
unfolding build
spawn_position_body = build 32 (write_varint 0x05 >> write_i64 0)

-- An `int32_t` as an `int64_t`.
unfoldable pub sign_extend : ℕ → ℕ
sign_extend v = if is_negative v then v + 18446744069414584320 else v

unfoldable pub time_body : ℕ → ℕ → Option (List ℕ)
unfolding build sign_extend
time_body body_cap time_of_day =
    build body_cap (write_varint 0x03 >> write_i64 0 >> write_i64 (sign_extend time_of_day))

-- 20.0f and 5.0f.
unfoldable pub health_body : Option (List ℕ)
unfolding build
health_body =
    build 32 (write_varint 0x06 >> write_f32 0x41a00000 >> write_varint 20 >> write_f32 0x40a00000)

-- 0.05f and 0.10f.
unfoldable pub abilities_body : Option (List ℕ)
unfolding build
abilities_body =
    build 32 (write_varint 0x39 >> write_u8 0x0f >> write_f32 0x3d4ccccd >> write_f32 0x3dcccccd)

unfoldable pub position_body : ℕ → Position → Option (List ℕ)
unfolding build
position_body body_cap p = build body_cap (
    write_varint 0x08
    >> write_f64 p.x
    >> write_f64 p.y
    >> write_f64 p.z
    >> write_f32 p.yaw
    >> write_f32 p.pitch
    >> write_i8 0)

unfoldable pub game_state_body : ℕ → ℕ → Option (List ℕ)
unfolding build
game_state_body reason value = build 16 (write_varint 0x2b >> write_u8 reason >> write_f32 value)

-- `reasons[i]` with `values[i]`; 0x3f800000 is 1.0f.
unfoldable pub weather_game_state_values : Weather → List (ℕ × ℕ)
weather_game_state_values clear = (1, 0) ∷ (7, 0) ∷ (8, 0) ∷ []
weather_game_state_values rain = (2, 0) ∷ (7, 0x3f800000) ∷ (8, 0) ∷ []
weather_game_state_values thunder = (2, 0) ∷ (7, 0x3f800000) ∷ (8, 0x3f800000) ∷ []

-- The loop over the three packets of a weather.
unfoldable pub game_state_bodies : List (ℕ × ℕ) → Option (List (List ℕ))
unfolding game_state_body
game_state_bodies [] = some []
game_state_bodies ((reason, value) ∷ rest) = elim (game_state_body reason value) [
  | none ↦ none
  | some body ↦ elim (game_state_bodies rest) [ none ↦ none | some bodies ↦ some (body ∷ bodies) ]
]

unfoldable pub weather_bodies : Weather → Option (List (List ℕ))
unfolding game_state_bodies weather_game_state_values
weather_bodies weather = game_state_bodies (weather_game_state_values weather)

unfoldable pub keepalive_body : ℕ → Option (List ℕ)
unfolding build
keepalive_body keepalive_id = build 16 (write_varint 0x00 >> write_varint keepalive_id)
