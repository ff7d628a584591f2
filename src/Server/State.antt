-- ===== src/Server/State.antt =====
-- core/src/mc_server.c and core/include/mc_server.h: the state of the server, its resets, and the
-- results of commands.
use starrysky_mc_server.Commands.Handle.{
  Position, Weather, clear, Context, Outcome, chat_only, teleport, set_time, set_weather, Result,
  default_position, default_time, command_text_cap,
}
use starrysky_mc_server.Config.{compression_threshold_default}
use starrysky_mc_server.Prelude.{
  ℕ, ◌+◌, ◌*◌, Bool, true, false, Option, none, some, List, [], ◌∷◌, ◌++◌, if◌then◌else◌,
}
use starrysky_mc_server.Ringbuf.{Ringbuf}
use starrysky_mc_server.Server.Json.{chat_body}
use starrysky_mc_server.Server.Packets.{position_body, time_body, weather_bodies}
use starrysky_mc_server.Server.Queue.{queue_packet_batch}

pub data ConnState : Type 0 where
  handshake status login play : ConnState

-- `mc_server_t` without the sink of the trace. `username` is a C string, `rx_accum` is
-- `rx_accum[0 .. rx_accum_len)`, and `position` holds `player_x` to `player_pitch`.
pub record Server : Type 0 where
  pub state : ConnState
  pub compression_enabled : Bool
  pub compression_threshold : ℕ
  pub username : List ℕ
  pub ticks : ℕ
  pub last_keepalive_tick : ℕ
  pub keepalive_id : ℕ
  pub keepalive_pending : Bool
  pub position : Position
  pub on_ground : ℕ
  pub world_time : ℕ
  pub weather : Weather
  pub bootstrap_sent : Bool
  pub rx_accum : List ℕ
  pub bootstrap_stage : ℕ
  pub chunk_index : ℕ
  pub tx_reset_requested : Bool

unfoldable pub reset_play_runtime_state : Server → Server
reset_play_runtime_state s = record s {
  last_keepalive_tick = 0;
  keepalive_id = 0;
  keepalive_pending = false;
  position = default_position;
  on_ground = 0;
  world_time = default_time;
  weather = clear;
}

-- `memset` of the whole state to zero, and the fields that are set after it.
unfoldable pub server_init : Server
unfolding reset_play_runtime_state
server_init = reset_play_runtime_state (record {
  state = handshake;
  compression_enabled = false;
  compression_threshold = compression_threshold_default;
  username = [];
  ticks = 0;
  last_keepalive_tick = 0;
  keepalive_id = 0;
  keepalive_pending = false;
  position = record { x = 0; y = 0; z = 0; yaw = 0; pitch = 0 };
  on_ground = 0;
  world_time = 0;
  weather = clear;
  bootstrap_sent = false;
  rx_accum = [];
  bootstrap_stage = 0;
  chunk_index = 0;
  tx_reset_requested = false;
})

unfoldable pub reset_logical_session : Server → Server
unfolding reset_play_runtime_state
reset_logical_session s = reset_play_runtime_state (record s {
  username = [];
  state = handshake;
  compression_enabled = false;
  compression_threshold = compression_threshold_default;
  bootstrap_sent = false;
  bootstrap_stage = 0;
  chunk_index = 0;
  tx_reset_requested = true;
})

-- The request, and the state in which it is taken.
unfoldable pub take_tx_reset : Server → Bool × Server
take_tx_reset s = (s.tx_reset_requested, record s { tx_reset_requested = false })

unfoldable pub build_command_context : Server → Context
build_command_context s = record {
  position = s.position;
  time_of_day = s.world_time;
  weather = s.weather;
}

-- The packets of an action, before the chat line.
unfoldable pub action_bodies : Outcome → Option (List (List ℕ))
unfolding position_body time_body weather_bodies
action_bodies chat_only = some []
action_bodies (teleport p) = elim (position_body 64 p) [
  | none ↦ none
  | some body ↦ some (body ∷ [])
]
action_bodies (set_time ticks) = elim (time_body 64 ticks) [
  | none ↦ none
  | some body ↦ some (body ∷ [])
]
action_bodies (set_weather weather) = weather_bodies weather

-- What is kept of an action whose packets were queued.
unfoldable pub apply_action : Outcome → Server → Server
apply_action chat_only s = s
apply_action (teleport p) s = record s { position = p }
apply_action (set_time ticks) s = record s { world_time = ticks }
apply_action (set_weather weather) s = record s { weather = weather }

-- The packets are queued together, the action first.
unfoldable pub queue_result :
    Outcome → Option (List (List ℕ)) → Option (List ℕ) → Server → Ringbuf → Bool × Server × Ringbuf
unfolding apply_action
queue_result outcome (some bodies) (some chat) s tx =
    let (ok, tx') = queue_packet_batch s.compression_enabled (bodies ++ (chat ∷ [])) tx in
    (ok, (if ok then apply_action outcome s else s), tx')
queue_result outcome _ _ s tx = (false, s, tx)

unfoldable pub execute_command_result : Result → Server → Ringbuf → Bool × Server × Ringbuf
unfolding queue_result action_bodies chat_body
execute_command_result result =
    queue_result result.outcome (action_bodies result.outcome)
      (chat_body (command_text_cap * 6 + 32) result.chat)
