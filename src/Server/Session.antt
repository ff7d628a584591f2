-- ===== src/Server/Session.antt =====
-- core/src/mc_server.c: what holds of the server between calls, and the moves of its connection.
pub mod Commands
pub mod Joining
pub mod Packets
pub mod Frames
pub mod Receiving
pub mod Stages
pub mod Keepalive
pub mod Ticking
pub mod Finishing
pub mod Runs
pub mod Outgoing
pub mod Stepping
pub mod Sending
pub mod Advancing
pub mod Following
use starrysky_mc_server.Config.{int32_max}
use starrysky_mc_server.Prelude.{ℕ, ◌≤◌, ◌<◌, ◌≡◌, ◌≢◌, refl, Bool, true, false, List, [], length}
use starrysky_mc_server.Server.State.{ConnState, handshake, status, login, play, Server}

-- A client that plays has a name of one to sixteen bytes; any other has none, and nothing of the
-- world has been sent to it.
abbrev pub HasName : ConnState → Server → Type 0
HasName play s = (0 < length s.username) × (length s.username ≤ 16)
HasName _ s =
    (s.username ≡ [])
    × (s.bootstrap_sent ≡ false)
    × (s.bootstrap_stage ≡ 0)
    × (s.chunk_index ≡ 0)
    × (s.keepalive_pending ≡ false)

-- The world is sent exactly when all stages are done.
abbrev pub Sent : Bool → ℕ → Type 0
Sent true stage = stage ≡ 7
Sent false stage = stage < 7

pub record IsSession (s : Server) : Type 0 where
  pub name : HasName s.state s
  pub sent : Sent s.bootstrap_sent s.bootstrap_stage
  pub time : s.world_time ≤ 24000
  pub id : s.keepalive_id ≤ int32_max

-- The moves of the connection: a client that plays goes on playing, and only one in login joins.
pub data Moves : ConnState → ConnState → Type 0 where
  stays : (c : ConnState) → Moves c c
  restarts : (c d : ConnState) → c ≢ play → d ≢ play → Moves c d
  joins : Moves login play

-- What handling a packet may have done.
pub record Handled (s : Server) (r : Bool × Server) : Type 0 where
  pub session : IsSession r.1
  pub moves : Moves s.state r.1.state
  pub same_input : r.1.rx_accum ≡ s.rx_accum
