-- ===== src/Server/Tick.antt =====
-- core/src/mc_server.c: the tick, which sends the world to a client that has logged in.
use starrysky_mc_server.Prelude.{
  ℕ, zero, suc, ◌+◌, ◌-◌, ◌%◌, Bool, true, false, not, ◌&&◌, Option, none, some, List, leb, ltb,
  ◌==◌, if◌then◌else◌, Act, u32_mod,
}
use starrysky_mc_server.Ringbuf.{Ringbuf}
use starrysky_mc_server.Server.Packets.{
  join_game_body, spawn_position_body, time_body, health_body, abilities_body, position_body,
}
use starrysky_mc_server.Server.Play.{is_play, tick_keepalive}
use starrysky_mc_server.Server.Queue.{queue_packet_auto}
use starrysky_mc_server.Server.State.{Server}

-- The stages of the bootstrap.
abbrev pub stage_chunks : ℕ
stage_chunks = 6

abbrev pub stage_done : ℕ
stage_done = 7

-- What the world offers the server; the first argument is `compression_enabled`, and the second of
-- `queue_chunk` is the index of the chunk.
pub record Chunks : Type 0 where
  pub queue_chunk : Bool → ℕ → Act Ringbuf
  pub chunk_count : Bool → ℕ

-- The body that a stage before the chunks sends.
unfoldable pub stage_body : Server → Option (List ℕ)
stage_body s =
    if s.bootstrap_stage == 0
    then join_game_body
    else if s.bootstrap_stage == 1
    then spawn_position_body
    else if s.bootstrap_stage == 2
    then time_body 32 s.world_time
    else if s.bootstrap_stage == 3
    then health_body
    else if s.bootstrap_stage == 4
    then abilities_body
    else position_body 64 s.position

unfoldable pub queue_body : Bool → Option (List ℕ) → Act Ringbuf
queue_body compression_enabled none tx = (false, tx)
queue_body compression_enabled (some body) tx = queue_packet_auto compression_enabled body tx

-- `play_bootstrap_stage` and `play_bootstrap_chunk_index` are bytes.
unfoldable pub next_stage : Server → Server
next_stage s = record s { bootstrap_stage = (s.bootstrap_stage + 1) % 256 }

-- After a chunk was queued; the stage ends with the last one.
unfoldable pub next_chunk : ℕ → Server → Server
unfolding next_stage
next_chunk chunk_count s =
    let s' = record s { chunk_index = (s.chunk_index + 1) % 256 } in
    if ltb s'.chunk_index chunk_count then s' else next_stage s'

module _ (chunks : Chunks) where
  unfoldable pub queue_stage : Server → Act Ringbuf
  unfolding queue_body stage_body
  queue_stage s =
      if s.bootstrap_stage == stage_chunks
      then chunks.queue_chunk s.compression_enabled s.chunk_index
      else queue_body s.compression_enabled (stage_body s)

  unfoldable pub after_stage : Server → Server
  unfolding next_stage next_chunk
  after_stage s =
      if s.bootstrap_stage == stage_chunks
      then next_chunk (chunks.chunk_count s.compression_enabled) s
      else next_stage s

  -- The `while`, with a round for each stage that is left; it stops before a chunk.
  unfoldable pub stages_loop : ℕ → Server → Ringbuf → Bool × Server × Ringbuf
  unfolding queue_stage after_stage
  stages_loop zero s tx = (true, s, tx)
  stages_loop (suc left) s tx =
      let (queued, tx') = queue_stage s tx in
      let s' = after_stage s in
      elim queued [
        | false ↦ (false, s, tx')
        | true ↦ elim (s'.bootstrap_stage == stage_chunks) [
          | true ↦ (true, s', tx')
          | false ↦ stages_loop left s' tx'
        ]
      ]

  unfoldable pub bootstrap : Server → Ringbuf → Bool × Server × Ringbuf
  unfolding stages_loop
  bootstrap s tx =
      let (ok, s', tx') = stages_loop (stage_done - s.bootstrap_stage) s tx in
      if ok && leb stage_done s'.bootstrap_stage
      then (true, record s' { bootstrap_sent = true }, tx')
      else (ok, s', tx')

  -- `if (!queued) return 0;` in the loop skips the keepalive.
  unfoldable pub then_keepalive : ℕ → Bool × Server × Ringbuf → Bool × Server × Ringbuf
  then_keepalive now_ticks (true, s, tx) = tick_keepalive now_ticks s tx
  then_keepalive now_ticks (false, s, tx) = (false, s, tx)

  unfoldable pub tick_at : ℕ → Server → Ringbuf → Bool × Server × Ringbuf
  unfolding then_keepalive bootstrap
  tick_at now_ticks s tx =
      let s1 = record s { ticks = (s.ticks + 1) % u32_mod } in
      if is_play s1.state && not s1.bootstrap_sent
      then then_keepalive now_ticks (bootstrap s1 tx)
      else tick_keepalive now_ticks s1 tx

  unfoldable pub tick : Server → Ringbuf → Bool × Server × Ringbuf
  unfolding tick_at
  tick s tx = tick_at ((s.ticks + 1) % u32_mod) s tx
