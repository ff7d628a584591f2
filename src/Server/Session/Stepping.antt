-- ===== src/Server/Session/Stepping.antt =====
-- core/src/mc_server.c: with the flat chunks and room in the output, a stage queues the packet that is next.
use mathlib.Core.Path.{subst}
use starrysky_mc_server.Packet.Compressed.{length-framed_plain}
use starrysky_mc_server.Packet.Framing.{length-framed}
use starrysky_mc_server.Packet.Writer.{
  writer_init, has_space, write_raw, write_u8, write_i8, write_i32, write_shifts, write_i64,
  write_f32, write_f64, write_bool, write_bytes, write_varint, write_string,
}
use starrysky_mc_server.Prelude.{
  ℕ, ◌+◌, ◌-◌, ◌%◌, ◌≤◌, ◌<◌, ◌≡◌, ◌⊎◌, inl, inr, refl, ap, sym, ◌∙◌, Bool, true, false, Option,
  none, some, List, [], ◌∷◌, ◌++◌, length, arith, ltb, ◌==◌, if◌then◌else◌, Bool-cases, ne→==,
  lt→leb,
}
use starrysky_mc_server.Ringbuf.Bounds.{IsValid}
use starrysky_mc_server.Ringbuf.Refine.{contents, Holds-eq}
use starrysky_mc_server.Ringbuf.{Ringbuf}
use starrysky_mc_server.Server.Packets.{
  build, join_game_body, spawn_position_body, time_body, health_body, abilities_body, position_body,
}
use starrysky_mc_server.Server.Queue.Single.{
  IsQueued, frame_of, queue_packet_auto-IsQueued, room_after,
}
use starrysky_mc_server.Server.Queue.{queue_packet_auto}
use starrysky_mc_server.Server.Session.Outgoing.{
  start_packets, length-start_packets, chunks_left, chunks_left-next, to_send, to_send_chunks,
  drop_past, stage_packet, frames_of_one, Emits,
}
use starrysky_mc_server.Server.Session.Stages.{with_stage, after_stage_lem}
use starrysky_mc_server.Server.Spawn.{queue_spawn_chunk_auto, flat_world}
use starrysky_mc_server.Server.State.{Server}
use starrysky_mc_server.Server.Tick.{
  stage_body, queue_body, queue_stage, next_chunk, next_stage, after_stage,
}
use starrysky_mc_server.Varint.RoundTrip.{length-bytes_of}
use starrysky_mc_server.Varint.{encode}
use starrysky_mc_server.World.Body.{packet_at, length-packet_at, spawn_chunk_body_lem}
use starrysky_mc_server.World.Spawn.{queue_spawn_chunk-IsQueued, frame_of-chunk}
use starrysky_mc_server.World.{queue_spawn_chunk}

-- A body was built, of at most `n` bytes.
abbrev IsShort : ℕ → Option (List ℕ) → Type 0
IsShort n none = 1 ≤ 0
IsShort n (some body) = length body ≤ n

if-IsShort :
    (b : Bool) (x y : Option (List ℕ))
    → IsShort 64 x
    → IsShort 64 y
    → IsShort 64 (if b then x else y)
if-IsShort true x y h k = h
if-IsShort false x y h k = k

stage_body-IsShort : (s : Server) → IsShort 64 (stage_body s)
unfolding stage_body join_game_body spawn_position_body time_body health_body abilities_body
    position_body build writer_init has_space write_raw write_u8 write_i8 write_i32 write_shifts
    write_i64 write_f32 write_f64 write_bool write_bytes write_varint write_string encode
stage_body-IsShort s = if-IsShort (s.bootstrap_stage == 0) join_game_body _ (omega arith) (
    if-IsShort (s.bootstrap_stage == 1) spawn_position_body _ (omega arith) (
      if-IsShort (s.bootstrap_stage == 2) (time_body 32 s.world_time) _ (omega arith) (
        if-IsShort (s.bootstrap_stage == 3) health_body _ (omega arith) (
          if-IsShort (s.bootstrap_stage == 4) abilities_body (position_body 64 s.position)
            (omega arith) (omega arith)))))

length-frame_of :
    (enabled : Bool) (body : List ℕ) → length (frame_of enabled body) ≤ length body + 6
unfolding frame_of
length-frame_of true body =
    omega (arith, length-framed_plain body, length-bytes_of (1 + length body))
length-frame_of false body = omega (arith, length-framed body, length-bytes_of (length body))

-- A stage before the chunks queues the packet that is next.
queue_stage_next :
    (s : Server) (tx : Ringbuf) (body : List ℕ)
    → s.bootstrap_stage < 6
    → stage_body s ≡ some body
    → queue_stage flat_world s tx ≡ queue_packet_auto s.compression_enabled body tx
unfolding queue_stage queue_body
queue_stage_next s tx body h e = rw (ne→== s.bootstrap_stage 6 (λ e. omega arith), e) refl

-- The stage of the chunks queues the chunk that is next.
flat_chunk-IsQueued :
    (enabled : Bool) (index : ℕ) (tx : Ringbuf)
    → index < 9
    → IsValid tx
    → 12570 ≤ tx.cap - tx.len
    → IsQueued (frame_of enabled (packet_at index)) tx (queue_spawn_chunk_auto enabled index tx)
unfolding queue_spawn_chunk_auto queue_body
flat_chunk-IsQueued false index tx h v room =
    subst (λ l. IsQueued l tx (queue_spawn_chunk index tx)) (sym (frame_of-chunk index))
      (queue_spawn_chunk-IsQueued index tx h v (omega arith))
flat_chunk-IsQueued true index tx h v room =
    let n = length-packet_at index in
    let l = length-frame_of true (packet_at index) in
    rw (lt→leb 9 index h, spawn_chunk_body_lem index)
      (queue_packet_auto-IsQueued true (packet_at index) tx v (omega (arith, n))
        (omega (arith, n, l)))

-- What the stages come to: all are done, or a chunk is next and less is left.
abbrev pub Advanced : ℕ → Server → Type 0
Advanced n t =
    ((t.bootstrap_stage ≡ 7) × (t.chunk_index ≡ 9))
    ⊎ ((t.bootstrap_stage ≡ 6) × (t.chunk_index < 9) × (9 - t.chunk_index < n))

pub flat_chunk_next :
    (s : Server)
    → s.bootstrap_stage ≡ 6
    → s.chunk_index < 9
    → Advanced (9 - s.chunk_index) (after_stage flat_world s)
      × ((after_stage flat_world s).chunk_index ≡ s.chunk_index + 1)
unfolding after_stage next_chunk next_stage
flat_chunk_next s e h = elim (Bool-cases (ltb ((s.chunk_index + 1) % 256) 9)) [
  | inl f ↦ rw (e, f) (inr (refl, ground arith, ground arith), omega arith)
  | inr f ↦ rw (e, f) (inl (omega arith, ground arith), omega arith)
]

pub stage_next :
    (s : Server)
    → s.bootstrap_stage < 6
    → ((after_stage flat_world s).bootstrap_stage ≡ s.bootstrap_stage + 1)
      × ((after_stage flat_world s).chunk_index ≡ s.chunk_index)
unfolding after_stage next_stage
stage_next s h = rw (ne→== s.bootstrap_stage 6 (λ e. omega arith)) (omega arith, refl)

queue_stage-chunk :
    (s : Server) (tx : Ringbuf)
    → s.bootstrap_stage ≡ 6
    → queue_stage flat_world s tx ≡ queue_spawn_chunk_auto s.compression_enabled s.chunk_index tx
unfolding queue_stage
queue_stage-chunk s tx e = rw e refl

-- The chunks are what is sent from the sixth stage on.
to_send_later :
    (s : Server) (stage index : ℕ)
    → 6 ≤ stage
    → to_send (with_stage s stage index) ≡ chunks_left (9 - index)
to_send_later s stage index h =
    ap (λ l. l ++ chunks_left (9 - index))
      (drop_past stage (start_packets (with_stage s stage index))
        (omega (arith, length-start_packets (with_stage s stage index))))

chunk_split :
    (s : Server) (stage index : ℕ)
    → s.bootstrap_stage ≡ 6
    → s.chunk_index < 9
    → 6 ≤ stage
    → index ≡ s.chunk_index + 1
    → to_send s ≡ packet_at s.chunk_index ∷ to_send (with_stage s stage index)
chunk_split s stage index e h late same =
    to_send_chunks s e
    ∙ chunks_left-next s.chunk_index h
    ∙ ap (λ i. packet_at s.chunk_index ∷ chunks_left (9 - i)) (sym same)
    ∙ ap (λ l. packet_at s.chunk_index ∷ l) (sym (to_send_later s stage index late))

Advanced-later : (n : ℕ) (t : Server) → Advanced n t → 6 ≤ t.bootstrap_stage
Advanced-later n t (inl (e, f)) = omega arith
Advanced-later n t (inr (e, h, k)) = omega arith

-- A stage leaves the packets, the format and the rest of the state as they are.
emitted :
    (s : Server) (tx : Ringbuf) (body : List ℕ) (stage index : ℕ) (t : Server)
    → t ≡ with_stage s stage index
    → to_send s ≡ body ∷ to_send (with_stage s stage index)
    → IsQueued (frame_of s.compression_enabled body) tx (queue_stage flat_world s tx)
    → Emits (body ∷ []) s tx t (queue_stage flat_world s tx).1
emitted s tx body stage index t e split q = record {
  split = split ∙ ap (λ u. body ∷ to_send u) (sym e);
  held =
      Holds-eq q.holds refl
        (ap (λ l. contents tx ++ l) (sym (frames_of_one s.compression_enabled body)));
  same_format = ap (λ (u : Server). u.compression_enabled) e;
}

-- A stage of the loop, with the room that it leaves.
pub record Stage (used : ℕ) (s : Server) (tx : Ringbuf) : Type 0 where
  pub done : (queue_stage flat_world s tx).0 ≡ true
  pub body : List ℕ
  pub emits : Emits (body ∷ []) s tx (after_stage flat_world s) (queue_stage flat_world s tx).1
  pub room :
      (n : ℕ)
      → used + n ≤ tx.cap - tx.len
      → n ≤ (queue_stage flat_world s tx).1.cap - (queue_stage flat_world s tx).1.len

pub chunk-Stage :
    (s : Server) (tx : Ringbuf)
    → s.bootstrap_stage ≡ 6
    → s.chunk_index < 9
    → IsValid tx
    → 12570 ≤ tx.cap - tx.len
    → Stage 12570 s tx
chunk-Stage s tx e h v room =
    let t = after_stage flat_world s in
    let body = packet_at s.chunk_index in
    let q : IsQueued (frame_of s.compression_enabled body) tx (queue_stage flat_world s tx) =
      subst (λ r. IsQueued (frame_of s.compression_enabled body) tx r)
        (sym (queue_stage-chunk s tx e))
        (flat_chunk-IsQueued s.compression_enabled s.chunk_index tx h v room) in
    let (next, same) = flat_chunk_next s e h in
    let n = length-packet_at s.chunk_index in
    let l = length-frame_of s.compression_enabled body in
    record {
      done = q.done;
      body = body;
      emits =
          emitted s tx body t.bootstrap_stage t.chunk_index t
            (after_stage_lem flat_world s (omega arith)).0
            (chunk_split s t.bootstrap_stage t.chunk_index e h (Advanced-later _ t next) same) q;
      room =
          λ k fits. room_after (frame_of s.compression_enabled body) k tx _ q (omega (arith, n, l));
    }

pub early-Stage :
    (s : Server) (tx : Ringbuf)
    → s.bootstrap_stage < 6
    → IsValid tx
    → 70 ≤ tx.cap - tx.len
    → Stage 70 s tx
unfolding start_packets
early-Stage s tx h v room =
    let t = after_stage flat_world s in
    let (body, e, split) = stage_packet s.bootstrap_stage s refl h in
    let small : length body ≤ 64 = subst (λ o. IsShort 64 o) e (stage_body-IsShort s) in
    let l = length-frame_of s.compression_enabled body in
    let q : IsQueued (frame_of s.compression_enabled body) tx (queue_stage flat_world s tx) =
      subst (λ r. IsQueued (frame_of s.compression_enabled body) tx r)
        (sym (queue_stage_next s tx body h e))
        (queue_packet_auto-IsQueued s.compression_enabled body tx v (omega arith)
          (omega (arith, l))) in
    let (next, same) = stage_next s h in
    record {
      done = q.done;
      body = body;
      emits =
          emitted s tx body t.bootstrap_stage t.chunk_index t
            (after_stage_lem flat_world s (omega arith)).0
            (rw (next, same) (ap (λ l. l ++ chunks_left (9 - s.chunk_index)) split)) q;
      room = λ k fits. room_after (frame_of s.compression_enabled body) k tx _ q (omega (arith, l));
    }
