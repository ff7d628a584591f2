-- ===== src/Server/Session/Outgoing.antt =====
-- core/src/mc_server.c: the packets of the world, described apart from the code that builds them.
use starrysky_mc_server.Packet.Writer.{
  writer_init, has_space, write_raw, write_u8, write_i8, write_i32, write_shifts, write_i64,
  write_f32, write_f64, write_bool, write_bytes, write_varint, write_string,
}
use starrysky_mc_server.Packet.Writes.{big_endian, low_byte}
use starrysky_mc_server.Commands.Handle.{Position}
use starrysky_mc_server.Prelude.{
  ℕ, zero, suc, ◌+◌, ◌-◌, ◌≤◌, ◌<◌, ◌≡◌, refl, ap, ap₂, take, sym, ◌∙◌, Bool, some, List, [], ◌∷◌,
  ◌++◌, length, drop, arith, codes, append_assoc, append-nil,
}
use starrysky_mc_server.Ringbuf.Refine.{contents, Holds, Holds-eq}
use starrysky_mc_server.Ringbuf.{Ringbuf}
use starrysky_mc_server.Server.Packets.{
  build, sign_extend, join_game_body, spawn_position_body, time_body, health_body, abilities_body,
  position_body,
}
use starrysky_mc_server.Server.Queue.Batch.{frames_of}
use starrysky_mc_server.Server.Queue.Single.{frame_of}
use starrysky_mc_server.Server.State.{Server}
use starrysky_mc_server.Server.Tick.{stage_body}
use starrysky_mc_server.Varint.{encode}
use starrysky_mc_server.World.Body.{packet_at}

-- The packets before the chunks, byte by byte, with the time of day.
unfoldable start_at : ℕ → Server → List (List ℕ)
start_at world_time s =
    (1 ∷ 0 ∷ 0 ∷ 0 ∷ 1 ∷ 1 ∷ 0 ∷ 0 ∷ 1 ∷ 4 ∷ (codes "flat" ++ (0 ∷ [])))
    ∷ (5 ∷ big_endian 8 0)
    ∷ (3 ∷ (big_endian 8 0 ++ big_endian 8 world_time))
    ∷ (6 ∷ (big_endian 4 0x41a00000 ++ (20 ∷ big_endian 4 0x40a00000)))
    ∷ (0x39 ∷ 0x0f ∷ (big_endian 4 0x3d4ccccd ++ big_endian 4 0x3dcccccd))
    ∷ (8
        ∷ (big_endian 8 s.position.x
            ++ (big_endian 8 s.position.y
                ++ (big_endian 8 s.position.z
                    ++ (big_endian 4 s.position.yaw
                        ++ (big_endian 4 s.position.pitch ++ (0 ∷ [])))))))
    ∷ []

-- The same, with the time as the code writes it.
unfoldable pub start_packets : Server → List (List ℕ)
unfolding start_at
start_packets s = start_at (sign_extend s.world_time) s

-- The packets of the last `left` of the nine chunks.
unfoldable pub chunks_left : ℕ → List (List ℕ)
chunks_left zero = []
chunks_left (suc left) = packet_at (8 - left) ∷ chunks_left left

-- What a client has to be sent.
pub world_packets : Server → List (List ℕ)
world_packets s = start_at s.world_time s ++ chunks_left 9

-- What is still to be sent of it.
abbrev pub to_send : Server → List (List ℕ)
to_send s = drop s.bootstrap_stage (start_packets s) ++ chunks_left (9 - s.chunk_index)

sign_extend-small : (v : ℕ) → v ≤ 24000 → sign_extend v ≡ v
unfolding sign_extend
sign_extend-small v h = ground arith

pub to_send_all :
    (s : Server)
    → s.bootstrap_stage ≡ 0
    → s.chunk_index ≡ 0
    → s.world_time ≤ 24000
    → to_send s ≡ world_packets s
unfolding world_packets start_packets
to_send_all s e f h =
    rw (e, f) (ap (λ time. start_at time s ++ chunks_left 9) (sign_extend-small s.world_time h))

pub to_send_chunks :
    (s : Server) → s.bootstrap_stage ≡ 6 → to_send s ≡ chunks_left (9 - s.chunk_index)
unfolding start_packets
to_send_chunks s e = rw e refl

pub drop_past : (n : ℕ) (xs : List (List ℕ)) → length xs ≤ n → drop n xs ≡ []
drop_past zero [] h = refl
drop_past zero (x ∷ xs) h = absurd (omega arith)
drop_past (suc n) [] h = refl
drop_past (suc n) (x ∷ xs) h = drop_past n xs (omega arith)

pub length-start_packets : (s : Server) → length (start_packets s) ≡ 6
unfolding start_packets
length-start_packets s = refl

pub to_send_nothing : (s : Server) → s.bootstrap_stage ≡ 7 → s.chunk_index ≡ 9 → to_send s ≡ []
unfolding start_packets chunks_left
to_send_nothing s e f = rw (e, f) refl

pub chunks_left-next :
    (index : ℕ)
    → index < 9
    → chunks_left (9 - index) ≡ packet_at index ∷ chunks_left (9 - (index + 1))
unfolding chunks_left
chunks_left-next index h =
    let left : 9 - index ≡ suc (8 - index) = omega arith in
    let this : 8 - (8 - index) ≡ index = omega arith in
    let next : 9 - (index + 1) ≡ 8 - index = omega arith in rw (left, next) (rw this refl)

position_built :
    (p : Position)
    → position_body 64 p
      ≡ some (
          8
          ∷ (big_endian 8 p.x
              ++ (big_endian 8 p.y
                  ++ (big_endian 8 p.z
                      ++ (big_endian 4 p.yaw ++ (big_endian 4 p.pitch ++ (0 ∷ [])))))))
unfolding position_body build writer_init has_space write_raw write_u8 write_i8 write_i32
    write_shifts write_f32 write_f64 write_bytes write_varint encode
position_built p =
    ap₂
      (λ a b. some (
        8
        ∷ (big_endian 8 p.x
            ++ (big_endian 8 p.y
                ++ (big_endian 8 p.z
                    ++ (take 3 (big_endian 4 p.yaw)
                        ++ (a ∷ (take 3 (big_endian 4 p.pitch) ++ (b ∷ 0 ∷ [])))))))))
      (low_byte p.yaw) (low_byte p.pitch)

-- The body of a stage before the chunks is the packet that is next.
pub stage_packet :
    (n : ℕ) (s : Server)
    → s.bootstrap_stage ≡ n
    → n < 6
    → (body : List ℕ) × (stage_body s ≡ some body)
      × (drop n (start_packets s) ≡ body ∷ drop (n + 1) (start_packets s))
unfolding start_packets stage_body join_game_body spawn_position_body time_body health_body
    abilities_body position_body build writer_init has_space write_raw write_u8 write_i8 write_i32
    write_shifts write_i64 write_f32 write_f64 write_bool write_bytes write_varint write_string
    encode
stage_packet zero s e h = (_, rw e refl, refl)
stage_packet (suc zero) s e h = (_, rw e refl, refl)
stage_packet (suc (suc zero)) s e h = (_, rw e refl, refl)
stage_packet (suc (suc (suc zero))) s e h = (_, rw e refl, refl)
stage_packet (suc (suc (suc (suc zero)))) s e h = (_, rw e refl, refl)
stage_packet (suc (suc (suc (suc (suc zero))))) s e h = (_, rw e (position_built s.position), refl)
stage_packet (suc (suc (suc (suc (suc (suc n)))))) s e h = absurd (omega arith)

pub frames_of-append :
    (enabled : Bool) (xs ys : List (List ℕ))
    → frames_of enabled (xs ++ ys) ≡ frames_of enabled xs ++ frames_of enabled ys
unfolding frames_of
frames_of-append enabled [] ys = refl
frames_of-append enabled (x ∷ xs) ys =
    ap (λ l. frame_of enabled x ++ l) (frames_of-append enabled xs ys)
    ∙ sym (append_assoc (frame_of enabled x) (frames_of enabled xs) (frames_of enabled ys))

pub frames_of_one :
    (enabled : Bool) (body : List ℕ) → frames_of enabled (body ∷ []) ≡ frame_of enabled body
unfolding frames_of
frames_of_one enabled body = append-nil (frame_of enabled body)

-- The packets `ps`, which were next, were queued, and the rest is still to be sent.
pub record Emits (ps : List (List ℕ)) (s : Server) (tx : Ringbuf) (t : Server) (out : Ringbuf)
    : Type 0 where
  pub split : to_send s ≡ ps ++ to_send t
  pub held : Holds tx.cap (contents tx ++ frames_of s.compression_enabled ps) out
  pub same_format : t.compression_enabled ≡ s.compression_enabled

pub then-Emits :
    (ps qs : List (List ℕ)) (s t u : Server) (tx mid out : Ringbuf)
    → Emits ps s tx t mid
    → Emits qs t mid u out
    → Emits (ps ++ qs) s tx u out
then-Emits ps qs s t u tx mid out a b = record {
  split = a.split ∙ ap (λ l. ps ++ l) b.split ∙ sym (append_assoc ps qs (to_send u));
  held = Holds-eq b.held a.held.same_cap (
      ap (λ l. l ++ frames_of t.compression_enabled qs) a.held.holds
      ∙ append_assoc (contents tx) (frames_of s.compression_enabled ps)
          (frames_of t.compression_enabled qs)
      ∙ ap (λ b. contents tx ++ (frames_of s.compression_enabled ps ++ frames_of b qs))
          a.same_format
      ∙ ap (λ l. contents tx ++ l) (sym (frames_of-append s.compression_enabled ps qs)));
  same_format = b.same_format ∙ a.same_format;
}
