-- ===== src/Server/Session/Commands.antt =====
-- core/src/mc_server.c: chat lines and movement keep the session.
use starrysky_mc_server.Commands.Handle.Answers.{IsAction}
use starrysky_mc_server.Commands.Handle.Chat.{handle_chat-IsAction}
use starrysky_mc_server.Commands.Handle.{
  Position, Weather, Outcome, chat_only, teleport, set_time, set_weather, handle_chat,
  command_text_cap,
}
use mathlib.Core.Path.{subst}
use starrysky_mc_server.Prelude.{
  sym, ℕ, ◌≤◌, ◌≡◌, inl, inr, refl, Bool, true, false, not, Option, none, some, List, [], ◌∷◌, ◌++◌,
  length, ◌==◌, if◌then◌else◌, Bool-cases, Option-cases,
}
use starrysky_mc_server.Ringbuf.{Ringbuf}
use starrysky_mc_server.Server.Body.{read_varint_body, read_chat_body}
use starrysky_mc_server.Server.Play.{
  read_movement, handle_play_movement, handle_keepalive_ack, handle_chat_line, handle_chat_message,
}
use starrysky_mc_server.Server.Queue.{queue_packet_batch}
use starrysky_mc_server.Server.Session.{HasName, IsSession, stays, Handled}
use starrysky_mc_server.Server.State.{
  play, Server, apply_action, queue_result, execute_command_result, build_command_context,
}

pub unchanged : (s : Server) (b : Bool) → IsSession s → Handled s (b, s)
unchanged s b v = record { session = v; moves = stays s.state; same_input = refl }

-- What a playing client may change.
abbrev pub with_world : Server → Position → ℕ → ℕ → Weather → Bool → Server
with_world s position on_ground time weather pending = record s {
  position = position;
  on_ground = on_ground;
  world_time = time;
  weather = weather;
  keepalive_pending = pending;
}

if-Handled :
    (s : Server) (b : Bool) {x y : Bool × Server}
    → Handled s x
    → Handled s y
    → Handled s (if b then x else y)
if-Handled s true hx hy = hx
if-Handled s false hx hy = hy

module _ (s : Server) (v : IsSession s) (p : s.state ≡ play) where
  kept :
      (b : Bool) (position : Position) (on_ground time : ℕ) (weather : Weather) (pending : Bool)
      → time ≤ 24000
      → Handled s (b, with_world s position on_ground time weather pending)
  kept b position on_ground time weather pending h =
      let t = with_world s position on_ground time weather pending in
      record {
        session = record {
          name = subst (λ c. HasName c t) (sym p) (subst (λ c. HasName c s) p v.name);
          sent = v.sent;
          time = h;
          id = v.id;
        };
        moves = stays s.state;
        same_input = refl;
      }

  pub handle_play_movement-Handled :
      (packet_id : ℕ) (body : List ℕ) (pos : ℕ)
      → Handled s (handle_play_movement packet_id body pos s)
  unfolding handle_play_movement
  handle_play_movement-Handled packet_id body pos =
      elim (read_movement packet_id body s.position pos)
        as (λ o. Handled s (elim o as (λ _. Bool × Server) [
          | none ↦ (false, s)
          | some m ↦
              if not (m.end == length body)
              then (false, s)
              else (true, record s { position = m.position; on_ground = m.on_ground })
        ])) [
          | none ↦ unchanged s false v
          | some m ↦
              if-Handled s (not (m.end == length body)) (unchanged s false v)
                (kept true m.position m.on_ground s.world_time s.weather s.keepalive_pending v.time)
        ]

  pub handle_keepalive_ack-Handled :
      (body : List ℕ) (pos : ℕ) → Handled s (handle_keepalive_ack body pos s)
  unfolding handle_keepalive_ack
  handle_keepalive_ack-Handled body pos = elim (Option-cases (read_varint_body body pos)) [
    | inl e ↦ rw (handle_keepalive_ack, e) (unchanged s false v)
    | inr (r, e) ↦
        rw (handle_keepalive_ack, e)
          (if-Handled s (not (r.1 == length body)) (unchanged s false v)
            (kept true s.position s.on_ground s.world_time s.weather false v.time))
  ]

  apply_action-Handled : (o : Outcome) → IsAction o → Handled s (true, apply_action o s)
  unfolding apply_action
  apply_action-Handled chat_only a = unchanged s true v
  apply_action-Handled (teleport q) a =
      kept true q s.on_ground s.world_time s.weather s.keepalive_pending v.time
  apply_action-Handled (set_time ticks) a =
      kept true s.position s.on_ground ticks s.weather s.keepalive_pending a
  apply_action-Handled (set_weather w) a =
      kept true s.position s.on_ground s.world_time w s.keepalive_pending v.time

  queued-Handled :
      (o : Outcome) (ok : Bool) → IsAction o → Handled s (ok, (if ok then apply_action o s else s))
  queued-Handled o true a = apply_action-Handled o a
  queued-Handled o false a = unchanged s false v

  queue_result-Handled :
      (o : Outcome) (bodies : Option (List (List ℕ))) (chat : Option (List ℕ)) (tx : Ringbuf)
      → IsAction o
      → (let r = queue_result o bodies chat s tx in Handled s (r.0, r.1))
  unfolding queue_result
  queue_result-Handled o none chat tx a = unchanged s false v
  queue_result-Handled o (some bodies) none tx a = unchanged s false v
  queue_result-Handled o (some bodies) (some chat) tx a =
      queued-Handled o (queue_packet_batch s.compression_enabled (bodies ++ (chat ∷ [])) tx).0 a

  handle_chat_line-Handled :
      (message : List ℕ) (tx : Ringbuf)
      → (let r = handle_chat_line message s tx in Handled s (r.0, r.1))
  unfolding handle_chat_line execute_command_result
  handle_chat_line-Handled message tx =
      elim (Bool-cases (handle_chat s.username message (build_command_context s)).0) [
        | inl e ↦ rw e (
            queue_result-Handled _ _ _ tx
              (handle_chat-IsAction s.username message (build_command_context s)))
        | inr e ↦ rw e (unchanged s false v)
      ]

  pub handle_chat_message-Handled :
      (body : List ℕ) (pos : ℕ) (tx : Ringbuf)
      → (let r = handle_chat_message body pos s tx in Handled s (r.0, r.1))
  unfolding handle_chat_message
  handle_chat_message-Handled body pos tx =
      elim (Option-cases (read_chat_body command_text_cap body pos)) [
        | inl e ↦ rw (handle_chat_message, e) (unchanged s false v)
        | inr (r, e) ↦
            rw (handle_chat_message, e)
              (elim (Bool-cases (not (r.1 == length body))) [
                | inl f ↦ rw f (unchanged s false v)
                | inr f ↦ rw f (handle_chat_line-Handled r.0 tx)
              ])
      ]
