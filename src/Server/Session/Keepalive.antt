-- ===== src/Server/Session/Keepalive.antt =====
-- core/src/mc_server.c: the keepalive keeps the session.
use mathlib.Core.Path.{subst}
use starrysky_mc_server.Config.{int32_max}
use starrysky_mc_server.Prelude.{
  ℕ, ◌≤◌, ◌≡◌, inl, inr, refl, sym, ◌∙◌, true, false, not, ◌&&◌, ◌||◌, Option, none, some, List,
  arith, ltb, ◌==◌, if◌then◌else◌, Bool-cases,
}
use starrysky_mc_server.Ringbuf.{Ringbuf}
use starrysky_mc_server.Server.Packets.{keepalive_body}
use starrysky_mc_server.Server.Play.{
  is_play, elapsed_ticks, next_keepalive_id, send_keepalive, tick_keepalive,
}
use starrysky_mc_server.Server.Queue.{queue_packet_auto}
use starrysky_mc_server.Server.Session.{HasName, IsSession}
use starrysky_mc_server.Server.State.{ConnState, handshake, status, login, play, Server}

pub is_play→eq : (c : ConnState) → is_play c ≡ true → c ≡ play
is_play→eq play h = refl
is_play→eq handshake h = cc
is_play→eq status h = cc
is_play→eq login h = cc

-- `next_keepalive_id` runs from 1 to `INT32_MAX` and begins again.
pub next_keepalive_id_bounds :
    (id : ℕ) → id ≤ int32_max → (1 ≤ next_keepalive_id id) × (next_keepalive_id id ≤ int32_max)
unfolding next_keepalive_id
next_keepalive_id_bounds id h = ground arith

module _ (s : Server) (v : IsSession s) where
  sent_keepalive :
      (id now : ℕ) (c : ConnState)
      → s.state ≡ c
      → c ≡ play
      → id ≤ int32_max
      → IsSession
          (record s { keepalive_id = id; keepalive_pending = true; last_keepalive_tick = now })
  sent_keepalive id now c e p h =
      let t = record s { keepalive_id = id; keepalive_pending = true; last_keepalive_tick = now } in
      record {
        name = subst (λ d. HasName d t) (sym (e ∙ p)) (subst (λ d. HasName d s) (e ∙ p) v.name);
        sent = v.sent;
        time = v.time;
        id = h;
      }

  send_keepalive-IsSession :
      (body : Option (List ℕ)) (id now : ℕ) (tx : Ringbuf)
      → s.state ≡ play
      → id ≤ int32_max
      → IsSession (send_keepalive body id now s tx).1
  unfolding send_keepalive
  send_keepalive-IsSession none id now tx p h = v
  send_keepalive-IsSession (some body) id now tx p h =
      elim (queue_packet_auto s.compression_enabled body tx).0
        as (λ ok. IsSession (
          if ok
          then record s { keepalive_id = id; keepalive_pending = true; last_keepalive_tick = now }
          else s)) [ true ↦ sent_keepalive id now play p refl h | false ↦ v ]

  pub tick_keepalive-IsSession : (now : ℕ) (tx : Ringbuf) → IsSession (tick_keepalive now s tx).1
  unfolding tick_keepalive
  tick_keepalive-IsSession now tx =
      elim (Bool-cases (not (is_play s.state) || not s.bootstrap_sent)) [
        | inl e ↦ rw e v
        | inr e ↦
            rw e
              (elim (Bool-cases (
                not (s.last_keepalive_tick == 0)
                && ltb (elapsed_ticks now s.last_keepalive_tick) 720_000_000)) [
                  | inl f ↦ rw f v
                  | inr f ↦ rw f (
                      send_keepalive-IsSession (keepalive_body (next_keepalive_id s.keepalive_id))
                        (next_keepalive_id s.keepalive_id) now tx
                        (is_play→eq s.state (ground arith))
                        (next_keepalive_id_bounds s.keepalive_id v.id).1)
                ])
      ]

-- What a call made of the ticks leaves: a session in the same state, with the same input.
pub record Ticked (s : Server) (t : Server) : Type 0 where
  pub session : IsSession t
  pub same_state : t.state ≡ s.state
  pub same_input : t.rx_accum ≡ s.rx_accum

-- The keepalive leaves the rest of the state alone.
abbrev pub Keeps : Server → Server → Type 0
Keeps s t =
    (t.state ≡ s.state)
    × (t.rx_accum ≡ s.rx_accum)
    × (t.bootstrap_sent ≡ s.bootstrap_sent)
    × (t.bootstrap_stage ≡ s.bootstrap_stage)
    × (t.chunk_index ≡ s.chunk_index)
    × (t.compression_enabled ≡ s.compression_enabled)

send_keepalive-Keeps :
    (body : Option (List ℕ)) (id now : ℕ) (s : Server) (tx : Ringbuf)
    → Keeps s (send_keepalive body id now s tx).1
unfolding send_keepalive
send_keepalive-Keeps none id now s tx = (refl, refl, refl, refl, refl, refl)
send_keepalive-Keeps (some body) id now s tx =
    elim (Bool-cases (queue_packet_auto s.compression_enabled body tx).0) [
      | inl e ↦ rw e (refl, refl, refl, refl, refl, refl)
      | inr e ↦ rw e (refl, refl, refl, refl, refl, refl)
    ]

pub tick_keepalive-Keeps :
    (now : ℕ) (s : Server) (tx : Ringbuf) → Keeps s (tick_keepalive now s tx).1
unfolding tick_keepalive
tick_keepalive-Keeps now s tx = elim (Bool-cases (not (is_play s.state) || not s.bootstrap_sent)) [
  | inl e ↦ rw e (refl, refl, refl, refl, refl, refl)
  | inr e ↦
      rw e
        (elim (Bool-cases (
          not (s.last_keepalive_tick == 0)
          && ltb (elapsed_ticks now s.last_keepalive_tick) 720_000_000)) [
            | inl f ↦ rw f (refl, refl, refl, refl, refl, refl)
            | inr f ↦ rw f (
                send_keepalive-Keeps (keepalive_body (next_keepalive_id s.keepalive_id))
                  (next_keepalive_id s.keepalive_id) now s tx)
          ])
]

pub tick_keepalive-Ticked :
    (s : Server) (now : ℕ) → IsSession s → (tx : Ringbuf) → Ticked s (tick_keepalive now s tx).1
tick_keepalive-Ticked s now v tx =
    let (e, f, sent, stage, index, format) = tick_keepalive-Keeps now s tx in
    record { session = tick_keepalive-IsSession s v now tx; same_state = e; same_input = f }
