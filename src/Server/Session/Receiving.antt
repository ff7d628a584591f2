-- ===== src/Server/Session/Receiving.antt =====
-- core/src/mc_server.c: receiving ends, keeps the session, and leaves no whole frame behind.
use mathlib.Core.Path.{subst}
use starrysky_mc_server.Prelude.{
  ℕ, zero, suc, ◌+◌, ◌≤◌, ◌<◌, ◌≡◌, ◌⊎◌, inl, inr, refl, ap, ◌∙◌, Bool, true, false, some, List, [],
  ◌∷◌, length, arith, if◌then◌else◌, All, IsByte,
}
use starrysky_mc_server.Ringbuf.{Ringbuf}
use starrysky_mc_server.Server.Frames.{
  FrameStatus, need_more, ready, invalid, classify_loop, classify_frame,
}
use starrysky_mc_server.Server.Receive.{
  rx_accum_cap, discard, handle_frame, partial_frame_has_invalid_packet_id, next_frame, frames_loop,
  gather_bytes, receive,
}
use starrysky_mc_server.Server.Session.{IsSession, Moves, stays, restarts, joins}
use starrysky_mc_server.Server.State.{ConnState, play, Server}
use starrysky_mc_server.Server.Session.Frames.{
  FrameDone, with_input-IsSession, handle_frame-FrameDone, Gathered, gather_bytes-Gathered,
}

-- Moves one after the other.
pub data Route : ConnState → ConnState → Type 0 where
  arrived : (c : ConnState) → Route c c
  via : {c d e : ConnState} → Moves c d → Route d e → Route c e

-- What a call of `mc_server_receive` leaves: a session reached by moves of the connection, and input
-- that begins with no whole frame, of which there is none after an error.
pub record Received (s : Server) (r : Bool × Server × Ringbuf) : Type 0 where
  pub session : IsSession r.1
  pub route : Route s.state r.1.state
  pub bytes : All IsByte r.1.rx_accum
  pub settled : classify_frame r.1.rx_accum ≡ need_more
  pub input : length r.1.rx_accum ≤ (if r.0 then rx_accum_cap else 0)

pub empty_settled : classify_frame [] ≡ need_more
unfolding classify_frame classify_loop
empty_settled = refl

discard-Received : (s : Server) (tx : Ringbuf) → IsSession s → Received s (discard s tx)
unfolding discard
discard-Received s tx v = record {
  session = with_input-IsSession s [] v;
  route = arrived s.state;
  bytes = tt;
  settled = empty_settled;
  input = omega arith;
}

module _ (s t : Server) (m : Moves s.state t.state) where
  later-Received : (r : Bool × Server × Ringbuf) → Received t r → Received s r
  later-Received r h = record {
    session = h.session;
    route = via m h.route;
    bytes = h.bytes;
    settled = h.settled;
    input = h.input;
  }

FrameStatus-cases :
    (f : FrameStatus) → (f ≡ need_more) ⊎ (f ≡ invalid) ⊎ ((len : ℕ) × (f ≡ ready len))
FrameStatus-cases need_more = inl refl
FrameStatus-cases invalid = inr (inl refl)
FrameStatus-cases (ready len) = inr (inr (len, refl))

module _ (compression : Bool) where
  waiting-Received :
      (s : Server) (tx : Ringbuf)
      → IsSession s
      → All IsByte s.rx_accum
      → length s.rx_accum ≤ rx_accum_cap
      → classify_frame s.rx_accum ≡ need_more
      → Received s (
          if partial_frame_has_invalid_packet_id compression s then discard s tx else (true, s, tx))
  waiting-Received s tx v b le e =
      elim (partial_frame_has_invalid_packet_id compression s)
        as (λ c. Received s (if c then discard s tx else (true, s, tx))) [
          | true ↦ discard-Received s tx v
          | false ↦ record {
            session = v;
            route = arrived s.state;
            bytes = b;
            settled = e;
            input = le;
          }
        ]

  -- The loop ends within a round for each byte and one more.
  abbrev Ends : ℕ → Server → Ringbuf → Type 0
  Ends fuel s tx =
      (r : Bool × Server × Ringbuf) × (frames_loop compression fuel s tx ≡ some r) × Received s r

  frames_loop_ready :
      (fuel len : ℕ) (s : Server) (tx : Ringbuf)
      → classify_frame s.rx_accum ≡ ready len
      → frames_loop compression (suc fuel) s tx
        ≡ next_frame (frames_loop compression fuel) (handle_frame compression s tx)
  unfolding frames_loop
  frames_loop_ready fuel len s tx e = rw (frames_loop, e) refl

  frames_loop_stops :
      (fuel : ℕ) (s : Server) (tx : Ringbuf)
      → classify_frame s.rx_accum ≡ need_more
      → frames_loop compression (suc fuel) s tx
        ≡ some (
            if partial_frame_has_invalid_packet_id compression s
            then discard s tx
            else (true, s, tx))
  unfolding frames_loop
  frames_loop_stops fuel s tx e = rw (frames_loop, e) refl

  frames_loop_invalid :
      (fuel : ℕ) (s : Server) (tx : Ringbuf)
      → classify_frame s.rx_accum ≡ invalid
      → frames_loop compression (suc fuel) s tx ≡ some (discard s tx)
  unfolding frames_loop
  frames_loop_invalid fuel s tx e = rw (frames_loop, e) refl

  -- After one frame, with what is known of the rounds that are left.
  next_frame-Ends :
      (fuel : ℕ) (s : Server) (r : Bool × Server × Ringbuf)
      → length s.rx_accum ≤ rx_accum_cap
      → length s.rx_accum < suc fuel
      → FrameDone s r
      → ((t : Server) (tx : Ringbuf)
          → IsSession t
          → All IsByte t.rx_accum
          → length t.rx_accum ≤ rx_accum_cap
          → length t.rx_accum < fuel
          → Ends fuel t tx)
      → (q : Bool × Server × Ringbuf) × (next_frame (frames_loop compression fuel) r ≡ some q)
        × Received s q
  unfolding next_frame
  next_frame-Ends fuel s (true, t, tx) le short d go =
      let (q, e, h) = go t tx d.session d.bytes (omega (arith, d.input)) (omega (arith, d.input)) in
      (q, e, later-Received s t d.moves q h)
  next_frame-Ends fuel s (false, t, tx) le short d go = (
    (false, t, tx),
    refl,
    record {
      session = d.session;
      route = via d.moves (arrived t.state);
      bytes = d.bytes;
      settled = ap classify_frame d.input ∙ empty_settled;
      input = omega (arith, ap length d.input);
    },
  )

  frames_loop-Ends :
      (fuel : ℕ) (s : Server) (tx : Ringbuf)
      → IsSession s
      → All IsByte s.rx_accum
      → length s.rx_accum ≤ rx_accum_cap
      → length s.rx_accum < fuel
      → Ends fuel s tx
  frames_loop-Ends zero s tx v b le short = absurd (omega arith)
  frames_loop-Ends (suc fuel) s tx v b le short =
      elim (FrameStatus-cases (classify_frame s.rx_accum)) [
        | inl e ↦ (_, frames_loop_stops fuel s tx e, waiting-Received s tx v b le e)
        | inr (inl e) ↦ (_, frames_loop_invalid fuel s tx e, discard-Received s tx v)
        | inr (inr (len, e)) ↦
            let (q, f, h) =
              next_frame-Ends fuel s (handle_frame compression s tx) le short
                (handle_frame-FrameDone compression s tx v b) (frames_loop-Ends fuel) in
            (q, frames_loop_ready fuel len s tx e ∙ f, h)
      ]

-- A client that plays goes on playing.
Route-play : {c d : ConnState} → Route c d → c ≡ play → d ≡ play
Route-play (arrived c) e = e
Route-play (via (stays c) r) e = Route-play r e
Route-play (via (restarts c d n m) r) e = absurd (n e)
Route-play (via joins r) e = Route-play r refl

length-zero : (xs : List ℕ) → length xs ≤ 0 → xs ≡ []
length-zero [] h = refl
length-zero (x ∷ xs) h = absurd (omega arith)

module _ (compression : Bool) (input : List ℕ) (s : Server) (tx : Ringbuf) (v : IsSession s)
    (old : All IsByte s.rx_accum) (new : All IsByte input)
    (le : length s.rx_accum ≤ rx_accum_cap) where
  receive_by :
      (g : Bool × Server)
      → Gathered s g
      → (r : Bool × Server × Ringbuf) × ((if g.0
            then frames_loop compression (length g.1.rx_accum + 1) g.1 tx
            else some (false, g.1, tx))
          ≡ some r)
        × Received s r
  receive_by (true, t) g =
      let (r, e, h) =
        frames_loop-Ends compression (length t.rx_accum + 1) t tx g.session g.bytes g.input
          (omega arith) in
      (
        r,
        e,
        record {
          session = h.session;
          route = subst (λ c. Route c r.1.state) g.same_state h.route;
          bytes = h.bytes;
          settled = h.settled;
          input = h.input;
        },
      )
  receive_by (false, t) g = (
    (false, t, tx),
    refl,
    record {
      session = g.session;
      route = subst (λ c. Route c t.state) g.same_state (arrived t.state);
      bytes = g.bytes;
      settled = ap classify_frame (length-zero t.rx_accum g.input) ∙ empty_settled;
      input = g.input;
    },
  )

  -- On a session with input within its buffer, receiving any bytes ends within the rounds that
  -- the model gives it, and leaves a session that was reached by moves of the connection, with no
  -- whole frame in its input, and with no input at all after an error.
  pub receive_ends :
      (r : Bool × Server × Ringbuf) × (receive compression input s tx ≡ some r) × Received s r
  unfolding receive
  receive_ends = receive_by (gather_bytes input s) (gather_bytes-Gathered input s v old new le)

  -- On a session with input within its buffer, no bytes that are received take a client that
  -- plays out of the game.
  pub receive_plays :
      s.state ≡ play
      → (r : Bool × Server × Ringbuf) × (receive compression input s tx ≡ some r)
        × (r.1.state ≡ play)
  receive_plays p = let (r, e, h) = receive_ends in (r, e, Route-play h.route p)
