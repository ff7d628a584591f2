-- ===== src/Server/Session/Runs.antt =====
-- core/src/mc_server.c: what holds of the server at any moment of any run.
use mathlib.Core.Path.{subst}
use starrysky_mc_server.Prelude.{
  ℕ, ◌≤◌, ◌≡◌, refl, ap, ◌∙◌, Bool, true, false, Option, none, some, sym, List, length, arith,
  if◌then◌else◌, All, IsByte,
}
use starrysky_mc_server.Ringbuf.{Ringbuf}
use starrysky_mc_server.Server.Frames.{need_more, classify_frame}
use starrysky_mc_server.Server.Receive.{rx_accum_cap, receive}
use starrysky_mc_server.Server.Session.Receiving.{receive_ends, empty_settled}
use starrysky_mc_server.Server.Session.Ticking.{tick_at-Ticked}
use starrysky_mc_server.Server.Session.{HasName, IsSession}
use starrysky_mc_server.Server.State.{
  ConnState, handshake, status, login, play, Server, server_init, reset_play_runtime_state,
  take_tx_reset,
}
use starrysky_mc_server.Server.Tick.{Chunks, tick_at}

-- A call of the server; what its caller does to the output in between is not restricted.
pub data Step (compression : Bool) (chunks : Chunks) : Server → Server → Type 0 where
  received :
      (s : Server) (input : List ℕ) (tx : Ringbuf) (r : Bool × Server × Ringbuf)
      → All IsByte input
      → receive compression input s tx ≡ some r
      → Step compression chunks s r.1
  ticked :
      (s : Server) (now : ℕ) (tx : Ringbuf) → Step compression chunks s (tick_at chunks now s tx).1
  reset_taken : (s : Server) → Step compression chunks s (take_tx_reset s).1

-- The calls of a run from the initialisation.
pub data Runs (compression : Bool) (chunks : Chunks) : Server → Type 0 where
  started : Runs compression chunks server_init
  then_step :
      {s t : Server}
      → Runs compression chunks s
      → Step compression chunks s t
      → Runs compression chunks t

-- A session with less input than a frame, and within the buffer.
pub record IsSettled (s : Server) : Type 0 where
  pub session : IsSession s
  pub bytes : All IsByte s.rx_accum
  pub settled : classify_frame s.rx_accum ≡ need_more
  pub input : length s.rx_accum ≤ rx_accum_cap

pub server_init-IsSettled : IsSettled server_init
unfolding server_init reset_play_runtime_state
server_init-IsSettled = record {
  session = record {
    name = (refl, refl, refl, refl, refl);
    sent = omega arith;
    time = omega arith;
    id = omega arith;
  };
  bytes = tt;
  settled = empty_settled;
  input = omega arith;
}

cap-if : (b : Bool) (n : ℕ) → n ≤ (if b then rx_accum_cap else 0) → n ≤ rx_accum_cap
cap-if true n h = h
cap-if false n h = omega arith

reset-HasName :
    (c : ConnState) (s : Server) → HasName c s → HasName c (record s { tx_reset_requested = false })
reset-HasName handshake s v = v
reset-HasName status s v = v
reset-HasName login s v = v
reset-HasName play s v = v

module _ (compression : Bool) (chunks : Chunks) where
  Step-IsSettled : {s t : Server} → IsSettled s → Step compression chunks s t → IsSettled t
  Step-IsSettled v (received s input tx r new e) =
      let (q, f, d) = receive_ends compression input s tx v.session v.bytes new v.input in
      subst
        (λ (p : Option (Bool × Server × Ringbuf)). elim p [ none ↦ Unit | some p ↦ IsSettled p.1 ])
        (sym f ∙ e)
        (record {
          session = d.session;
          bytes = d.bytes;
          settled = d.settled;
          input = cap-if q.0 _ d.input;
        })
  Step-IsSettled v (ticked s now tx) =
      let d = tick_at-Ticked chunks now s tx v.session in
      record {
        session = d.session;
        bytes = subst (λ xs. All IsByte xs) (sym d.same_input) v.bytes;
        settled = ap classify_frame d.same_input ∙ v.settled;
        input = rw d.same_input v.input;
      }
  Step-IsSettled v (reset_taken s) =
      unfold take_tx_reset in
      record {
        session = record {
          name = reset-HasName s.state s v.session.name;
          sent = v.session.sent;
          time = v.session.time;
          id = v.session.id;
        };
        bytes = v.bytes;
        settled = v.settled;
        input = v.input;
      }

  -- From the initialisation on, through any calls that receive bytes, tick, or take the request
  -- to reset the output, whatever the world and the output do: a client that plays has a name of
  -- one to sixteen bytes and any other has none and was sent nothing of the world, the world
  -- counts as sent exactly when all stages are done, the time is at most 24000, the keepalive's
  -- id is not negative, and the input is within the buffer and begins with no whole frame.
  pub Runs-IsSettled : {s : Server} → Runs compression chunks s → IsSettled s
  Runs-IsSettled started = server_init-IsSettled
  Runs-IsSettled (then_step r d) = Step-IsSettled (Runs-IsSettled r) d
