-- ===== src/Server/Session/Ticking.antt =====
-- core/src/mc_server.c: ticks keep the session, whatever the world and however full the ring.
use mathlib.Core.Path.{subst}
use starrysky_mc_server.Prelude.{
  ℕ, ◌+◌, ◌-◌, ◌%◌, ◌<◌, ◌≡◌, inl, inr, refl, sym, ◌∙◌, Bool, true, false, not, ◌&&◌, arith, leb,
  if◌then◌else◌, Bool-cases, leb→le, leb→lt, u32_mod,
}
use starrysky_mc_server.Ringbuf.{Ringbuf}
use starrysky_mc_server.Server.Play.{is_play, tick_keepalive}
use starrysky_mc_server.Server.Session.{HasName, Sent, IsSession}
use starrysky_mc_server.Server.Session.Stages.{with_stage, StagesDone, stages_loop-StagesDone}
use starrysky_mc_server.Server.State.{ConnState, handshake, status, login, play, Server}
use starrysky_mc_server.Server.Tick.{
  Chunks, stage_done, stages_loop, bootstrap, then_keepalive, tick_at,
}
use starrysky_mc_server.Server.Session.Keepalive.{is_play→eq, tick_keepalive-Ticked, Ticked}

-- The fields the ticks count say nothing of the session.
ticks-HasName :
    (c : ConnState) (s : Server) (n : ℕ) → HasName c s → HasName c (record s { ticks = n })
ticks-HasName handshake s n v = v
ticks-HasName status s n v = v
ticks-HasName login s n v = v
ticks-HasName play s n v = v

pub ticks-IsSession : (s : Server) (n : ℕ) → IsSession s → IsSession (record s { ticks = n })
ticks-IsSession s n v = record {
  name = ticks-HasName s.state s n v.name;
  sent = v.sent;
  time = v.time;
  id = v.id;
}

-- A playing client of whom nothing is known but the stage.
module _ (s : Server) (v : IsSession s) (p : s.state ≡ play)
    (unsent : s.bootstrap_sent ≡ false) where
  staged-IsSession : (stage index : ℕ) → stage < 7 → IsSession (with_stage s stage index)
  staged-IsSession stage index h =
      let t = with_stage s stage index in
      record {
        name = subst (λ d. HasName d t) (sym p) (subst (λ d. HasName d s) p v.name);
        sent = subst (λ b. Sent b stage) (sym unsent) h;
        time = v.time;
        id = v.id;
      }

  finished-IsSession :
      (stage index : ℕ)
      → stage ≡ 7
      → IsSession (record (with_stage s stage index) { bootstrap_sent = true })
  finished-IsSession stage index h =
      let t = record (with_stage s stage index) { bootstrap_sent = true } in
      record {
        name = subst (λ d. HasName d t) (sym p) (subst (λ d. HasName d s) p v.name);
        sent = h;
        time = v.time;
        id = v.id;
      }

module _ (chunks : Chunks) where
  finish_loop :
      (s : Server) (r : Bool × Server × Ringbuf)
      → IsSession s
      → s.state ≡ play
      → s.bootstrap_sent ≡ false
      → StagesDone s r
      → (let q : Bool × Server × Ringbuf =
            if r.0 && leb stage_done r.1.bootstrap_stage
            then (true, record r.1 { bootstrap_sent = true }, r.2)
            else (r.0, r.1, r.2) in
          Ticked s q.1)
  finish_loop s (true, t, tx) v p unsent d = elim (Bool-cases (leb 7 t.bootstrap_stage)) [
    | inl e ↦ rw e (
        subst (λ (u : Server). Ticked s (record u { bootstrap_sent = true })) (sym d.same)
          (record {
            session =
                finished-IsSession s v p unsent t.bootstrap_stage t.chunk_index
                  (omega (arith, d.bound, leb→le _ _ e));
            same_state = refl;
            same_input = refl;
          }))
    | inr e ↦ rw e (
        subst (λ (u : Server). Ticked s u) (sym d.same)
          (record {
            session = staged-IsSession s v p unsent t.bootstrap_stage t.chunk_index (leb→lt _ _ e);
            same_state = refl;
            same_input = refl;
          }))
  ]
  finish_loop s (false, t, tx) v p unsent d =
      subst (λ (u : Server). Ticked s u) (sym d.same)
        (record {
          session =
              staged-IsSession s v p unsent t.bootstrap_stage t.chunk_index
                (omega (arith, d.bound));
          same_state = refl;
          same_input = refl;
        })

  pub bootstrap-Ticked :
      (s : Server) (tx : Ringbuf)
      → IsSession s
      → s.state ≡ play
      → s.bootstrap_sent ≡ false
      → Ticked s (bootstrap chunks s tx).1
  unfolding bootstrap
  bootstrap-Ticked s tx v p unsent =
      finish_loop s (stages_loop chunks (stage_done - s.bootstrap_stage) s tx) v p unsent (
        stages_loop-StagesDone chunks (stage_done - s.bootstrap_stage) s tx
          (omega (arith, subst (λ b. Sent b s.bootstrap_stage) unsent v.sent)))

  then_keepalive-Ticked :
      (now : ℕ) (s : Server) (r : Bool × Server × Ringbuf)
      → Ticked s r.1
      → Ticked s (then_keepalive chunks now r).1
  unfolding then_keepalive
  then_keepalive-Ticked now s (false, t, tx) d = d
  then_keepalive-Ticked now s (true, t, tx) d =
      let e = tick_keepalive-Ticked t now d.session tx in
      record {
        session = e.session;
        same_state = e.same_state ∙ d.same_state;
        same_input = e.same_input ∙ d.same_input;
      }

  tick_from :
      (now : ℕ) (s : Server) (tx : Ringbuf)
      → IsSession s
      → (let q : Bool × Server × Ringbuf =
            if is_play s.state && not s.bootstrap_sent
            then then_keepalive chunks now (bootstrap chunks s tx)
            else tick_keepalive now s tx in
          Ticked s q.1)
  tick_from now s tx v = elim (Bool-cases (is_play s.state && not s.bootstrap_sent)) [
    | inl e ↦ rw e (
        then_keepalive-Ticked now s (bootstrap chunks s tx)
          (bootstrap-Ticked s tx v (is_play→eq s.state (ground arith)) (ground arith)))
    | inr e ↦ rw e (tick_keepalive-Ticked s now v tx)
  ]

  -- A tick at any time keeps the session, the state of the connection and the input, whatever the
  -- world does and however full the output is.
  pub tick_at-Ticked :
      (now : ℕ) (s : Server) (tx : Ringbuf) → IsSession s → Ticked s (tick_at chunks now s tx).1
  unfolding tick_at
  tick_at-Ticked now s tx v =
      let t = record s { ticks = (s.ticks + 1) % u32_mod } in
      let d = tick_from now t tx (ticks-IsSession s ((s.ticks + 1) % u32_mod) v) in
      record { session = d.session; same_state = d.same_state; same_input = d.same_input }
