-- ===== src/Server/Session/Finishing.antt =====
-- core/src/mc_server.c: a client that has joined is sent the whole world.
use mathlib.Core.Path.{subst}
use starrysky_mc_server.Prelude.{
  ℕ, ◌-◌, ◌≤◌, ◌<◌, ◌≡◌, inl, inr, refl, ap, sym, ◌∙◌, true, false, List, [], ◌∷◌, ◌++◌, length,
  arith, All, All-append, append-nil, append_assoc,
}
use starrysky_mc_server.Ringbuf.Bounds.{IsValid}
use starrysky_mc_server.Ringbuf.Refine.{contents, Holds}
use starrysky_mc_server.Ringbuf.{Ringbuf}
use starrysky_mc_server.Server.Queue.Batch.{frames_of}
use starrysky_mc_server.Server.Session.Advancing.{rounds_left}
use starrysky_mc_server.Server.Session.Following.{IsKeepalive}
use starrysky_mc_server.Server.Session.Outgoing.{
  world_packets, to_send, to_send_all, to_send_nothing,
}
use starrysky_mc_server.Server.Session.Sending.{Emitted, frames_join, tick_at-Emitted, tick_at_sent}
use starrysky_mc_server.Server.Session.Ticking.{tick_at-Ticked}
use starrysky_mc_server.Server.Session.{IsSession}
use starrysky_mc_server.Server.Spawn.{flat_world}
use starrysky_mc_server.Server.State.{Server, play}
use starrysky_mc_server.Server.Tick.{tick_at}

-- Ticks at their times, each with the output as it is then.
abbrev pub run_ticks : List (ℕ × Ringbuf) → Server → Server
run_ticks [] s = s
run_ticks ((now, tx) ∷ ticks) s = run_ticks ticks (tick_at flat_world now s tx).1

-- The bytes that the ticks queue, each tick behind what its output held.
pub data Sends : List (ℕ × Ringbuf) → Server → List ℕ → Type 0 where
  nothing : (s : Server) → Sends [] s []
  then_tick :
      (now : ℕ) (tx : Ringbuf) (ticks : List (ℕ × Ringbuf)) (s : Server) (out outs : List ℕ)
      → Holds tx.cap (contents tx ++ out) (tick_at flat_world now s tx).2
      → Sends ticks (tick_at flat_world now s tx).1 outs
      → Sends ((now, tx) ∷ ticks) s (out ++ outs)

abbrev pub HasRoom : ℕ × Ringbuf → Type 0
HasRoom (now, tx) = IsValid tx × (13000 ≤ tx.cap - tx.len)

-- The ticks send the packets `ps` in their frames, and then keepalives only.
abbrev pub SendsAll : List (ℕ × Ringbuf) → Server → List (List ℕ) → Type 0
SendsAll ticks s packets =
    (more : List (List ℕ)) × All IsKeepalive more
    × Sends ticks s (frames_of s.compression_enabled (packets ++ more))

run_ticks_sent :
    (ticks : List (ℕ × Ringbuf)) (s : Server)
    → IsSession s
    → s.state ≡ play
    → s.bootstrap_sent ≡ true
    → All HasRoom ticks
    → ((run_ticks ticks s).bootstrap_sent ≡ true) × SendsAll ticks s []
unfolding frames_of
run_ticks_sent [] s v p sent room = (sent, ([], tt, nothing s))
run_ticks_sent ((now, tx) ∷ ticks) s v p sent room =
    let t = (tick_at flat_world now s tx).1 in
    let d = tick_at-Ticked flat_world now s tx v in
    let (still, format, (more, keepalives, held)) = tick_at_sent now s tx p v sent room.0.0 in
    let (done, (rest, later, sends)) =
      run_ticks_sent ticks t d.session (d.same_state ∙ p) still room.1 in
    (
      done,
      (
        more ++ rest,
        All-append IsKeepalive more rest keepalives later,
        subst (λ l. Sends ((now, tx) ∷ ticks) s l)
            (frames_join s.compression_enabled t.compression_enabled more rest (more ++ rest) format
              refl)
            (then_tick now tx ticks s _ _ held sends),
      ),
    )

-- A tick, and what the ticks behind it send.
then_sends :
    (now n : ℕ) (tx : Ringbuf) (ticks : List (ℕ × Ringbuf)) (s : Server) (ps : List (List ℕ))
    (e : Emitted n s tx (tick_at flat_world now s tx).1 (tick_at flat_world now s tx).2)
    → to_send (tick_at flat_world now s tx).1 ≡ ps
    → e.more ++ ps ≡ ps ++ e.more
    → SendsAll ticks (tick_at flat_world now s tx).1 ps
    → SendsAll ((now, tx) ∷ ticks) s (to_send s)
then_sends now n tx ticks s ps e same swap (rest, later, sends) = (
  e.more ++ rest,
  All-append IsKeepalive e.more rest e.keepalives later,
  subst (λ l. Sends ((now, tx) ∷ ticks) s l)
      (frames_join s.compression_enabled _ (e.packets ++ e.more) (ps ++ rest)
        (to_send s ++ (e.more ++ rest)) e.same_format
        (append_assoc e.packets e.more (ps ++ rest)
          ∙ ap (λ l. e.packets ++ l)
              (sym (append_assoc e.more ps rest)
                ∙ ap (λ l. l ++ rest) swap
                ∙ append_assoc ps e.more rest)
          ∙ sym (append_assoc e.packets ps (e.more ++ rest))
          ∙ ap (λ l. l ++ (e.more ++ rest)) (ap (λ l. e.packets ++ l) (sym same) ∙ sym e.split)))
      (then_tick now tx ticks s _ _ e.held sends),
)

run_ticks_going :
    (ticks : List (ℕ × Ringbuf)) (s : Server)
    → IsSession s
    → s.state ≡ play
    → s.bootstrap_sent ≡ false
    → s.bootstrap_stage < 7
    → s.chunk_index < 9
    → All HasRoom ticks
    → rounds_left s ≤ length ticks
    → ((run_ticks ticks s).bootstrap_sent ≡ true) × SendsAll ticks s (to_send s)
run_ticks_going [] s v p unsent h i room enough = absurd (omega arith)
run_ticks_going ((now, tx) ∷ ticks) s v p unsent h i room enough =
    let t = (tick_at flat_world now s tx).1 in
    let d = tick_at-Ticked flat_world now s tx v in
    let e = tick_at-Emitted now s tx p v unsent h i room.0.0 room.0.1 in
    elim e.going [
      | inl (sent, seven, nine) ↦
          let (finished, sends) = run_ticks_sent ticks t d.session (d.same_state ∙ p) sent room.1 in
          (
            finished,
            then_sends now _ tx ticks s [] e (to_send_nothing t seven nine) (append-nil e.more)
                sends,
          )
      | inr (unsent', six, bound, less, quiet) ↦
          let budget : rounds_left t ≡ 9 - t.chunk_index = ground arith in
          let (finished, sends) =
            run_ticks_going ticks t d.session (d.same_state ∙ p) unsent' (omega arith) bound room.1
              (omega arith) in
          (
            finished,
            then_sends now _ tx ticks s (to_send t) e refl
                (ap (λ l. l ++ to_send t) quiet
                  ∙ sym (append-nil (to_send t))
                  ∙ ap (λ l. to_send t ++ l) (sym quiet))
                sends,
          )
    ]

-- On a session: a client that has just joined a server with the flat chunks is sent the whole
-- world by ten ticks or more, each with room for 13000 bytes in a valid output, whenever they
-- come: behind what the outputs held, the ticks queue, in this order and in the format of the
-- client, the frames of the six packets that start the game, given byte by byte, those of the
-- nine chunks, and then frames of keepalives only; and the world counts as sent.
pub run_ticks-sends :
    (ticks : List (ℕ × Ringbuf)) (s : Server)
    → IsSession s
    → s.state ≡ play
    → s.bootstrap_sent ≡ false
    → s.bootstrap_stage ≡ 0
    → s.chunk_index ≡ 0
    → All HasRoom ticks
    → 10 ≤ length ticks
    → ((run_ticks ticks s).bootstrap_sent ≡ true) × SendsAll ticks s (world_packets s)
run_ticks-sends ticks s v p unsent stage index room enough =
    let budget : rounds_left s ≤ 10 = ground arith in
    subst (λ l. ((run_ticks ticks s).bootstrap_sent ≡ true) × SendsAll ticks s l)
      (to_send_all s stage index v.time)
      (run_ticks_going ticks s v p unsent (omega arith) (omega arith) room (omega arith))
