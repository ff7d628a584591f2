-- ===== src/Server/Session/Advancing.antt =====
-- core/src/mc_server.c: with the flat chunks and room in the output, ticks send the whole world.
use mathlib.Core.Path.{subst}
use starrysky_mc_server.Prelude.{
  ℕ, zero, suc, ◌+◌, ◌-◌, ◌*◌, ◌≤◌, ◌<◌, ◌≡◌, ◌≢◌, inl, inr, refl, Bool, true, List, [], ◌∷◌, arith,
  ◌==◌, if◌then◌else◌, Bool-cases, ==→eq,
}
use starrysky_mc_server.Ringbuf.Bounds.{IsValid}
use starrysky_mc_server.Ringbuf.{Ringbuf}
use starrysky_mc_server.Server.Session.Outgoing.{Emits, then-Emits}
use starrysky_mc_server.Server.Session.Stepping.{
  Advanced, flat_chunk_next, stage_next, chunk-Stage, early-Stage,
}
use starrysky_mc_server.Server.Session.Stages.{stages_loop_break, stages_loop_next}
use starrysky_mc_server.Server.Spawn.{flat_world}
use starrysky_mc_server.Server.State.{Server}
use starrysky_mc_server.Server.Tick.{queue_stage, after_stage, stages_loop}

-- The ticks that are left at most.
abbrev pub rounds_left : Server → ℕ
rounds_left s = (9 - s.chunk_index) + (if s.bootstrap_stage == 6 then 0 else 1)

pub record AllQueued (n : ℕ) (s : Server) (tx : Ringbuf) (r : Bool × Server × Ringbuf)
    : Type 0 where
  pub ok : r.0 ≡ true
  pub advanced : Advanced n r.1
  pub packets : List (List ℕ)
  pub emits : Emits packets s tx r.1 r.2

-- The loop goes on behind a stage.
then-AllQueued :
    (n : ℕ) (s t : Server) (tx mid : Ringbuf) (body : List ℕ) (r : Bool × Server × Ringbuf)
    → Emits (body ∷ []) s tx t mid
    → AllQueued n t mid r
    → AllQueued n s tx r
then-AllQueued n s t tx mid body r a d = record {
  ok = d.ok;
  advanced = d.advanced;
  packets = body ∷ d.packets;
  emits = then-Emits (body ∷ []) d.packets s t r.1 tx mid r.2 a d.emits;
}

-- The loop from a stage before the chunks ends at the first of them.
early_stages :
    (left : ℕ) (s : Server) (tx : Ringbuf)
    → s.bootstrap_stage + suc left ≡ 7
    → s.bootstrap_stage < 6
    → s.chunk_index < 9
    → IsValid tx
    → 70 * left ≤ tx.cap - tx.len
    → AllQueued (10 - s.chunk_index) s tx (stages_loop flat_world (suc left) s tx)
early_stages zero s tx e h i v room = absurd (omega arith)
early_stages (suc left) s tx e h i v room =
    let t = after_stage flat_world s in
    let mid = (queue_stage flat_world s tx).1 in
    let (next, same) = stage_next s h in
    let q = early-Stage s tx h v (omega arith) in
    elim (Bool-cases (t.bootstrap_stage == 6)) [
      | inl f ↦ rw (stages_loop_break flat_world (suc left) s tx q.done (==→eq _ _ f)) (record {
        ok = refl;
        advanced = inr (==→eq _ _ f, omega (arith, same), omega (arith, same));
        packets = q.body ∷ [];
        emits = q.emits;
      })
      | inr f ↦
          let n : t.bootstrap_stage ≢ 6 = ground arith in
          let d =
            early_stages left t mid (omega (arith, next)) (omega (arith, next, n))
              (omega (arith, same)) q.emits.held.valid (q.room (70 * left) (omega arith)) in
          rw (stages_loop_next flat_world (suc left) s tx q.done n) (
            subst (λ k. AllQueued (10 - k) s tx (stages_loop flat_world (suc left) t mid)) same
              (then-AllQueued (10 - t.chunk_index) s t tx mid q.body _ q.emits d))
    ]

-- With room for a chunk and the stages before, the loop succeeds.
pub flat_stages :
    (left : ℕ) (s : Server) (tx : Ringbuf)
    → s.bootstrap_stage + left ≡ 7
    → s.bootstrap_stage < 7
    → s.chunk_index < 9
    → IsValid tx
    → 13000 ≤ tx.cap - tx.len
    → AllQueued (rounds_left s) s tx (stages_loop flat_world left s tx)
flat_stages zero s tx e h i v room = absurd (omega arith)
flat_stages (suc left) s tx e h i v room = elim (Bool-cases (s.bootstrap_stage == 6)) [
  | inl f ↦
      let six : s.bootstrap_stage ≡ 6 = ==→eq _ _ f in
      let none_left : left ≡ 0 = omega arith in
      let q = chunk-Stage s tx six i v (omega arith) in
      let (next, moved) = flat_chunk_next s six i in
      let budget : rounds_left s ≡ 9 - s.chunk_index = ground arith in
      rw budget (elim (Bool-cases ((after_stage flat_world s).bootstrap_stage == 6)) [
        | inl g ↦
            rw (stages_loop_break flat_world left s tx q.done (==→eq _ _ g))
              (record { ok = refl; advanced = next; packets = q.body ∷ []; emits = q.emits })
        | inr g ↦
            rw
              (
                none_left,
                stages_loop_next flat_world 0 s tx q.done
                    (let n : (after_stage flat_world s).bootstrap_stage ≢ 6 = ground arith in n),
              )
              (unfold stages_loop in
                record { ok = refl; advanced = next; packets = q.body ∷ []; emits = q.emits })
      ])
  | inr f ↦
      let budget : rounds_left s ≡ 10 - s.chunk_index = ground arith in
      rw budget (early_stages left s tx e (ground arith) i v (omega arith))
]
