-- ===== src/Server/Session/Stages.antt =====
-- core/src/mc_server.c: the stages of the bootstrap.
use starrysky_mc_server.Prelude.{
  ℕ, zero, suc, ◌+◌, ◌%◌, ◌≤◌, ◌<◌, ◌≡◌, ◌≢◌, ◌⊎◌, inl, inr, refl, ap, ◌∙◌, Bool, true, false,
  arith, ltb, ◌==◌, if◌then◌else◌, Bool-cases, ne→==, ==→eq,
}
use starrysky_mc_server.Ringbuf.{Ringbuf}
use starrysky_mc_server.Server.State.{Server}
use starrysky_mc_server.Server.Tick.{
  Chunks, stage_chunks, next_stage, next_chunk, queue_stage, after_stage, stages_loop,
}

-- What the stages leave: the state but for the stage and the chunk index, and no stage past the end.
abbrev pub with_stage : Server → ℕ → ℕ → Server
with_stage s stage index = record s { bootstrap_stage = stage; chunk_index = index }

pub record StagesDone (s : Server) (r : Bool × Server × Ringbuf) : Type 0 where
  pub same : r.1 ≡ with_stage s r.1.bootstrap_stage r.1.chunk_index
  pub bound : r.1.bootstrap_stage + (if r.0 then 0 else 1) ≤ 7

module _ (chunks : Chunks) where
  pub after_stage_lem :
      (s : Server)
      → s.bootstrap_stage < 7
      → (after_stage chunks s
          ≡ with_stage s (after_stage chunks s).bootstrap_stage (after_stage chunks s).chunk_index)
        × (((after_stage chunks s).bootstrap_stage ≡ s.bootstrap_stage + 1)
            ⊎ ((after_stage chunks s).bootstrap_stage ≡ 6))
  unfolding after_stage next_chunk next_stage
  after_stage_lem s h = elim (Bool-cases (s.bootstrap_stage == stage_chunks)) [
    | inl e ↦
        rw e
          (elim (Bool-cases
            (ltb ((s.chunk_index + 1) % 256) (chunks.chunk_count s.compression_enabled))) [
              | inl f ↦ rw f (refl, inr (ground arith))
              | inr f ↦ rw f (refl, inl (omega arith))
            ])
    | inr e ↦ rw e (refl, inl (omega arith))
  ]

  module _ (left : ℕ) (s : Server) (tx : Ringbuf) where
    pub stages_loop_fail :
        (queue_stage chunks s tx).0 ≡ false
        → stages_loop chunks (suc left) s tx ≡ (false, s, (queue_stage chunks s tx).1)
    unfolding stages_loop
    stages_loop_fail e = rw (stages_loop, e) refl

    pub stages_loop_break :
        (queue_stage chunks s tx).0 ≡ true
        → (after_stage chunks s).bootstrap_stage ≡ 6
        → stages_loop chunks (suc left) s tx
          ≡ (true, after_stage chunks s, (queue_stage chunks s tx).1)
    unfolding stages_loop
    stages_loop_break e f =
        rw
          (
            stages_loop,
            e,
            (let t : ((after_stage chunks s).bootstrap_stage == stage_chunks) ≡ true =
                  ground arith in
                t),
          )
          refl

    pub stages_loop_next :
        (queue_stage chunks s tx).0 ≡ true
        → (after_stage chunks s).bootstrap_stage ≢ 6
        → stages_loop chunks (suc left) s tx
          ≡ stages_loop chunks left (after_stage chunks s) (queue_stage chunks s tx).1
    unfolding stages_loop
    stages_loop_next e f = rw (stages_loop, e, ne→== _ _ f) refl

  pub stages_loop-StagesDone :
      (left : ℕ) (s : Server) (tx : Ringbuf)
      → s.bootstrap_stage + left ≡ 7
      → StagesDone s (stages_loop chunks left s tx)
  stages_loop-StagesDone zero s tx h =
      unfold stages_loop in record { same = refl; bound = omega arith }
  stages_loop-StagesDone (suc left) s tx h = elim (Bool-cases (queue_stage chunks s tx).0) [
    | inl e ↦
        let (same, moved) = after_stage_lem s (omega arith) in
        elim (Bool-cases ((after_stage chunks s).bootstrap_stage == 6)) [
          | inl f ↦
              rw (stages_loop_break left s tx e (==→eq _ _ f))
                (record { same = same; bound = omega (arith, ==→eq _ _ f) })
          | inr f ↦
              let one : (after_stage chunks s).bootstrap_stage ≡ s.bootstrap_stage + 1 =
                ground arith in
              let d =
                stages_loop-StagesDone left (after_stage chunks s) (queue_stage chunks s tx).1
                  (omega arith) in
              rw (stages_loop_next left s tx e (ground arith)) (record {
                same =
                    d.same
                    ∙ ap
                        (λ (t : Server).
                          with_stage t
                            (stages_loop chunks left (after_stage chunks s)
                              (queue_stage chunks s tx).1).1.bootstrap_stage
                            (stages_loop chunks left (after_stage chunks s)
                              (queue_stage chunks s tx).1).1.chunk_index)
                        same;
                bound = d.bound;
              })
        ]
    | inr e ↦ rw (stages_loop_fail left s tx e) (record { same = refl; bound = omega arith })
  ]
