-- ===== src/Ringbuf/Tests.antt =====
-- mc_ringbuf.c: runs of the code, and the theorems at concrete inputs.
use starrysky_mc_server.Prelude.{◌≡◌, refl, arith, List, [], ◌∷◌, false, some, none}
use starrysky_mc_server.Ringbuf.{Ringbuf, push, pop, write, read, peek, drop}
use starrysky_mc_server.Ringbuf.Bounds.{IsValid}
use starrysky_mc_server.Ringbuf.Script.{
  Call, pushes, pops, writes, reads, peeks, drops, done, byte, count, bytes, nothing, run,
  queue_run, run_refines,
}

-- Two bytes, 8 and 9, round the end of four cells.
abbrev wrapped : Ringbuf
wrapped = record { storage = 9 ∷ 0 ∷ 0 ∷ 8 ∷ []; cap = 4; head = 1; tail = 3; len = 2 }

wrapped-IsValid : IsValid wrapped
wrapped-IsValid = omega arith

abbrev script : List Call
script = writes (1 ∷ 2 ∷ 3 ∷ []) ∷ pushes 4 ∷ peeks 2 ∷ reads 3 ∷ drops 9 ∷ pops ∷ []

run-wrapped :
    run wrapped script
    ≡ count 2 ∷ done false ∷ byte (some 1) ∷ bytes (8 ∷ 9 ∷ 1 ∷ []) ∷ nothing ∷ byte none ∷ []
unfolding run push pop write read peek drop
run-wrapped = refl

run_refines_example : run wrapped script ≡ queue_run 4 (8 ∷ 9 ∷ []) script
run_refines_example = run_refines wrapped script wrapped-IsValid
