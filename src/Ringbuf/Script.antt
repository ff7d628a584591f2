-- ===== src/Ringbuf/Script.antt =====
-- mc_ringbuf.c against its contract, a first-in first-out queue of at most `cap` bytes.
use starrysky_mc_server.Prelude.{
  ℕ, ◌-◌, ◌≡◌, refl, sym, ap, ap₂, ◌∙◌, List, [], ◌∷◌, ◌++◌, Bool, Option, none, some, length, take,
  min, ltb, ◌==◌, if◌then◌else◌, get_or, arith,
}
use starrysky_mc_server.Prelude
use starrysky_mc_server.Ringbuf.{Ringbuf, push, pop, write, read, peek, drop}
use starrysky_mc_server.Ringbuf.Bounds.{IsValid, push-IsValid, pop-IsValid}
use starrysky_mc_server.Ringbuf.Refine.{
  contents, length-contents, push_refines, pop_refines, write_refines,
}
use starrysky_mc_server.Ringbuf.Reads.{read_refines, peek_refines, drop_refines}

-- A client's call, and what it sees of it.
pub data Call : Type 0 where
  pushes : ℕ → Call
  pops : Call
  writes : List ℕ → Call
  reads : ℕ → Call
  peeks : ℕ → Call
  drops : ℕ → Call

pub data Reply : Type 0 where
  done : Bool → Reply
  byte : Option ℕ → Reply
  count : ℕ → Reply
  bytes : List ℕ → Reply
  nothing : Reply

unfoldable pub step : Ringbuf → Call → Reply × Ringbuf
step rb (pushes b) = let (r, rb') = push rb b in (done r, rb')
step rb pops = let (r, rb') = pop rb in (byte r, rb')
step rb (writes src) = let (n, rb') = write rb src in (count n, rb')
step rb (reads n) = let (r, rb') = read rb n in (bytes r, rb')
step rb (peeks i) = (byte (peek rb i), rb)
step rb (drops n) = (nothing, drop rb n)

unfoldable pub run : Ringbuf → List Call → List Reply
unfolding step
run rb [] = []
run rb (c ∷ cs) = let (r, rb') = step rb c in r ∷ run rb' cs

-- The contract.
unfoldable pub queue_step : ℕ → List ℕ → Call → Reply × List ℕ
queue_step cap q (pushes b) =
    (done (ltb (length q) cap), if ltb (length q) cap then q ++ (b ∷ []) else q)
queue_step cap q pops =
    (byte (if length q == 0 then none else some (get_or q 0 0)), Prelude.drop 1 q)
queue_step cap q (writes src) =
    (count (min (length src) (cap - length q)), q ++ take (cap - length q) src)
queue_step cap q (reads n) = (bytes (take n q), Prelude.drop n q)
queue_step cap q (peeks i) = (byte (if ltb i (length q) then some (get_or q i 0) else none), q)
queue_step cap q (drops n) = (nothing, Prelude.drop n q)

unfoldable pub queue_run : ℕ → List ℕ → List Call → List Reply
unfolding queue_step
queue_run cap q [] = []
queue_run cap q (c ∷ cs) = let (r, q') = queue_step cap q c in r ∷ queue_run cap q' cs

-- One call on a valid ring and on the queue of its contents.
record Agrees (cap : ℕ) (ring : Reply × Ringbuf) (queue : Reply × List ℕ) : Type 0 where
  reply : ring.0 ≡ queue.0
  valid : IsValid ring.1
  holds : contents ring.1 ≡ queue.1
  same_cap : ring.1.cap ≡ cap

step-Agrees :
    (rb : Ringbuf) (c : Call)
    → IsValid rb
    → Agrees rb.cap (step rb c) (queue_step rb.cap (contents rb) c)
unfolding step queue_step
step-Agrees rb (pushes b) v =
    let (r, q, c) = push_refines rb b v in
    rw (length-contents rb)
      (record { reply = ap done r; valid = push-IsValid rb b v; holds = q; same_cap = c })
step-Agrees rb pops v =
    let (r, q, c) = pop_refines rb v in
    rw (length-contents rb)
      (record { reply = ap byte r; valid = pop-IsValid rb v; holds = q; same_cap = c })
step-Agrees rb (writes src) v =
    let (n, h) = write_refines rb src v in
    rw (length-contents rb)
      (record { reply = ap count n; valid = h.valid; holds = h.holds; same_cap = h.same_cap })
step-Agrees rb (reads n) v =
    let (r, h) = read_refines n rb v in
    record { reply = ap bytes r; valid = h.valid; holds = h.holds; same_cap = h.same_cap }
step-Agrees rb (peeks i) v = record {
  reply = ap byte (peek_refines rb i v);
  valid = v;
  holds = refl;
  same_cap = refl;
}
step-Agrees rb (drops n) v =
    let h = drop_refines rb n v in
    record { reply = refl; valid = h.valid; holds = h.holds; same_cap = h.same_cap }

run-queue_run :
    (cs : List Call) (rb : Ringbuf) → IsValid rb → run rb cs ≡ queue_run rb.cap (contents rb) cs
unfolding run queue_run
run-queue_run [] rb v = refl
run-queue_run (c ∷ cs) rb v =
    let a = step-Agrees rb c v in
    ap₂ ◌∷◌ a.reply
      (run-queue_run cs (step rb c).1 a.valid ∙ ap₂ (λ n q. queue_run n q cs) a.same_cap a.holds)

-- No sequence of calls tells a valid ring from the bounded queue of the bytes that it holds:
-- every return value and every byte handed out agree.
pub run_refines :
    (rb : Ringbuf) (cs : List Call) → IsValid rb → run rb cs ≡ queue_run rb.cap (contents rb) cs
run_refines rb cs v = run-queue_run cs rb v
