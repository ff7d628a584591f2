-- ===== src/Session/Reception/Ending.antt =====
-- firmware/mc_link_session.c: the loop over the received frames ends, and keeps the settings bounded.
use starrysky_mc_server.Prelude.{
  ℕ, zero, suc, ◌≤◌, ◌<◌, ◌≡◌, refl, ap, sym, ◌∙◌, arith, List, [], true, false, Option, none, some,
  length, take, Bool-cases, Option-cases, inl, inr, ◌==◌,
}
use mathlib.Core.Option.{none-ne-some}
use starrysky_mc_server.Link.Frame.{Frame, max_encoded_len, decode_frame}
use starrysky_mc_server.Link.Parser.{Parser, find_delimiter, try_one, drain, feed_loop, feed}
use starrysky_mc_server.Link.Parser.Bounds.{
  try_one-le, try_one-none, try_one_frame, try_one_bad, find_delimiter-lt, parser_drop-length,
  round, Round, drain_frame, drain_stops, drain_goes_on,
}
use starrysky_mc_server.Link.Parser.Bounds.Feeding.{
  feed_discarding, feed_buffered, feed_drained, feed-le,
}
use starrysky_mc_server.Session.{Session}
use starrysky_mc_server.Session.Handlers.{handle_frame, receive_loop, receive_bytes}
use starrysky_mc_server.Session.Reception.Settings.{IsNegotiated}
use starrysky_mc_server.Session.Reception.Settings.Handled.{handle_frame-Steady}

try_one_quiet : (p : Parser) → find_delimiter p.buf ≡ none → (try_one p).0 ≡ none
try_one_quiet p e = elim (Bool-cases (length p.buf == max_encoded_len)) [
  | inl t ↦ rw (try_one-none p e, t) refl
  | inr t ↦ rw (try_one-none p e, t) refl
]

-- A frame is taken out of the buffer.
try_one-shorter :
    (p : Parser) (f : Frame) → (try_one p).0 ≡ some f → length (try_one p).1.buf < length p.buf
try_one-shorter p f h = elim (Option-cases (find_delimiter p.buf)) [
  | inl e ↦ absurd (none-ne-some f (sym (try_one_quiet p e) ∙ h))
  | inr (i, e) ↦ elim (Option-cases (decode_frame (take (suc i) p.buf))) [
    | inl d ↦ absurd (none-ne-some f (sym (ap (λ r. r.0) (try_one_bad p i e d)) ∙ h))
    | inr (g, d) ↦
        rw (try_one_frame p i g e d)
          (omega (arith, parser_drop-length p (suc i), find_delimiter-lt p.buf i e))
  ]
]

drain-shorter :
    (n : ℕ) (p : Parser) (f : Frame)
    → (drain n p).0 ≡ some f
    → length (drain n p).1.buf < length p.buf
unfolding Round
drain-shorter zero p f h = absurd (none-ne-some f (unfold drain in h))
drain-shorter (suc n) p f h = elim (round p) [
  | inl (g, e) ↦ rw (drain_frame n p g e) (try_one-shorter p g e)
  | inr (e, inl same) ↦ absurd (none-ne-some f (sym (ap (λ r. r.0) (drain_stops n p e same)) ∙ h))
  | inr (e, inr less) ↦
      let d = drain_goes_on n p e (λ q. omega arith) in
      rw d (omega (arith, less, drain-shorter n (try_one p).1 f (sym (ap (λ r. r.0) d) ∙ h)))
]

drain-le : (n : ℕ) (p : Parser) → length (drain n p).1.buf ≤ length p.buf
unfolding Round
drain-le zero p = unfold drain in omega arith
drain-le (suc n) p = elim (round p) [
  | inl (g, e) ↦ rw (drain_frame n p g e) (try_one-le p)
  | inr (e, inl same) ↦ rw (drain_stops n p e same) (try_one-le p)
  | inr (e, inr less) ↦
      rw (drain_goes_on n p e (λ q. omega arith)) (omega (arith, less, drain-le n (try_one p).1))
]

feed_loop-nil : (p : Parser) → feed_loop p [] ≡ try_one p
unfolding feed_loop
feed_loop-nil p = refl

feed_nil-shorter :
    (p : Parser) (f : Frame) → (feed p []).0 ≡ some f → length (feed p []).1.buf < length p.buf
feed_nil-shorter p f h = elim (Bool-cases p.discarding) [
  | inl d ↦
      let e = feed_discarding p [] d ∙ feed_loop-nil (record p { buf = [] }) in
      absurd (
        none-ne-some f (
          sym (
            ap (λ r. r.0) e ∙ try_one_quiet (record p { buf = [] }) (unfold find_delimiter in refl))
          ∙ h))
  | inr d ↦ elim (Option-cases (drain (suc (length p.buf)) p).0) [
    | inl e ↦
        let p' = (drain (suc (length p.buf)) p).1 in
        let t = feed_drained p [] d e ∙ feed_loop-nil p' in
        rw t (
          omega (
            arith,
            drain-le (suc (length p.buf)) p,
            try_one-shorter p' f (sym (ap (λ r. r.0) t) ∙ h),
          ))
    | inr (g, e) ↦ rw (feed_buffered p [] g d e) (drain-shorter (suc (length p.buf)) p g e)
  ]
]

-- The session with the parser that a call leaves.
with_parser : Session → Parser → Session
with_parser s p = record s { parser = p }

receive_loop_fails :
    (n : ℕ) (f : Frame) (s : Session)
    → (handle_frame f s).0 ≡ false
    → receive_loop (suc n) (some f) s ≡ (false, (handle_frame f s).1)
unfolding receive_loop
receive_loop_fails n f s e = rw e refl

receive_loop_goes_on :
    (n : ℕ) (f : Frame) (s : Session)
    → (handle_frame f s).0 ≡ true
    → let s' = (handle_frame f s).1 in
      receive_loop (suc n) (some f) s
      ≡ receive_loop n (feed s'.parser []).0 (with_parser s' (feed s'.parser []).1)
unfolding receive_loop with_parser
receive_loop_goes_on n f s e = rw e refl

receive_loop-none : (n : ℕ) (s : Session) → receive_loop n none s ≡ (true, s)
unfolding receive_loop
receive_loop-none n s = refl

-- The loop of `mc_link_session_receive_bytes` takes at most one round more than the parser has bytes
-- left: with any two such bounds it gives the same.
pub receive_loop_enough :
    (n m : ℕ) (result : Option Frame) (s : Session)
    → length s.parser.buf < n
    → length s.parser.buf < m
    → receive_loop n result s ≡ receive_loop m result s
receive_loop_enough n m none s h k = receive_loop-none n s ∙ sym (receive_loop-none m s)
receive_loop_enough zero m (some f) s h k = absurd (omega arith)
receive_loop_enough (suc n) zero (some f) s h k = absurd (omega arith)
receive_loop_enough (suc n) (suc m) (some f) s h k = elim (Bool-cases (handle_frame f s).0) [
  | inr e ↦ receive_loop_fails n f s e ∙ sym (receive_loop_fails m f s e)
  | inl e ↦
      let s' = (handle_frame f s).1 in
      let step = handle_frame-Steady f s in
      let next = with_parser s' (feed s'.parser []).1 in
      receive_loop_goes_on n f s e
      ∙ elim (Option-cases (feed s'.parser []).0) [
        | inl q ↦ rw q (receive_loop-none n next ∙ sym (receive_loop-none m next))
        | inr (g, q) ↦
            let less = feed_nil-shorter s'.parser g q in
            let small : length next.parser.buf < length s.parser.buf =
              (unfold with_parser in omega (arith, less, step.no_longer)) in
            receive_loop_enough n m (feed s'.parser []).0 next (omega arith) (omega arith)
      ]
      ∙ sym (receive_loop_goes_on m f s e)
]

receive_loop-IsNegotiated :
    (n : ℕ) (result : Option Frame) (s : Session)
    → IsNegotiated s
    → IsNegotiated (receive_loop n result s).1
unfolding with_parser
receive_loop-IsNegotiated n none s i = rw (receive_loop-none n s) i
receive_loop-IsNegotiated zero (some f) s i = unfold receive_loop in i
receive_loop-IsNegotiated (suc n) (some f) s i =
    let step = (handle_frame-Steady f s).settings i in
    elim (Bool-cases (handle_frame f s).0) [
      | inr e ↦ rw (receive_loop_fails n f s e) step
      | inl e ↦
          let s' = (handle_frame f s).1 in
          rw (receive_loop_goes_on n f s e) (
            receive_loop-IsNegotiated n (feed s'.parser []).0 (with_parser s' (feed s'.parser []).1)
              (record {
                payload_positive = step.payload_positive;
                payload_fits = step.payload_fits;
                credit_positive = step.credit_positive;
                credit_fits = step.credit_fits;
              }))
    ]

-- Whatever bytes are received, negotiated settings within their bounds, a payload from 1 to 497
-- and a credit from 1 to 512, are within them afterwards.
pub receive_bytes-IsNegotiated :
    (src : List ℕ) (s : Session) → IsNegotiated s → IsNegotiated (receive_bytes src s).1
unfolding receive_bytes
receive_bytes-IsNegotiated src s i =
    receive_loop-IsNegotiated (suc max_encoded_len) (feed s.parser src).0
      (record s { parser = (feed s.parser src).1 })
      (record {
        payload_positive = i.payload_positive;
        payload_fits = i.payload_fits;
        credit_positive = i.credit_positive;
        credit_fits = i.credit_fits;
      })

-- On a session whose parser holds at most 512 bytes, the loop over the received frames ends
-- within the 513 rounds that the model gives it: any greater number gives the same.
pub receive_bytes_enough :
    (src : List ℕ) (s : Session) (rounds : ℕ)
    → length s.parser.buf ≤ max_encoded_len
    → max_encoded_len < rounds
    → receive_bytes src s
      ≡ receive_loop rounds (feed s.parser src).0 (record s { parser = (feed s.parser src).1 })
unfolding receive_bytes
receive_bytes_enough src s rounds h k =
    let n = feed-le s.parser src h in
    receive_loop_enough (suc max_encoded_len) rounds (feed s.parser src).0
      (record s { parser = (feed s.parser src).1 }) (omega arith) (omega arith)
