-- ===== src/Link/Parser/Delivery.antt =====
-- mc_link.c: a frame that arrives in pieces is delivered, and the parser recovers behind a delimiter.
pub mod Whole
use starrysky_mc_server.Prelude.{
  ℕ, suc, ◌+◌, ◌^◌, ◌≤◌, ◌<◌, ◌≡◌, refl, ap, sym, ◌∙◌, arith, List, [], ◌∷◌, ◌++◌, true, false,
  Option, none, some, length, take, ◌==◌, length-append, All, All-append, append_assoc, append-nil,
  take_all,
}
use mathlib.Core.Path.{subst}
use mathlib.Core.List.{append_cancel_right}
use mathlib.Core.Option.{some-injective}
use starrysky_mc_server.Link.Frame.{Frame, max_payload, max_encoded_len, encode, decode_frame}
use starrysky_mc_server.Link.Frame.RoundTrip.{decode_frame-encode}
use starrysky_mc_server.Link.Cobs.Blocks.{IsNonzero}
use starrysky_mc_server.Link.Parser.{
  Parser, parser_drop, find_delimiter, try_one, drain, stash, feed_byte, feed_loop, feed,
}
use starrysky_mc_server.Link.Parser.Bounds.{try_one-none, try_one_frame, drain_stops}
use starrysky_mc_server.Link.Parser.Bounds.Feeding.{
  feed_byte_discarding, feed_byte_resumes, feed_byte_delimiter, feed_byte_plain, feed_discarding,
  feed_drained,
}

pub find_delimiter-none : (xs : List ℕ) → All IsNonzero xs → find_delimiter xs ≡ none
unfolding find_delimiter
find_delimiter-none [] h = refl
find_delimiter-none (x ∷ xs) h = ground (arith, find_delimiter-none xs h.1)

pub find_delimiter_first :
    (xs rest : List ℕ) → All IsNonzero xs → find_delimiter (xs ++ (0 ∷ rest)) ≡ some (length xs)
unfolding find_delimiter
find_delimiter_first [] rest h = ground arith
find_delimiter_first (x ∷ xs) rest h = ground (arith, find_delimiter_first xs rest h.1)

-- A parser that waits for the rest of a frame.
pub record IsWaiting (p : Parser) : Type 0 where
  pub gathers : p.discarding ≡ false
  pub nonzero : All IsNonzero p.buf
  pub short : length p.buf < max_encoded_len

pub try_one_waiting : (p : Parser) → IsWaiting p → try_one p ≡ (none, p)
try_one_waiting p w =
    let t : (length p.buf == max_encoded_len) ≡ false = ground (arith, w.short) in
    try_one-none p (find_delimiter-none p.buf w.nonzero) ∙ rw t refl

pub drain_waiting : (n : ℕ) (p : Parser) → IsWaiting p → drain (suc n) p ≡ (none, p)
drain_waiting n p w =
    let t = try_one_waiting p w in
    drain_stops n p (ap (λ r. r.0) t) (ap (λ r. length r.1.buf) t) ∙ ap (λ r. (none, r.1)) t

pub feed_waiting : (p : Parser) (src : List ℕ) → IsWaiting p → feed p src ≡ feed_loop p src
feed_waiting p src w =
    let t = drain_waiting (length p.buf) p w in
    feed_drained p src w.gathers (ap (λ r. r.0) t) ∙ ap (λ r. feed_loop r.1 src) t

pub feed_loop_goes_on :
    (p p' : Parser) (byte : ℕ) (src : List ℕ)
    → feed_byte p byte ≡ (none, p')
    → feed_loop p (byte ∷ src) ≡ feed_loop p' src
unfolding feed_loop
feed_loop_goes_on p p' byte src e =
    ap
      (λ (r : Option Frame × Parser). elim r.0 [
        | some frame ↦ (some frame, stash r.1 src)
        | none ↦ feed_loop r.1 src
      ])
      e

pub feed_loop_frame :
    (p p' : Parser) (byte : ℕ) (src : List ℕ) (f : Frame)
    → feed_byte p byte ≡ (some f, p')
    → feed_loop p (byte ∷ src) ≡ (some f, stash p' src)
unfolding feed_loop
feed_loop_frame p p' byte src f e =
    ap
      (λ (r : Option Frame × Parser). elim r.0 [
        | some frame ↦ (some frame, stash r.1 src)
        | none ↦ feed_loop r.1 src
      ])
      e

-- Bytes before a delimiter are gathered.
pub feed_loop_gathers :
    (xs rest : List ℕ) (p : Parser)
    → p.discarding ≡ false
    → All IsNonzero xs
    → length p.buf + length xs < max_encoded_len
    → feed_loop p (xs ++ rest) ≡ feed_loop (record p { buf = p.buf ++ xs }) rest
feed_loop_gathers [] rest p d nz h =
    ap (λ b. feed_loop (record p { buf = b }) rest) (sym (append-nil p.buf))
feed_loop_gathers (x ∷ xs) rest p d nz h =
    let p' = record p { buf = p.buf ++ (x ∷ []) } in
    feed_loop_goes_on p p' x (xs ++ rest)
      (feed_byte_plain p x d (λ e. omega (arith, nz.0)) (omega arith))
    ∙ feed_loop_gathers xs rest p' d nz.1 (omega (arith, length-append p.buf (x ∷ [])))
    ∙ ap (λ b. feed_loop (record p { buf = b }) rest) (append_assoc p.buf (x ∷ []) xs)

-- A parser that waits for the rest of a frame, fed input without a delimiter that leaves its
-- buffer short of 512 bytes, reports nothing, gathers the input and goes on waiting.
pub feed_gathers :
    (p : Parser) (src : List ℕ)
    → IsWaiting p
    → All IsNonzero src
    → length p.buf + length src < max_encoded_len
    → (feed p src ≡ (none, record p { buf = p.buf ++ src }))
      × IsWaiting (record p { buf = p.buf ++ src })
feed_gathers p src w nz h =
    let p' = record p { buf = p.buf ++ src } in
    let w' : IsWaiting p' = record {
      gathers = w.gathers;
      nonzero = All-append IsNonzero p.buf src w.nonzero nz;
      short = omega (arith, length-append p.buf src);
    } in
    (
      feed_waiting p src w
          ∙ ap (feed_loop p) (sym (append-nil src))
          ∙ feed_loop_gathers src [] p w.gathers nz h
          ∙ (unfold feed_loop in try_one_waiting p' w'),
      w',
    )

pub try_one_complete :
    (p : Parser) (xs : List ℕ) (f : Frame)
    → All IsNonzero xs
    → p.buf ≡ xs ++ (0 ∷ [])
    → decode_frame (xs ++ (0 ∷ [])) ≡ some f
    → try_one p ≡ (some f, record p { buf = [] })
try_one_complete p xs f nz e d =
    let n : length (xs ++ (0 ∷ [])) ≡ suc (length xs) = omega (arith, length-append xs (0 ∷ [])) in
    let whole : take (suc (length xs)) p.buf ≡ xs ++ (0 ∷ []) =
      ap (take (suc (length xs))) e ∙ take_all (suc (length xs)) (xs ++ (0 ∷ [])) (omega arith) in
    let dropped : parser_drop p (suc (length xs)) ≡ record p { buf = [] } =
      unfold parser_drop in rw (e, n) (ground arith) in
    try_one_frame p (length xs) f (ap find_delimiter e ∙ find_delimiter_first xs [] nz)
      (ap decode_frame whole ∙ d)
    ∙ ap (λ q. (some f, q)) dropped

pub feed_loop_delivers :
    (p : Parser) (xs rest : List ℕ) (f : Frame)
    → IsWaiting p
    → All IsNonzero xs
    → length p.buf + length xs < max_encoded_len
    → decode_frame ((p.buf ++ xs) ++ (0 ∷ [])) ≡ some f
    → feed_loop p (xs ++ (0 ∷ rest)) ≡ (some f, stash (record p { buf = [] }) rest)
feed_loop_delivers p xs rest f w nz h d =
    let p' = record p { buf = p.buf ++ xs } in
    feed_loop_gathers xs (0 ∷ rest) p w.gathers nz h
    ∙ feed_loop_frame p' (record p { buf = [] }) 0 rest f
        (feed_byte_delimiter p' w.gathers
          ∙ try_one_complete (record p' { buf = p'.buf ++ (0 ∷ []) }) (p.buf ++ xs) f
              (All-append IsNonzero p.buf xs w.nonzero nz) refl d)
