-- ===== src/Link/Parser/Delivery/Whole.antt =====
-- mc_link.c: whole frames are delivered, also behind what was lost.
use starrysky_mc_server.Prelude.{
  ℕ, ◌+◌, ◌%◌, ◌⊎◌, inl, inr, Bool, Option, not, ◌&&◌, ◌||◌, ltb, ◌==◌, ==→eq, Bool-cases, u32_mod,
  ltb→lt, ◌^◌, ◌≤◌, ◌<◌, ◌≡◌, refl, ap, sym, ◌∙◌, arith, List, [], ◌∷◌, ◌++◌, true, false, none,
  some, length, length-append, All, append_assoc,
}
use mathlib.Core.Bool.{false≢true}
use mathlib.Core.Path.{subst}
use mathlib.Core.List.{append_cancel_right}
use mathlib.Core.Option.{some-injective}
use starrysky_mc_server.Link.Frame.{
  Frame, max_payload, max_encoded_len, encode, decode_frame, bytes_contain,
}
use starrysky_mc_server.Link.Frame.RoundTrip.{decode_frame-encode}
use starrysky_mc_server.Link.Cobs.Blocks.{IsNonzero}
use starrysky_mc_server.Link.Parser.{Parser, overflow, stash, feed_loop, feed}
use starrysky_mc_server.Link.Parser.Bounds.Feeding.{
  feed_byte_discarding, feed_byte_resumes, feed_discarding,
}
use starrysky_mc_server.Link.Parser.Delivery.{
  IsWaiting, feed_waiting, feed_loop_goes_on, feed_gathers, feed_loop_delivers,
}

feed_loop_resumes :
    (noise src : List ℕ) (p : Parser)
    → p.discarding ≡ true
    → All IsNonzero noise
    → feed_loop p (noise ++ (0 ∷ src)) ≡ feed_loop (record p { discarding = false }) src
feed_loop_resumes [] src p d nz =
    feed_loop_goes_on p (record p { discarding = false }) 0 src (feed_byte_resumes p d)
feed_loop_resumes (x ∷ noise) src p d nz =
    feed_loop_goes_on p p x (noise ++ (0 ∷ src))
      (feed_byte_discarding p x d (λ e. omega (arith, nz.0)))
    ∙ feed_loop_resumes noise src p d nz.1

-- What comes behind a frame is kept where it fits the buffer of 512 bytes, or fills it and has a
-- delimiter.
abbrev pub IsKept : List ℕ → Type 0
IsKept rest =
    (length rest < 512)
    ⊎ ((length rest ≡ 512) × (front : List ℕ) × (back : List ℕ) × (rest ≡ front ++ (0 ∷ back)))

-- It is lost where it is longer, or fills the buffer without a delimiter.
abbrev pub IsLost : List ℕ → Type 0
IsLost rest = (512 < length rest) ⊎ ((length rest ≡ 512) × All IsNonzero rest)

-- The parser that has kept `rest`, and the one that has lost it and discards up to a delimiter.
abbrev pub keeping : Parser → List ℕ → Parser
keeping p rest = record p { buf = rest; discarding = false }

abbrev pub losing : Parser → Parser
losing p = record p {
  buf = [];
  length_error_count = (p.length_error_count + 1) % u32_mod;
  resync_count = (p.resync_count + 1) % u32_mod;
  discarding = true;
}

-- The call delivers the frame, and keeps or loses what comes behind it.
abbrev pub Delivers : Frame → List ℕ → Parser → Option Frame × Parser → Type 0
Delivers f rest p r =
    (IsKept rest × (r ≡ (some f, keeping p rest))) ⊎ (IsLost rest × (r ≡ (some f, losing p)))

delimited :
    (rest : List ℕ)
    → bytes_contain 0 rest ≡ true
    → (front : List ℕ) × (back : List ℕ) × (rest ≡ front ++ (0 ∷ back))
unfolding bytes_contain
delimited [] h = absurd (false≢true h)
delimited (b ∷ rest) h = elim (Bool-cases (b == 0)) [
  | inl e ↦ ([], rest, ap (λ c. c ∷ rest) (==→eq b 0 e))
  | inr e ↦
      let (front, back, f) = delimited rest (ground arith) in (b ∷ front, back, ap (λ l. b ∷ l) f)
]

undelimited : (rest : List ℕ) → bytes_contain 0 rest ≡ false → All IsNonzero rest
unfolding bytes_contain
undelimited [] h = tt
undelimited (b ∷ rest) h = (ground arith, undelimited rest (ground arith))

abbrev is_lost : List ℕ → Bool
is_lost rest = ltb 512 (length rest) || ((length rest == 512) && not (bytes_contain 0 rest))

stash_keeps :
    (p : Parser) (rest : List ℕ) → is_lost rest ≡ false → stash (keeping p []) rest ≡ keeping p rest
unfolding stash
stash_keeps p [] h = refl
stash_keeps p (c ∷ rest) h =
    let some_rest : (length (c ∷ rest) == 0) ≡ false = ground arith in
    let short : ltb 512 (length (c ∷ rest)) ≡ false = ground arith in
    let room : ((length (c ∷ rest) == 512) && not (bytes_contain 0 (c ∷ rest))) ≡ false =
      ground arith in
    rw (some_rest, short, room) refl

stash_loses :
    (p : Parser) (rest : List ℕ) → is_lost rest ≡ true → stash (keeping p []) rest ≡ losing p
unfolding stash overflow
stash_loses p [] h = absurd (false≢true h)
stash_loses p (c ∷ rest) h =
    let some_rest : (length (c ∷ rest) == 0) ≡ false = ground arith in
    elim (Bool-cases (ltb 512 (length (c ∷ rest)))) [
      | inl long ↦ rw (some_rest, long) refl
      | inr short ↦
          let full : ((length (c ∷ rest) == 512) && not (bytes_contain 0 (c ∷ rest))) ≡ true =
            ground arith in
          rw (some_rest, short, full) refl
    ]

IsKept-test : (rest : List ℕ) → is_lost rest ≡ false → IsKept rest
IsKept-test rest h = elim (Bool-cases (length rest == 512)) [
  | inl full ↦
      let (front, back, e) = delimited rest (ground arith) in inr (==→eq _ _ full, front, back, e)
  | inr other ↦ inl (ground arith)
]

IsLost-test : (rest : List ℕ) → is_lost rest ≡ true → IsLost rest
IsLost-test rest h = elim (Bool-cases (ltb 512 (length rest))) [
  | inl long ↦ inl (ltb→lt _ _ long)
  | inr short ↦ inr (ground arith, undelimited rest (ground arith))
]

stash-Delivers :
    (f : Frame) (p : Parser) (rest : List ℕ) (r : Option Frame × Parser)
    → r ≡ (some f, stash (keeping p []) rest)
    → Delivers f rest p r
stash-Delivers f p rest r e = elim (Bool-cases (is_lost rest)) [
  | inl lost ↦ inr (IsLost-test rest lost, e ∙ ap (λ q. (some f, q)) (stash_loses p rest lost))
  | inr kept ↦ inl (IsKept-test rest kept, e ∙ ap (λ q. (some f, q)) (stash_keeps p rest kept))
]

feed_stashes :
    (p : Parser) (second rest : List ℕ) (f : Frame)
    → IsWaiting p
    → All IsNonzero second
    → length p.buf + length second < max_encoded_len
    → decode_frame ((p.buf ++ second) ++ (0 ∷ [])) ≡ some f
    → feed p (second ++ (0 ∷ rest)) ≡ (some f, stash (record p { buf = [] }) rest)
feed_stashes p second rest f w nz h d =
    feed_waiting p (second ++ (0 ∷ rest)) w ∙ feed_loop_delivers p second rest f w nz h d

-- A parser that waits for the rest of a frame, fed bytes without a zero that complete the
-- encoding of a frame within 512 bytes, a delimiter and further bytes, delivers the frame, and
-- the further bytes are then in the buffer where they are shorter than 512, or 512 with a
-- delimiter among them; otherwise they are lost, which counts as an error of length and a new
-- synchronisation, the buffer is empty and the parser discards.
pub feed-Delivers :
    (p : Parser) (second rest : List ℕ) (f : Frame)
    → IsWaiting p
    → All IsNonzero second
    → length p.buf + length second < max_encoded_len
    → decode_frame ((p.buf ++ second) ++ (0 ∷ [])) ≡ some f
    → Delivers f rest p (feed p (second ++ (0 ∷ rest)))
feed-Delivers p second rest f w nz h d = stash-Delivers f p rest (feed p (second ++ (0 ∷ rest))) (
    feed_stashes p second rest f w nz h d
    ∙ ap (λ b. (some f, stash (record p { buf = []; discarding = b }) rest)) w.gathers)

-- A parser that discards an overlong piece, fed bytes without a zero, a delimiter, the encoding
-- of a frame within 512 bytes and further bytes, delivers that frame; where the further bytes are
-- shorter than 512, or 512 with a delimiter among them, they are then in the buffer and the
-- parser discards no longer; otherwise they are lost, which counts as an error of length and a
-- new synchronisation, the buffer is empty and the parser discards.
pub feed_recovers :
    (p : Parser) (noise enc rest : List ℕ) (f : Frame)
    → p.discarding ≡ true
    → All IsNonzero noise
    → All IsNonzero enc
    → length enc < max_encoded_len
    → decode_frame (enc ++ (0 ∷ [])) ≡ some f
    → Delivers f rest p (feed p (noise ++ (0 ∷ (enc ++ (0 ∷ rest)))))
feed_recovers p noise enc rest f d nn ne h dec =
    let p' = keeping p [] in
    let w : IsWaiting p' = record { gathers = refl; nonzero = tt; short = omega arith } in
    stash-Delivers f p rest (feed p (noise ++ (0 ∷ (enc ++ (0 ∷ rest))))) (
      feed_discarding p _ d
      ∙ feed_loop_resumes noise (enc ++ (0 ∷ rest)) (record p { buf = [] }) d nn
      ∙ feed_loop_delivers p' enc rest f w ne (omega arith) dec)

All-split : (xs ys : List ℕ) → All IsNonzero (xs ++ ys) → All IsNonzero xs × All IsNonzero ys
All-split [] ys h = (tt, h)
All-split (x ∷ xs) ys h = let (a, b) = All-split xs ys h.1 in ((h.0, a), b)

-- A frame with 16-bit numbers and a payload of at most 497 bytes, encoded into a buffer with room
-- for 512 bytes and fed to an empty parser that does not discard, in two calls divided anywhere
-- before the delimiter: the first call reports nothing, the second delivers the frame as it was
-- encoded, and the parser is empty.
pub feed-encode :
    (p : Parser) (frame_type seq ack : ℕ) (payload out : List ℕ) (out_cap : ℕ)
    (first second : List ℕ)
    → p.discarding ≡ false
    → p.buf ≡ []
    → seq < 2 ^ 16
    → ack < 2 ^ 16
    → length payload ≤ max_payload
    → 512 ≤ out_cap
    → out_cap ≤ length out
    → out_cap ≤ 2 ^ 31
    → encode frame_type seq ack payload out out_cap ≡ some (first ++ (second ++ (0 ∷ [])))
    → ((feed p first).0 ≡ none)
      × (feed (feed p first).1 (second ++ (0 ∷ [])) ≡ (
        some (record {
          frame_type = frame_type;
          flags = 0;
          seq = seq;
          ack = ack;
          payload = payload;
        }),
        record p { buf = [] },
      ))
feed-encode p t s a payload out out_cap first second g e hs ha h room mem small ok =
    let (enc, eq, nz, short, dec) =
      decode_frame-encode t s a payload out out_cap hs ha h room mem small in
    let same : first ++ second ≡ enc =
      append_cancel_right (first ++ second) enc (0 ∷ [])
        (append_assoc first second (0 ∷ []) ∙ some-injective _ _ (sym ok ∙ eq)) in
    let (n1, n2) = All-split first second (subst (All IsNonzero) (sym same) nz) in
    let n : length first + length second ≤ 511 =
      omega (arith, ap length same, length-append first second) in
    let w : IsWaiting p = record {
      gathers = g;
      nonzero = subst (All IsNonzero) (sym e) tt;
      short = omega (arith, ap length e);
    } in
    let (quiet, w') = feed_gathers p first w n1 (omega (arith, ap length e)) in
    let p' = record p { buf = p.buf ++ first } in
    let gathered : p.buf ++ first ≡ first = ap (λ b. b ++ first) e in
    let delivered =
      feed_stashes p' second []
        (record { frame_type = t; flags = 0; seq = s; ack = a; payload = payload }) w' n2
        (omega (arith, ap length gathered))
        (ap (λ b. decode_frame ((b ++ second) ++ (0 ∷ []))) gathered
          ∙ ap (λ b. decode_frame (b ++ (0 ∷ []))) same
          ∙ dec) in
    (
      ap (λ r. r.0) quiet,
      ap (λ r. feed r.1 (second ++ (0 ∷ []))) quiet ∙ delivered ∙ (unfold stash in refl),
    )
