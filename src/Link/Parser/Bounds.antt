-- ===== src/Link/Parser/Bounds.antt =====
-- mc_link.c: the parser keeps to its buffer, and its loop over that ends.
pub mod Feeding
use starrysky_mc_server.Prelude.{
  ℕ, zero, suc, ◌-◌, ◌≤◌, ◌<◌, ◌≡◌, ◌≢◌, ◌⊎◌, inl, inr, refl, sym, ◌∙◌, arith, List, [], ◌∷◌, ◌++◌,
  true, false, none, some, length, take, ltb, ◌==◌, if◌then◌else◌, length-append, length-drop,
  Option-cases, Bool-cases, ==→eq,
}
use starrysky_mc_server.Link.Frame.{Frame, max_encoded_len, decode_frame}
use starrysky_mc_server.Link.Parser.{
  Parser, parser_drop, find_delimiter, overflow, count_error, try_one, drain, stash, feed_byte,
  feed_loop, feed,
}

pub find_delimiter-lt : (buf : List ℕ) (i : ℕ) → find_delimiter buf ≡ some i → i < length buf
unfolding find_delimiter
find_delimiter-lt [] i e = cc
find_delimiter-lt (b ∷ buf) i e = elim (Option-cases (find_delimiter buf)) [
  | inl n ↦ ground arith
  | inr (j, n) ↦ ground (arith, find_delimiter-lt buf j n)
]

pub try_one-none :
    (p : Parser)
    → find_delimiter p.buf ≡ none
    → try_one p ≡ (if length p.buf == max_encoded_len then (none, overflow p) else (none, p))
unfolding try_one
try_one-none p e = rw (e, try_one) refl

pub try_one_frame :
    (p : Parser) (i : ℕ) (f : Frame)
    → find_delimiter p.buf ≡ some i
    → decode_frame (take (suc i) p.buf) ≡ some f
    → try_one p ≡ (some f, parser_drop p (suc i))
unfolding try_one
try_one_frame p i f e d = rw (e, try_one) (rw d refl)

pub try_one_bad :
    (p : Parser) (i : ℕ)
    → find_delimiter p.buf ≡ some i
    → decode_frame (take (suc i) p.buf) ≡ none
    → try_one p ≡ (none, parser_drop (count_error p i) (suc i))
unfolding try_one
try_one_bad p i e d = rw (e, try_one) (rw d refl)

pub parser_drop-length : (p : Parser) (n : ℕ) → length (parser_drop p n).buf ≡ length p.buf - n
unfolding parser_drop
parser_drop-length p n = ground (arith, length-drop n p.buf)

pub count_error-length : (p : Parser) (i : ℕ) → length (count_error p i).buf ≡ length p.buf
unfolding count_error
count_error-length p i = ground arith

-- What one attempt leaves: the buffer without the piece up to the delimiter, nothing, or the buffer.
pub try_one-lt :
    (p : Parser) → length p.buf ≤ max_encoded_len → length (try_one p).1.buf < max_encoded_len
unfolding overflow
try_one-lt p h = elim (Option-cases (find_delimiter p.buf)) [
  | inl e ↦ rw (try_one-none p e) (ground arith)
  | inr (i, e) ↦
      let lt = find_delimiter-lt p.buf i e in
      elim (Option-cases (decode_frame (take (suc i) p.buf))) [
        | inl d ↦
            rw (try_one_bad p i e d)
              (omega (arith, parser_drop-length (count_error p i) (suc i), count_error-length p i))
        | inr (f, d) ↦ rw (try_one_frame p i f e d) (omega (arith, parser_drop-length p (suc i)))
      ]
]

pub try_one-le : (p : Parser) → length (try_one p).1.buf ≤ length p.buf
unfolding overflow
try_one-le p = elim (Option-cases (find_delimiter p.buf)) [
  | inl e ↦ rw (try_one-none p e) (ground arith)
  | inr (i, e) ↦ elim (Option-cases (decode_frame (take (suc i) p.buf))) [
    | inl d ↦
        rw (try_one_bad p i e d)
          (omega (arith, parser_drop-length (count_error p i) (suc i), count_error-length p i))
    | inr (f, d) ↦ rw (try_one_frame p i f e d) (omega (arith, parser_drop-length p (suc i)))
  ]
]

pub drain_frame :
    (n : ℕ) (p : Parser) (f : Frame)
    → (try_one p).0 ≡ some f
    → drain (suc n) p ≡ (some f, (try_one p).1)
unfolding drain
drain_frame n p f e = rw (e, drain) refl

pub drain_stops :
    (n : ℕ) (p : Parser)
    → (try_one p).0 ≡ none
    → length (try_one p).1.buf ≡ length p.buf
    → drain (suc n) p ≡ (none, (try_one p).1)
unfolding drain
drain_stops n p e h =
    let t : (length (try_one p).1.buf == length p.buf) ≡ true = ground arith in
    rw (e, drain) (rw t refl)

pub drain_goes_on :
    (n : ℕ) (p : Parser)
    → (try_one p).0 ≡ none
    → length (try_one p).1.buf ≢ length p.buf
    → drain (suc n) p ≡ drain n (try_one p).1
unfolding drain
drain_goes_on n p e h =
    let t : (length (try_one p).1.buf == length p.buf) ≡ false = ground arith in
    rw (e, drain) (rw t refl)

-- One attempt of the drain loop: a frame, no change of length, or a shorter buffer.
unfoldable pub Round : Parser → Type 0
Round p =
    ((f : Frame) × ((try_one p).0 ≡ some f))
    ⊎ (((try_one p).0 ≡ none)
        × ((length (try_one p).1.buf ≡ length p.buf) ⊎ (length (try_one p).1.buf < length p.buf)))

pub round : (p : Parser) → Round p
unfolding Round
round p = elim (Option-cases (try_one p).0) [
  | inr (f, e) ↦ inl (f, e)
  | inl e ↦ elim (Bool-cases (ltb (length (try_one p).1.buf) (length p.buf))) [
    | inl l ↦ inr (e, inr (ground arith))
    | inr l ↦ inr (e, inl (ground (arith, try_one-le p)))
  ]
]

-- The loop over the buffered frames has come to its end after one round more than the buffer has
-- bytes: any greater bound gives the same.
pub drain_enough :
    (n m : ℕ) (p : Parser) → length p.buf < n → length p.buf < m → drain n p ≡ drain m p
unfolding Round
drain_enough zero m p h k = absurd (omega arith)
drain_enough (suc n) zero p h k = absurd (omega arith)
drain_enough (suc n) (suc m) p h k = elim (round p) [
  | inl (f, e) ↦ drain_frame n p f e ∙ sym (drain_frame m p f e)
  | inr (e, inl same) ↦ drain_stops n p e same ∙ sym (drain_stops m p e same)
  | inr (e, inr less) ↦
      drain_goes_on n p e (λ q. omega arith)
      ∙ drain_enough n m (try_one p).1 (omega arith) (omega arith)
      ∙ sym (drain_goes_on m p e (λ q. omega arith))
]

pub drain-lt :
    (n : ℕ) (p : Parser)
    → length p.buf < max_encoded_len
    → length (drain n p).1.buf < max_encoded_len
unfolding Round
drain-lt zero p h = unfold drain in h
drain-lt (suc n) p h =
    let less = try_one-lt p (omega arith) in
    elim (round p) [
      | inl (f, e) ↦ rw (drain_frame n p f e) less
      | inr (e, inl same) ↦ rw (drain_stops n p e same) less
      | inr (e, inr l) ↦ rw (drain_goes_on n p e (λ q. omega arith)) (drain-lt n (try_one p).1 less)
    ]

pub drain-suc-lt :
    (n : ℕ) (p : Parser)
    → length p.buf ≤ max_encoded_len
    → length (drain (suc n) p).1.buf < max_encoded_len
unfolding Round
drain-suc-lt n p h =
    let less = try_one-lt p h in
    elim (round p) [
      | inl (f, e) ↦ rw (drain_frame n p f e) less
      | inr (e, inl same) ↦ rw (drain_stops n p e same) less
      | inr (e, inr l) ↦ rw (drain_goes_on n p e (λ q. omega arith)) (drain-lt n (try_one p).1 less)
    ]
