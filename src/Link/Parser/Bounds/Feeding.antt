-- ===== src/Link/Parser/Bounds/Feeding.antt =====
-- mc_link.c: the parser keeps to its buffer, whatever it is fed.
use starrysky_mc_server.Prelude.{
  ℕ, suc, ◌≤◌, ◌<◌, ◌≡◌, ◌≢◌, inl, inr, arith, List, [], ◌∷◌, ◌++◌, true, false, none, some, length,
  ◌==◌, length-append, Option-cases, Bool-cases, ==→eq,
}
use starrysky_mc_server.Link.Frame.{Frame, max_encoded_len}
use starrysky_mc_server.Link.Parser.{
  Parser, overflow, try_one, drain, stash, feed_byte, feed_loop, feed,
}
use starrysky_mc_server.Link.Parser.Bounds.{try_one-lt, drain-suc-lt}

pub feed_byte_discarding :
    (p : Parser) (byte : ℕ) → p.discarding ≡ true → byte ≢ 0 → feed_byte p byte ≡ (none, p)
unfolding feed_byte
feed_byte_discarding p byte d h = ground arith

pub feed_byte_resumes :
    (p : Parser) → p.discarding ≡ true → feed_byte p 0 ≡ (none, record p { discarding = false })
unfolding feed_byte
feed_byte_resumes p d = ground arith

pub feed_byte_delimiter :
    (p : Parser)
    → p.discarding ≡ false
    → feed_byte p 0 ≡ try_one (record p { buf = p.buf ++ (0 ∷ []) })
unfolding feed_byte
feed_byte_delimiter p d = ground arith

pub feed_byte_plain :
    (p : Parser) (byte : ℕ)
    → p.discarding ≡ false
    → byte ≢ 0
    → length p.buf < 511
    → feed_byte p byte ≡ (none, record p { buf = p.buf ++ (byte ∷ []) })
unfolding feed_byte
feed_byte_plain p byte d z h = ground (arith, length-append p.buf (byte ∷ []))

feed_byte_full :
    (p : Parser) (byte : ℕ)
    → p.discarding ≡ false
    → byte ≢ 0
    → length p.buf ≡ 511
    → feed_byte p byte ≡ (none, overflow (record p { buf = p.buf ++ (byte ∷ []) }))
unfolding feed_byte
feed_byte_full p byte d z h = ground (arith, length-append p.buf (byte ∷ []))

pub feed_discarding :
    (p : Parser) (src : List ℕ)
    → p.discarding ≡ true
    → feed p src ≡ feed_loop (record p { buf = [] }) src
unfolding feed
feed_discarding p src d = ground arith

pub feed_buffered :
    (p : Parser) (src : List ℕ) (f : Frame)
    → p.discarding ≡ false
    → (drain (suc (length p.buf)) p).0 ≡ some f
    → feed p src ≡ (some f, (drain (suc (length p.buf)) p).1)
unfolding feed
feed_buffered p src f d e = ground arith

pub feed_drained :
    (p : Parser) (src : List ℕ)
    → p.discarding ≡ false
    → (drain (suc (length p.buf)) p).0 ≡ none
    → feed p src ≡ feed_loop (drain (suc (length p.buf)) p).1 src
unfolding feed
feed_drained p src d e = ground arith

feed_byte-lt :
    (p : Parser) (byte : ℕ)
    → length p.buf < max_encoded_len
    → length (feed_byte p byte).1.buf < max_encoded_len
unfolding overflow
feed_byte-lt p byte h = elim (Bool-cases p.discarding) [
  | inl d ↦ ground (arith, feed_byte_discarding p byte d, feed_byte_resumes p d)
  | inr d ↦ elim (Bool-cases (byte == 0)) [
    | inl z ↦
        rw (==→eq byte 0 z, feed_byte_delimiter p d)
          (try_one-lt _ (omega (arith, length-append p.buf (0 ∷ []))))
    | inr z ↦ elim (Bool-cases (length p.buf == 511)) [
      | inl k ↦
          rw (feed_byte_full p byte d (λ q. ground arith) (==→eq (length p.buf) 511 k))
            (omega arith)
      | inr k ↦
          rw (feed_byte_plain p byte d (λ q. ground arith) (ground arith))
            (ground (arith, length-append p.buf (byte ∷ [])))
    ]
  ]
]

stash-le :
    (p : Parser) (remaining : List ℕ)
    → length p.buf < max_encoded_len
    → length (stash p remaining).buf ≤ max_encoded_len
unfolding stash overflow
stash-le p remaining h = ground (arith, length-append p.buf remaining)

feed_loop-le :
    (src : List ℕ) (p : Parser)
    → length p.buf < max_encoded_len
    → length (feed_loop p src).1.buf ≤ max_encoded_len
unfolding feed_loop
feed_loop-le [] p h = omega (arith, try_one-lt p (omega arith))
feed_loop-le (byte ∷ src) p h = elim (Option-cases (feed_byte p byte).0) [
  | inl e ↦ rw (e, feed_loop) (feed_loop-le src (feed_byte p byte).1 (feed_byte-lt p byte h))
  | inr (f, e) ↦ rw (e, feed_loop) (stash-le (feed_byte p byte).1 src (feed_byte-lt p byte h))
]

-- A parser that holds at most 512 bytes, the size of its buffer, holds at most 512 bytes after
-- any input.
pub feed-le :
    (p : Parser) (src : List ℕ)
    → length p.buf ≤ max_encoded_len
    → length (feed p src).1.buf ≤ max_encoded_len
feed-le p src h = elim (Bool-cases p.discarding) [
  | inl d ↦ rw (feed_discarding p src d) (feed_loop-le src (record p { buf = [] }) (omega arith))
  | inr d ↦ elim (Option-cases (drain (suc (length p.buf)) p).0) [
    | inl e ↦ rw (feed_drained p src d e) (feed_loop-le src _ (drain-suc-lt (length p.buf) p h))
    | inr (f, e) ↦ rw (feed_buffered p src f d e) (omega (arith, drain-suc-lt (length p.buf) p h))
  ]
]
