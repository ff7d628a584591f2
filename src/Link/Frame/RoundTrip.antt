-- ===== src/Link/Frame/RoundTrip.antt =====
-- mc_link.c: what `mc_link_encode` writes, `mc_link_decode_frame` reads back.
use starrysky_mc_server.Prelude.{
  get_or-append, ℕ, ◌+◌, ◌-◌, ◌/◌, ◌%◌, ◌^◌, ◌≤◌, ◌<◌, ◌≡◌, refl, ap, ap₂, ◌∙◌, arith, List, [],
  ◌∷◌, ◌++◌, false, none, some, length, set, get_or, take, drop, ltb, ◌==◌, Act, ◌>>◌, ==-refl,
  le→ltb, lt→ltb, bit_and-eight, bit_or-shl, length-append, take-append, All, take-suc-set,
  Bool-cases, length-take, inl, inr,
}
use native.Mathlib.Numerals.{add-one}
use mathlib.Core.Path.{fun_ext}
use starrysky_mc_server.Link.Crc.{crc16_update, crc16, crc16_update-append, crc16_update-lt}
use starrysky_mc_server.Link.Cobs.{Encoder, stream_init, write_byte, stream_write, stream_finish}
use starrysky_mc_server.Link.Cobs.Decoding.{cobs_decode-eq}
use starrysky_mc_server.Link.Cobs.Blocks.{IsNonzero, Encodes}
use starrysky_mc_server.Link.Cobs.Streaming.{Finished, stream-Finished}
use starrysky_mc_server.Link.Frame.{
  max_payload, max_body_len, low, high, u16_of, header, encode, bytes_contain, parse_body,
  decode_frame,
}

u16_of-halves : (x : ℕ) → x < 2 ^ 16 → u16_of (low x) (high x) ≡ x
u16_of-halves x h =
    rw (bit_and-eight x, bit_and-eight (x / 256))
      (bit_or-shl 8 (x % 256) (x / 256 % 256) (omega arith) ∙ omega arith)

nonzero-contain : (xs : List ℕ) → All IsNonzero xs → bytes_contain 0 xs ≡ false
unfolding bytes_contain
nonzero-contain [] h = refl
nonzero-contain (x ∷ xs) h = ground (arith, nonzero-contain xs h.1)

-- The body of a frame: its header, its payload, and the checksum of both.
unfoldable pub body_of : ℕ → ℕ → ℕ → List ℕ → List ℕ
body_of frame_type seq ack payload =
    let head = header frame_type seq ack (length payload) in
    let crc = crc16_update (crc16_update 0xffff head) payload in
    head ++ (payload ++ (low crc ∷ high crc ∷ []))

-- The fields of a body that has the right version, length and checksum.
parse_body_accepts :
    (body payload : List ℕ) (frame_type seq ack crc n : ℕ)
    → n ≤ max_payload
    → length body ≡ 9 + n + 2
    → u16_of (get_or body 7 0) (get_or body 8 0) ≡ n
    → get_or body 0 0 ≡ 2
    → get_or body 1 0 ≡ frame_type
    → get_or body 2 0 ≡ 0
    → u16_of (get_or body 3 0) (get_or body 4 0) ≡ seq
    → u16_of (get_or body 5 0) (get_or body 6 0) ≡ ack
    → u16_of (get_or body (9 + n) 0) (get_or body (9 + n + 1) 0) ≡ crc
    → crc16 (take (9 + n) body) ≡ crc
    → take n (drop 9 body) ≡ payload
    → parse_body body
      ≡ some
          (record { frame_type = frame_type; flags = 0; seq = seq; ack = ack; payload = payload })
unfolding parse_body
parse_body_accepts body payload t s a crc n h e el e0 e1 e2 es ea ec e9 ep =
    rw
      (
        el,
        e,
        ec,
        e0,
        e1,
        e2,
        es,
        ea,
        e9,
        ep,
        le→ltb (9 + n + 2) 11 (omega arith),
        le→ltb max_payload n h,
        ==-refl (9 + n + 2),
        ==-refl crc,
      )
      refl

parse_body-body_of :
    (frame_type seq ack : ℕ) (payload : List ℕ)
    → seq < 2 ^ 16
    → ack < 2 ^ 16
    → length payload ≤ max_payload
    → parse_body (body_of frame_type seq ack payload)
      ≡ some
          (record { frame_type = frame_type; flags = 0; seq = seq; ack = ack; payload = payload })
unfolding body_of header
parse_body-body_of t s a payload hs ha h =
    let head = header t s a (length payload) in
    let crc = crc16_update (crc16_update 0xffff head) payload in
    let tail = low crc ∷ high crc ∷ [] in
    let n = length payload in
    let crc-lt = crc16_update-lt payload _ (crc16_update-lt head 0xffff (omega arith)) in
    parse_body_accepts (head ++ (payload ++ tail)) payload t s a crc n h
      (omega (arith, length-append payload tail)) (u16_of-halves n (omega arith)) refl refl refl
      (u16_of-halves s hs) (u16_of-halves a ha)
      (ap₂ u16_of
          (get_or-append 0 head (payload ++ tail) (9 + n) n (omega arith)
            ∙ get_or-append 0 payload tail n 0 (omega arith))
          (get_or-append 0 head (payload ++ tail) (9 + n + 1) (n + 1) (omega arith)
            ∙ get_or-append 0 payload tail (n + 1) 1 refl)
        ∙ u16_of-halves crc crc-lt)
      (ap crc16
          (take-append (9 + n) (head ++ payload) tail (omega (arith, length-append head payload)))
        ∙ (unfold crc16 in crc16_update-append head payload 0xffff))
      (take-append n payload tail refl)

-- Two writes in a row are one.
stream_write_twice :
    (xs ys : List ℕ) (k : Act Encoder) (e : Encoder)
    → (stream_write xs >> (stream_write ys >> k)) e ≡ (stream_write (xs ++ ys) >> k) e
unfolding stream_write
stream_write_twice [] ys k e = refl
stream_write_twice (x ∷ xs) ys k e = elim (Bool-cases (write_byte x e).0) [
  | inl h ↦ rw h (stream_write_twice xs ys k (write_byte x e).1)
  | inr h ↦ rw h refl
]

encode_succeeds :
    (frame_type seq ack : ℕ) (payload out : List ℕ) (out_cap : ℕ) (e : Encoder)
    → length payload ≤ max_payload
    → 512 ≤ out_cap
    → stream_init out (out_cap - 1) ≡ some e
    → Finished
        ((stream_write (body_of frame_type seq ack payload) >> stream_finish) e)
        (body_of frame_type seq ack payload)
    → (enc : List ℕ) × (encode frame_type seq ack payload out out_cap ≡ some (enc ++ (0 ∷ [])))
      × Encodes enc (body_of frame_type seq ack payload)
      × (length enc ≤ 511)
unfolding encode body_of
encode_succeeds t s a payload out out_cap e h room init f =
    let head = header t s a (length payload) in
    let crc = crc16_update (crc16_update 0xffff head) payload in
    let tail = low crc ∷ high crc ∷ [] in
    let r = (stream_write (head ++ (payload ++ tail)) >> stream_finish) e in
    let w = r.1.write_index in
    let chain =
      ap (λ (k : Act Encoder). (stream_write head >> k) e)
        (fun_ext (λ e'. stream_write_twice payload tail stream_finish e'))
      ∙ stream_write_twice head (payload ++ tail) stream_finish e in
    let within = f.within in
    let fits = f.fits in
    let not_empty : (out_cap == 0) ≡ false = ground arith in
    let enough : ltb out_cap (w + 1) ≡ false = le→ltb out_cap (w + 1) (omega arith) in
    (
      take w r.1.dst,
      rw
          (
            le→ltb max_payload (length payload) h,
            not_empty,
            init,
            chain,
            f.done,
            le→ltb 511 w within,
            enough,
          )
          (ap (λ n. some (take n (set r.1.dst w 0))) (add-one w)
            ∙ ap some (take-suc-set r.1.dst w 0 (omega arith))),
      f.encodes,
      omega (arith, length-take w r.1.dst),
    )

decode_frame_encoded :
    (enc body : List ℕ)
    → Encodes enc body
    → length enc ≤ 511
    → length body ≤ max_body_len
    → decode_frame (enc ++ (0 ∷ [])) ≡ parse_body body
unfolding decode_frame
decode_frame_encoded enc body c short h =
    let n = length enc in
    let sum : length (enc ++ (0 ∷ [])) ≡ n + 1 = length-append enc (0 ∷ []) in
    let before : n + 1 - 1 ≡ n = omega arith in
    let some_bytes : (n + 1 == 0) ≡ false = ground arith in
    let not_empty : (n == 0) ≡ false = ground (arith, c.nonempty) in
    let last : get_or (enc ++ (0 ∷ [])) n 0 ≡ 0 = get_or-append 0 enc (0 ∷ []) n 0 (omega arith) in
    let decoded = cobs_decode-eq enc max_body_len ∙ c.decodes max_body_len h in
    rw
      (
        sum,
        before,
        last,
        take-append n enc (0 ∷ []) refl,
        nonzero-contain enc c.nonzero,
        some_bytes,
        not_empty,
        le→ltb 512 (n + 1) (omega arith),
        le→ltb 511 n short,
        decoded,
      )
      refl

length-append_two : (xs : List ℕ) (a b : ℕ) → length (xs ++ (a ∷ b ∷ [])) ≡ length xs + 2
length-append_two xs a b = length-append xs (a ∷ b ∷ [])

length-body_of :
    (frame_type seq ack : ℕ) (payload : List ℕ)
    → length (body_of frame_type seq ack payload) ≡ length payload + 11
unfolding body_of header
length-body_of t s a payload = omega (arith, length-append_two payload _ _)

-- A frame with 16-bit numbers and a payload of at most 497 bytes is encoded into a buffer with
-- room for 512 bytes as at most 512 bytes of which only the last is zero, and decoding these
-- gives the frame back.
pub decode_frame-encode :
    (frame_type seq ack : ℕ) (payload out : List ℕ) (out_cap : ℕ)
    → seq < 2 ^ 16
    → ack < 2 ^ 16
    → length payload ≤ max_payload
    → 512 ≤ out_cap
    → out_cap ≤ length out
    → out_cap ≤ 2 ^ 31
    → (enc : List ℕ) × (encode frame_type seq ack payload out out_cap ≡ some (enc ++ (0 ∷ [])))
      × All IsNonzero enc
      × (length enc ≤ 511)
      × (decode_frame (enc ++ (0 ∷ []))
          ≡ some (record {
            frame_type = frame_type;
            flags = 0;
            seq = seq;
            ack = ack;
            payload = payload;
          }))
decode_frame-encode t s a payload out out_cap hs ha h room mem small =
    let body = body_of t s a payload in
    let n = length-body_of t s a payload in
    let (e, init, f) =
      stream-Finished out body (out_cap - 1) (omega arith) (omega arith) (omega arith)
        (omega arith) in
    let (enc, eq, c, short) = encode_succeeds t s a payload out out_cap e h room init f in
    (
      enc,
      eq,
      c.nonzero,
      short,
      decode_frame_encoded enc body c short (omega (arith, n))
          ∙ parse_body-body_of t s a payload hs ha h,
    )

-- `mc_link_encode` refuses a payload of more than 497 bytes.
pub encode-too_long :
    (frame_type seq ack : ℕ) (payload out : List ℕ) (out_cap : ℕ)
    → max_payload < length payload
    → encode frame_type seq ack payload out out_cap ≡ none
unfolding encode
encode-too_long t s a payload out out_cap h = rw (lt→ltb max_payload (length payload) h) refl
