-- ===== src/Link/Frame.antt =====
-- mc_link.c: link frames, encoded and decoded.
pub mod RoundTrip
use starrysky_mc_server.Prelude.{
  ℕ, ◌+◌, ◌-◌, ◌%◌, List, [], ◌∷◌, ◌++◌, Bool, true, false, not, ◌&&◌, ◌||◌, Option, none, some,
  length, set, get_or, take, drop, leb, ltb, ◌==◌, if◌then◌else◌, ◌>>◌, bit_and, bit_or, shr, shl,
  u16_mod,
}
use starrysky_mc_server.Link.Crc.{crc16_update, crc16}
use starrysky_mc_server.Link.Cobs.{stream_init, stream_write, stream_finish, cobs_decode}

abbrev pub max_payload : ℕ
max_payload = 497

abbrev pub max_encoded_len : ℕ
max_encoded_len = 512

-- The header, the longest payload and the checksum.
abbrev pub max_body_len : ℕ
max_body_len = 9 + max_payload + 2

-- `mc_link_frame_t`; `payload` is `payload[0 .. len)`.
pub record Frame : Type 0 where
  pub frame_type : ℕ
  pub flags : ℕ
  pub seq : ℕ
  pub ack : ℕ
  pub payload : List ℕ

-- A 16-bit value as its low byte and its high byte, and back.
abbrev pub low : ℕ → ℕ
low x = bit_and x 0xff

abbrev pub high : ℕ → ℕ
high x = bit_and (shr x 8) 0xff

abbrev pub u16_of : ℕ → ℕ → ℕ
u16_of lo hi = bit_or lo (shl hi 8)

unfoldable pub header : ℕ → ℕ → ℕ → ℕ → List ℕ
header frame_type seq ack payload_len =
    2
    ∷ frame_type
    ∷ 0
    ∷ low seq
    ∷ high seq
    ∷ low ack
    ∷ high ack
    ∷ low payload_len
    ∷ high payload_len
    ∷ []

-- `mc_link_encode` into the buffer `out`: `out[0 .. *out_len)`, and `none` for a return of 0.
unfoldable pub encode : ℕ → ℕ → ℕ → List ℕ → List ℕ → ℕ → Option (List ℕ)
encode frame_type seq ack payload out out_cap =
    let head = header frame_type seq ack (length payload) in
    let crc = crc16_update (crc16_update 0xffff head) payload in
    let crc_bytes = low crc ∷ high crc ∷ [] in
    if ltb max_payload (length payload) || out_cap == 0
    then none
    else elim (stream_init out (out_cap - 1)) [
      | none ↦ none
      | some e ↦
          let (done, e') =
            (do stream_write head; stream_write payload; stream_write crc_bytes; stream_finish) e in
          let encoded_len = e'.write_index in
          if not done || ltb (max_encoded_len - 1) encoded_len || ltb out_cap (encoded_len + 1)
          then none
          else some (take (encoded_len + 1) (set e'.dst encoded_len 0))
    ]

unfoldable pub bytes_contain : ℕ → List ℕ → Bool
bytes_contain needle [] = false
bytes_contain needle (b ∷ src) = b == needle || bytes_contain needle src

-- What `decode_frame_with_scratch` does with the decoded body.
unfoldable pub parse_body : List ℕ → Option Frame
parse_body body =
    let at = λ (i : ℕ). get_or body i 0 in
    let payload_len = u16_of (at 7) (at 8) in
    let expected_crc = u16_of (at (9 + payload_len)) (at (9 + payload_len + 1)) in
    if ltb (length body) 11 || not (at 0 == 2)
    then none
    else if ltb max_payload payload_len || not (length body == 9 + payload_len + 2)
    then none
    else if not (crc16 (take (9 + payload_len) body) == expected_crc)
    then none
    else some (record {
      frame_type = at 1;
      flags = at 2;
      seq = u16_of (at 3) (at 4);
      ack = u16_of (at 5) (at 6);
      payload = take payload_len (drop 9 body);
    })

unfoldable pub decode_frame : List ℕ → Option Frame
unfolding bytes_contain parse_body
decode_frame src =
    let encoded_len = length src - 1 in
    let encoded = take encoded_len src in
    if length src == 0 || ltb max_encoded_len (length src) || not (get_or src encoded_len 0 == 0)
    then none
    else if encoded_len == 0 || ltb (max_encoded_len - 1) encoded_len || bytes_contain 0 encoded
    then none
    else elim (cobs_decode encoded max_body_len) [ none ↦ none | some body ↦ parse_body body ]
