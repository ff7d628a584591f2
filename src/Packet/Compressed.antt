-- ===== src/Packet/Compressed.antt =====
-- mc_packet.c: frames in the compressed format.
use starrysky_mc_server.Prelude.{
  ℕ, suc, ◌+◌, ◌≤◌, ◌<◌, ◌≡◌, refl, ap, ◌∙◌, arith, List, [], ◌∷◌, ◌++◌, ◌&&◌, Option, none, some,
  length, drop, leb, ltb, if◌then◌else◌, length-append, drop-append, Bool-cases, inl, inr, ltb→le,
}
use starrysky_mc_server.Config.{max_packet_body}
use starrysky_mc_server.Varint.{decode}
use starrysky_mc_server.Varint.RoundTrip.{
  bytes_of, length-bytes_of, encode-eq-bytes_of, decode-bytes_of,
}
use starrysky_mc_server.Ringbuf.{add_size}
use starrysky_mc_server.Packet.Frame.{
  compressed_plain_frame_len, wrap_compressed_plain, wrap_compressed_payload, CompressedBody,
  get_compressed_body, try_read,
}
use starrysky_mc_server.Packet.Framing.{framed, length-framed, try_read-framed}

-- A frame in the compressed format: an inner length, the length of the data before compression (0
-- for none), and the payload.
unfoldable pub framed_compressed : ℕ → List ℕ → List ℕ
framed_compressed data_len payload = framed (bytes_of data_len ++ payload)

bytes_of_zero : bytes_of 0 ≡ 0 ∷ []
unfolding bytes_of
bytes_of_zero = refl

pub length-framed_plain :
    (body : List ℕ)
    → length (framed_compressed 0 body) ≡ length (bytes_of (1 + length body)) + (1 + length body)
unfolding framed_compressed
length-framed_plain body =
    length-framed (bytes_of 0 ++ body)
    ∙ ap (λ n. length (bytes_of n) + n)
        (rw bytes_of_zero (let e : suc (length body) ≡ 1 + length body = omega arith in e))

pub framed_plain-eq :
    (body : List ℕ) → bytes_of (1 + length body) ++ (0 ∷ body) ≡ framed_compressed 0 body
unfolding framed_compressed framed
framed_plain-eq body = rw bytes_of_zero (
    ap (λ n. bytes_of n ++ (0 ∷ body))
      (let e : 1 + length body ≡ suc (length body) = omega arith in e))

-- `wrap_compressed_plain` yields the uncompressed form of the compressed format where it fits.
pub wrap_compressed_plain-eq :
    (body : List ℕ) (dst_cap : ℕ)
    → wrap_compressed_plain body dst_cap ≡ (
        if leb (length body) max_packet_body && leb (length (framed_compressed 0 body)) dst_cap
        then framed_compressed 0 body
        else [])
unfolding wrap_compressed_plain
wrap_compressed_plain-eq body dst_cap = elim (Bool-cases (ltb max_packet_body (length body))) [
  | inl e ↦ ground arith
  | inr e ↦
      let small : length body ≤ max_packet_body = ltb→le _ _ e in
      let inner : add_size 1 (length body) ≡ 1 + length body = omega arith in
      rw
        (
          inner,
          encode-eq-bytes_of (1 + length body) 5 (omega arith) (omega arith),
          framed_plain-eq body,
        )
        (ground (arith, length-bytes_of (1 + length body), length-framed_plain body))
]

get_compressed_body_at :
    (src : List ℕ) (decoded used : ℕ)
    → decode src ≡ some (decoded, used)
    → decoded ≤ max_packet_body
    → used ≤ length src
    → get_compressed_body src ≡ some (record { body = drop used src; data_len = decoded })
unfolding get_compressed_body
get_compressed_body_at src decoded used e h p = ground arith

get_compressed_body-bytes_of :
    (data_len : ℕ) (payload : List ℕ)
    → data_len ≤ max_packet_body
    → get_compressed_body (bytes_of data_len ++ payload)
      ≡ some (record { body = payload; data_len = data_len })
get_compressed_body-bytes_of data_len payload h =
    get_compressed_body_at _ data_len (length (bytes_of data_len))
      (decode-bytes_of data_len payload (omega arith)) h
      (omega (arith, length-append (bytes_of data_len) payload))
    ∙ ap (λ b. some (record { body = b; data_len = data_len }))
        (drop-append (length (bytes_of data_len)) (bytes_of data_len) payload refl)

wrap_compressed_plain-fits :
    (body : List ℕ) (dst_cap : ℕ)
    → length body ≤ max_packet_body
    → length body + 6 ≤ dst_cap
    → wrap_compressed_plain body dst_cap ≡ framed_compressed 0 body
wrap_compressed_plain-fits body dst_cap h room =
    wrap_compressed_plain-eq body dst_cap
    ∙ ground (arith, length-framed_plain body, length-bytes_of (1 + length body))

-- Reading a packet in the compressed format: the frame, then the data length in front of its body.
pub read_compressed : List ℕ → Option CompressedBody
read_compressed src = elim (try_read src) [ none ↦ none | some p ↦ get_compressed_body p.body ]

read_compressed-framed :
    (data_len : ℕ) (payload rest : List ℕ)
    → data_len ≤ max_packet_body
    → length (bytes_of data_len ++ payload) ≤ max_packet_body
    → read_compressed (framed_compressed data_len payload ++ rest)
      ≡ some (record { body = payload; data_len = data_len })
unfolding read_compressed framed_compressed
read_compressed-framed data_len payload rest h k =
    rw (try_read-framed (bytes_of data_len ++ payload) rest k, read_compressed)
      (get_compressed_body-bytes_of data_len payload h)

-- What is wrapped in the compressed format without compression, from a body of less than 32768
-- bytes into a buffer with room for six bytes more, is read back as the body with data length 0,
-- whatever follows.
pub read-wrap_compressed_plain :
    (body rest : List ℕ) (dst_cap : ℕ)
    → length body < max_packet_body
    → length body + 6 ≤ dst_cap
    → read_compressed (wrap_compressed_plain body dst_cap ++ rest)
      ≡ some (record { body = body; data_len = 0 })
read-wrap_compressed_plain body rest dst_cap h room =
    rw (wrap_compressed_plain-fits body dst_cap (omega arith) room)
      (read_compressed-framed 0 body rest (omega arith) (rw bytes_of_zero h))

wrap_compressed_payload-fits :
    (data_len : ℕ) (payload : List ℕ) (dst_cap : ℕ)
    → 0 < data_len
    → data_len ≤ max_packet_body
    → length payload ≤ max_packet_body
    → length payload + 10 ≤ dst_cap
    → wrap_compressed_payload data_len payload dst_cap ≡ framed_compressed data_len payload
unfolding wrap_compressed_payload framed_compressed framed
wrap_compressed_payload-fits data_len payload dst_cap pos h k room =
    let l = length-bytes_of data_len in
    let inner : add_size (length (bytes_of data_len)) (length payload)
        ≡ length (bytes_of data_len ++ payload) =
      omega (arith, l, length-append (bytes_of data_len) payload) in
    let n = length-append (bytes_of data_len) payload in
    rw
      (
        encode-eq-bytes_of data_len 5 (omega arith) (omega arith),
        inner,
        encode-eq-bytes_of (length (bytes_of data_len ++ payload)) 5 (omega (arith, l, n))
            (omega arith),
      )
      (ground (arith, l, n, length-bytes_of (length (bytes_of data_len ++ payload))))

-- What is wrapped from a payload of at most 32763 bytes and a data length from 1 to 32768, into a
-- buffer with room for ten bytes more, is read back as the payload and the data length, whatever
-- follows.
pub read-wrap_compressed_payload :
    (data_len : ℕ) (payload rest : List ℕ) (dst_cap : ℕ)
    → 0 < data_len
    → data_len ≤ max_packet_body
    → length payload + 5 ≤ max_packet_body
    → length payload + 10 ≤ dst_cap
    → read_compressed (wrap_compressed_payload data_len payload dst_cap ++ rest)
      ≡ some (record { body = payload; data_len = data_len })
read-wrap_compressed_payload data_len payload rest dst_cap pos h k room =
    rw (wrap_compressed_payload-fits data_len payload dst_cap pos h (omega arith) room) (
      read_compressed-framed data_len payload rest h
        (omega (arith, length-bytes_of data_len, length-append (bytes_of data_len) payload)))

-- The announced lengths are those of the frames, for every body within the limit; 0 is announced
-- for any other.
pub compressed_plain_frame_len-eq :
    (body : List ℕ)
    → compressed_plain_frame_len (length body)
      ≡ (if leb (length body) max_packet_body then length (framed_compressed 0 body) else 0)
unfolding compressed_plain_frame_len
compressed_plain_frame_len-eq body = elim (Bool-cases (ltb max_packet_body (length body))) [
  | inl e ↦ ground arith
  | inr e ↦
      let small : length body ≤ max_packet_body = ltb→le _ _ e in
      let inner : add_size 1 (length body) ≡ 1 + length body = omega arith in
      rw (inner, encode-eq-bytes_of (1 + length body) 5 (omega arith) (omega arith))
        (ground (arith, length-bytes_of (1 + length body), length-framed_plain body))
]
