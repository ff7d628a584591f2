-- ===== src/Packet/Framing.antt =====
-- mc_packet.c: what is framed is read back, and the announced lengths are those of the frames.
use starrysky_mc_server.Prelude.{
  ℕ, ◌+◌, ◌^◌, ◌≤◌, ◌<◌, ◌≡◌, refl, sym, ap₂, ◌∙◌, arith, List, [], ◌++◌, ◌&&◌, Option, none, some,
  length, take, drop, leb, ltb, if◌then◌else◌, length-append, length-take, length-drop, take-append,
  drop-append, append_assoc, IsByte, All, Bool-cases, inl, inr,
}
use starrysky_mc_server.Config.{max_packet_body}
use starrysky_mc_server.Varint.{decode}
use starrysky_mc_server.Varint.RoundTrip.{
  bytes_of, length-bytes_of, encode-eq-bytes_of, decode-bytes_of,
}
use starrysky_mc_server.Varint.Input.{decode_takes}
use starrysky_mc_server.Ringbuf.{add_size}
use starrysky_mc_server.Packet.Frame.{wrap, frame_len, Packet, try_read}

-- A frame as the protocol defines it: the length of the rest in a VarInt, and the rest.
unfoldable pub framed : List ℕ → List ℕ
framed inner = bytes_of (length inner) ++ inner

pub length-framed :
    (inner : List ℕ) → length (framed inner) ≡ length (bytes_of (length inner)) + length inner
unfolding framed
length-framed inner = length-append (bytes_of (length inner)) inner

-- `wrap` yields the frame of a body within the limit where it fits the buffer, and fails elsewhere.
pub wrap-eq-framed :
    (body : List ℕ) (dst_cap : ℕ)
    → wrap body dst_cap ≡ (
        if leb (length body) max_packet_body && leb (length (framed body)) dst_cap
        then framed body
        else [])
unfolding wrap
wrap-eq-framed body dst_cap = elim (Bool-cases (ltb max_packet_body (length body))) [
  | inl e ↦ ground arith
  | inr e ↦
      rw (encode-eq-bytes_of (length body) 5 (ground arith) (omega arith))
        (unfold framed in ground (arith, length-bytes_of (length body), length-framed body))
]

wrap-fits :
    (body : List ℕ) (dst_cap : ℕ)
    → length body ≤ max_packet_body
    → length body + 5 ≤ dst_cap
    → wrap body dst_cap ≡ framed body
wrap-fits body dst_cap h room =
    wrap-eq-framed body dst_cap ∙ ground (arith, length-framed body, length-bytes_of (length body))

pub framed-append :
    (inner rest : List ℕ) → framed inner ++ rest ≡ bytes_of (length inner) ++ (inner ++ rest)
unfolding framed
framed-append inner rest = append_assoc (bytes_of (length inner)) inner rest

decode-framed :
    (inner rest : List ℕ)
    → length inner < 2 ^ 32
    → decode (framed inner ++ rest) ≡ some (length inner, length (bytes_of (length inner)))
decode-framed inner rest h =
    rw (framed-append inner rest) (decode-bytes_of (length inner) (inner ++ rest) h)

body-framed :
    (inner rest : List ℕ)
    → take (length inner) (drop (length (bytes_of (length inner))) (framed inner ++ rest)) ≡ inner
body-framed inner rest =
    rw
      (
        framed-append inner rest,
        drop-append (length (bytes_of (length inner))) (bytes_of (length inner)) (inner ++ rest)
            refl,
      )
      (take-append (length inner) inner rest refl)

try_read_at :
    (src : List ℕ) (body_len prefix_len : ℕ)
    → decode src ≡ some (body_len, prefix_len)
    → body_len ≤ max_packet_body
    → prefix_len ≤ 5
    → prefix_len + body_len ≤ length src
    → try_read src
      ≡ some
          (record { body = take body_len (drop prefix_len src); frame_len = prefix_len + body_len })
unfolding try_read
try_read_at src body_len prefix_len e h p fits = ground arith

-- A frame is what the reader finds at the front, with its length, whatever follows it.
pub try_read-framed :
    (body rest : List ℕ)
    → length body ≤ max_packet_body
    → try_read (framed body ++ rest)
      ≡ some (record { body = body; frame_len = length (framed body) })
try_read-framed body rest h =
    try_read_at (framed body ++ rest) (length body) (length (bytes_of (length body)))
      (decode-framed body rest (omega arith)) h (omega (arith, length-bytes_of (length body)))
      (omega (arith, length-append (framed body) rest, length-framed body))
    ∙ ap₂ (λ b n. some (record { body = b; frame_len = n })) (body-framed body rest)
        (sym (length-framed body))

-- `frame_len` announces the length of the frame of a body within the limit, and 0 for any other.
pub frame_len-framed :
    (body : List ℕ)
    → frame_len (length body)
      ≡ (if leb (length body) max_packet_body then length (framed body) else 0)
unfolding frame_len
frame_len-framed body = elim (Bool-cases (ltb max_packet_body (length body))) [
  | inl e ↦ ground arith
  | inr e ↦
      rw (encode-eq-bytes_of (length body) 5 (ground arith) (omega arith))
        (ground (arith, length-bytes_of (length body), length-framed body))
]

-- What is wrapped from a body of at most 32768 bytes, into a buffer with room for five bytes
-- more, is read back whatever follows: the body, and the length of the frame.
pub try_read-wrap :
    (body rest : List ℕ) (dst_cap : ℕ)
    → length body ≤ max_packet_body
    → length body + 5 ≤ dst_cap
    → try_read (wrap body dst_cap ++ rest)
      ≡ some (record { body = body; frame_len = length (wrap body dst_cap) })
try_read-wrap body rest dst_cap h room =
    rw (wrap-fits body dst_cap h room) (try_read-framed body rest h)

try_read-some :
    (src : List ℕ) (p : Packet) (v used : ℕ)
    → decode src ≡ some (v, used)
    → try_read src ≡ some p
    → (v ≤ max_packet_body)
      × (add_size used v ≤ length src)
      × (p ≡ record { body = take v (drop used src); frame_len = add_size used v })
unfolding try_read
try_read-some src p v used d e = ground arith

try_read-none : (src : List ℕ) → decode src ≡ none → try_read src ≡ none
unfolding try_read
try_read-none src e = ground arith

-- On any input of bytes from which a packet is read: the body is within the limit of 32768 bytes
-- and shorter than the frame, and the frame lies inside the input.
pub try_read_takes :
    (src : List ℕ) (p : Packet)
    → All IsByte src
    → try_read src ≡ some p
    → (length p.body ≤ max_packet_body) × (length p.body < p.frame_len) × (p.frame_len ≤ length src)
try_read_takes src p h e = go (decode src) refl
  where
    go :
        (d : Option (ℕ × ℕ))
        → decode src ≡ d
        → (length p.body ≤ max_packet_body)
          × (length p.body < p.frame_len)
          × (p.frame_len ≤ length src)
    go none d = cc (try_read-none src d)
    go (some (v, used)) d =
        let (small, within, same) = try_read-some src p v used d e in
        let (vb, one, five, inside) = decode_takes src v used h d in
        rw same (omega (arith, length-take v (drop used src), length-drop used src))
