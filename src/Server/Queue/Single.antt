-- ===== src/Server/Queue/Single.antt =====
-- core/src/mc_server.c: a packet is queued whole, in the frame that the reader takes apart, or not at all.
use starrysky_mc_server.Prelude.{
  ℕ, ◌+◌, ◌-◌, ◌≤◌, ◌<◌, ◌≡◌, refl, ap, sym, ◌∙◌, arith, List, [], ◌∷◌, ◌++◌, Bool, true, false,
  length, take_all, ltb, ◌==◌, Act, ◌>>◌, length-append, append_assoc, ==-refl, le→ltb, Bool-cases,
  inl, inr, ltb→le,
}
use mathlib.Core.Path.{subst}
use starrysky_mc_server.Config.{max_packet_body}
use starrysky_mc_server.Varint.RoundTrip.{bytes_of, length-bytes_of, encode-eq-bytes_of}
use starrysky_mc_server.Ringbuf
use starrysky_mc_server.Ringbuf.{Ringbuf, add_size}
use starrysky_mc_server.Ringbuf.Bounds.{IsValid, free_lem}
use starrysky_mc_server.Ringbuf.Refine.{contents, length-contents, Holds, Holds-eq, write_refines}
use starrysky_mc_server.Packet.Framing.{framed, length-framed}
use starrysky_mc_server.Packet.Compressed.{framed_compressed, length-framed_plain, framed_plain-eq}
use starrysky_mc_server.Server.Queue.{
  write_all, queue_packet, queue_packet_compressed_plain, queue_packet_auto,
}

-- The ring behind which `bytes` were queued.
pub record IsQueued (bytes : List ℕ) (tx : Ringbuf) (r : Bool × Ringbuf) : Type 0 where
  pub done : r.0 ≡ true
  pub holds : Holds tx.cap (contents tx ++ bytes) r.1

write_all-IsQueued :
    (bytes : List ℕ) (tx : Ringbuf)
    → IsValid tx
    → length bytes ≤ tx.cap - tx.len
    → IsQueued bytes tx (write_all bytes tx)
unfolding write_all
write_all-IsQueued bytes tx v room =
    let (count, held) = write_refines tx bytes v in
    let all : (Ringbuf.write tx bytes).0 ≡ length bytes = omega (arith, count) in
    record {
      done = ap (λ n. n == length bytes) all ∙ ==-refl (length bytes);
      holds =
          Holds-eq held refl (ap (λ l. contents tx ++ l) (take_all (tx.cap - tx.len) bytes room));
    }

then-IsQueued :
    (xs ys : List ℕ) (m k : Act Ringbuf) (tx : Ringbuf)
    → IsQueued xs tx (m tx)
    → IsQueued ys (m tx).1 (k (m tx).1)
    → IsQueued (xs ++ ys) tx ((m >> k) tx)
then-IsQueued xs ys m k tx a b = rw (a.done) (record {
  done = b.done;
  holds =
      Holds-eq b.holds a.holds.same_cap
        (ap (λ l. l ++ ys) a.holds.holds ∙ append_assoc (contents tx) xs ys);
})

-- What is still free behind bytes that were queued.
pub room_after :
    (xs : List ℕ) (n : ℕ) (tx : Ringbuf) (r : Bool × Ringbuf)
    → IsQueued xs tx r
    → length xs + n ≤ tx.cap - tx.len
    → n ≤ r.1.cap - r.1.len
room_after xs n tx r a room =
    let len' : r.1.len ≡ tx.len + length xs =
      sym (length-contents r.1)
      ∙ ap length a.holds.holds
      ∙ length-append (contents tx) xs
      ∙ ap (λ n. n + length xs) (length-contents tx) in
    omega (arith, len', a.holds.same_cap)

two_writes :
    (xs ys : List ℕ) (tx : Ringbuf)
    → IsValid tx
    → length xs + length ys ≤ tx.cap - tx.len
    → IsQueued (xs ++ ys) tx ((write_all xs >> write_all ys) tx)
two_writes xs ys tx v room =
    let a = write_all-IsQueued xs tx v (omega arith) in
    then-IsQueued xs ys (write_all xs) (write_all ys) tx a (
      write_all-IsQueued ys (write_all xs tx).1 a.holds.valid
        (room_after xs (length ys) tx _ a room))

pub three_writes :
    (xs ys zs : List ℕ) (tx : Ringbuf)
    → IsValid tx
    → length xs + (length ys + length zs) ≤ tx.cap - tx.len
    → IsQueued (xs ++ (ys ++ zs)) tx ((write_all xs >> (write_all ys >> write_all zs)) tx)
three_writes xs ys zs tx v room =
    let a = write_all-IsQueued xs tx v (omega arith) in
    then-IsQueued xs (ys ++ zs) (write_all xs) (write_all ys >> write_all zs) tx a (
      two_writes ys zs (write_all xs tx).1 a.holds.valid
        (room_after xs (length ys + length zs) tx _ a room))

queue_packet_writes :
    (body : List ℕ) (tx : Ringbuf)
    → IsValid tx
    → length body ≤ max_packet_body
    → length (framed body) ≤ tx.cap - tx.len
    → queue_packet body tx ≡ (write_all (bytes_of (length body)) >> write_all body) tx
unfolding queue_packet
queue_packet_writes body tx v h room =
    let n = length-framed body in
    let l = length-bytes_of (length body) in
    let f = free_lem tx v in
    rw
      (
        encode-eq-bytes_of (length body) 5 (omega arith) (omega arith),
        f,
        le→ltb max_packet_body (length body) h,
      )
      (ground (arith, n, l))

queue_packet_refused :
    (body : List ℕ) (tx : Ringbuf)
    → IsValid tx
    → tx.cap - tx.len < length (framed body)
    → queue_packet body tx ≡ (false, tx)
unfolding queue_packet
queue_packet_refused body tx v short = elim (Bool-cases (ltb max_packet_body (length body))) [
  | inl e ↦ rw e refl
  | inr e ↦
      let n = length-framed body in
      let l = length-bytes_of (length body) in
      let f = free_lem tx v in
      rw (encode-eq-bytes_of (length body) 5 (ground arith) (omega arith), f, e)
        (ground (arith, n, l))
]

compressed_writes :
    (body : List ℕ) (tx : Ringbuf)
    → IsValid tx
    → length body ≤ max_packet_body
    → length (framed_compressed 0 body) ≤ tx.cap - tx.len
    → queue_packet_compressed_plain body tx
      ≡ (write_all (bytes_of (1 + length body)) >> (write_all (0 ∷ []) >> write_all body)) tx
unfolding queue_packet_compressed_plain
compressed_writes body tx v h room =
    let n = length-framed_plain body in
    let l = length-bytes_of (1 + length body) in
    let f = free_lem tx v in
    let inner : add_size 1 (length body) ≡ 1 + length body = omega arith in
    rw
      (
        inner,
        encode-eq-bytes_of (1 + length body) 5 (omega arith) (omega arith),
        f,
        le→ltb max_packet_body (length body) h,
      )
      (ground (arith, n, l))

compressed_refused :
    (body : List ℕ) (tx : Ringbuf)
    → IsValid tx
    → tx.cap - tx.len < length (framed_compressed 0 body)
    → queue_packet_compressed_plain body tx ≡ (false, tx)
unfolding queue_packet_compressed_plain
compressed_refused body tx v short = elim (Bool-cases (ltb max_packet_body (length body))) [
  | inl e ↦ rw e refl
  | inr e ↦
      let small : length body ≤ max_packet_body = ltb→le _ _ e in
      let n = length-framed_plain body in
      let l = length-bytes_of (1 + length body) in
      let f = free_lem tx v in
      let inner : add_size 1 (length body) ≡ 1 + length body = omega arith in
      rw (inner, encode-eq-bytes_of (1 + length body) 5 (omega arith) (omega arith), f, e)
        (ground (arith, n, l))
]

-- The frame of a packet, with or without the compressed format.
unfoldable pub frame_of : Bool → List ℕ → List ℕ
frame_of true body = framed_compressed 0 body
frame_of false body = framed body

-- A packet of at most 32768 bytes for whose frame, in the plain or in the compressed format, a
-- valid ring has room, is queued: the call succeeds and the ring has the frame behind what it
-- held.
pub queue_packet_auto-IsQueued :
    (compression_enabled : Bool) (body : List ℕ) (tx : Ringbuf)
    → IsValid tx
    → length body ≤ max_packet_body
    → length (frame_of compression_enabled body) ≤ tx.cap - tx.len
    → IsQueued
        (frame_of compression_enabled body)
        tx
        (queue_packet_auto compression_enabled body tx)
unfolding queue_packet_auto frame_of
queue_packet_auto-IsQueued true body tx v h room =
    let n = length-framed_plain body in
    rw (compressed_writes body tx v h room) (
      subst
        (λ l.
          IsQueued l tx
            ((write_all (bytes_of (1 + length body)) >> (write_all (0 ∷ []) >> write_all body)) tx))
        (framed_plain-eq body)
        (three_writes (bytes_of (1 + length body)) (0 ∷ []) body tx v (omega (arith, n))))
queue_packet_auto-IsQueued false body tx v h room =
    let n = length-framed body in
    rw (queue_packet_writes body tx v h room)
      (unfold framed in two_writes (bytes_of (length body)) body tx v (omega (arith, n)))

-- A packet for whose frame a valid ring has no room is refused, and the ring is as it was.
pub queue_packet_auto_refused :
    (compression_enabled : Bool) (body : List ℕ) (tx : Ringbuf)
    → IsValid tx
    → tx.cap - tx.len < length (frame_of compression_enabled body)
    → queue_packet_auto compression_enabled body tx ≡ (false, tx)
unfolding queue_packet_auto frame_of
queue_packet_auto_refused true body tx v short = compressed_refused body tx v short
queue_packet_auto_refused false body tx v short = queue_packet_refused body tx v short
