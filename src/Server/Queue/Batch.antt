-- ===== src/Server/Queue/Batch.antt =====
-- core/src/mc_server.c: a batch of packets is queued whole or not at all.
use starrysky_mc_server.Prelude.{
  ℕ, ◌+◌, ◌-◌, ◌≤◌, ◌<◌, ◌≡◌, refl, ap, sym, ◌∙◌, arith, List, [], ◌∷◌, ◌++◌, Bool, true, false,
  Option, none, some, length, ltb, leb, if◌then◌else◌, length-append, append-nil, append_assoc,
  le→ltb, lt→ltb, le→leb, Bool-cases, inl, inr, All,
}
use starrysky_mc_server.Config.{max_packet_body}
use starrysky_mc_server.Varint.RoundTrip.{length-bytes_of}
use starrysky_mc_server.Ringbuf
use starrysky_mc_server.Ringbuf.{Ringbuf, add_size}
use starrysky_mc_server.Ringbuf.Bounds.{IsValid, free_lem}
use starrysky_mc_server.Ringbuf.Refine.{contents, Holds-eq}
use starrysky_mc_server.Packet.Framing.{length-framed, frame_len-framed}
use starrysky_mc_server.Packet.Compressed.{length-framed_plain, compressed_plain_frame_len-eq}
use starrysky_mc_server.Server.Queue.{
  Checkpoint, checkpoint_save, queue_packet_auto, packet_auto_frame_len, add_packet_auto_frame_len,
  needed_loop, queue_loop, queue_packet_batch,
}
use starrysky_mc_server.Server.Queue.Single.{
  IsQueued, frame_of, queue_packet_auto-IsQueued, room_after,
}

-- The frames of the packets, one behind the other.
unfoldable pub frames_of : Bool → List (List ℕ) → List ℕ
frames_of enabled [] = []
frames_of enabled (body ∷ packets) = frame_of enabled body ++ frames_of enabled packets

abbrev pub IsAdmitted : List ℕ → Type 0
IsAdmitted body = length body ≤ max_packet_body

frame_len_lem :
    (enabled : Bool) (body : List ℕ)
    → IsAdmitted body
    → packet_auto_frame_len enabled (length body) ≡ length (frame_of enabled body)
unfolding packet_auto_frame_len frame_of
frame_len_lem true body h = compressed_plain_frame_len-eq body ∙ rw (le→leb _ _ h) refl
frame_len_lem false body h = frame_len-framed body ∙ rw (le→leb _ _ h) refl

frame_of-positive : (enabled : Bool) (body : List ℕ) → 0 < length (frame_of enabled body)
unfolding frame_of
frame_of-positive true body = omega (arith, length-framed_plain body)
frame_of-positive false body = omega (arith, length-framed body, length-bytes_of (length body))

add_fits :
    (enabled : Bool) (body : List ℕ) (needed : ℕ)
    → IsAdmitted body
    → needed + length (frame_of enabled body) ≤ 4294967295
    → add_packet_auto_frame_len enabled (length body) needed
      ≡ some (needed + length (frame_of enabled body))
unfolding add_packet_auto_frame_len
add_fits enabled body needed h room =
    rw (frame_len_lem enabled body h) (ground (arith, frame_of-positive enabled body))

add_overflows :
    (enabled : Bool) (body : List ℕ) (needed : ℕ)
    → IsAdmitted body
    → 4294967295 < needed + length (frame_of enabled body)
    → add_packet_auto_frame_len enabled (length body) needed ≡ none
unfolding add_packet_auto_frame_len
add_overflows enabled body needed h over = rw (frame_len_lem enabled body h) (ground arith)

needed_loop-cons :
    (enabled : Bool) (body : List ℕ) (packets : List (List ℕ)) (needed needed' : ℕ)
    → add_packet_auto_frame_len enabled (length body) needed ≡ some needed'
    → needed_loop enabled (body ∷ packets) needed ≡ needed_loop enabled packets needed'
unfolding needed_loop
needed_loop-cons enabled body packets needed needed' e =
    ap
      (λ (o : Option ℕ). elim o as (λ _. Option ℕ) [
        | none ↦ none
        | some needed' ↦ needed_loop enabled packets needed'
      ])
      e

needed_loop-stop :
    (enabled : Bool) (body : List ℕ) (packets : List (List ℕ)) (needed : ℕ)
    → add_packet_auto_frame_len enabled (length body) needed ≡ none
    → needed_loop enabled (body ∷ packets) needed ≡ none
unfolding needed_loop
needed_loop-stop enabled body packets needed e =
    ap
      (λ (o : Option ℕ). elim o as (λ _. Option ℕ) [
        | none ↦ none
        | some needed' ↦ needed_loop enabled packets needed'
      ])
      e

-- The sum of the frames' lengths, where it does not overflow.
needed_loop_lem :
    (enabled : Bool) (packets : List (List ℕ)) (needed : ℕ)
    → All IsAdmitted packets
    → needed ≤ 4294967295
    → needed_loop enabled packets needed ≡ (
        if leb (needed + length (frames_of enabled packets)) 4294967295
        then some (needed + length (frames_of enabled packets))
        else none)
unfolding frames_of
needed_loop_lem enabled [] needed h small =
    let z : needed + 0 ≡ needed = omega arith in
    rw (z, le→leb needed 4294967295 small) (unfold needed_loop in refl)
needed_loop_lem enabled (body ∷ packets) needed h small =
    let n = length-append (frame_of enabled body) (frames_of enabled packets) in
    let len = length (frame_of enabled body) in
    elim (Bool-cases (leb (needed + len) 4294967295)) [
      | inl e ↦
          let fits : needed + len ≤ 4294967295 = ground arith in
          let z : needed + length (frame_of enabled body ++ frames_of enabled packets)
              ≡ needed + len + length (frames_of enabled packets) =
            omega (arith, n) in
          rw z (
            needed_loop-cons enabled body packets needed (needed + len)
              (add_fits enabled body needed h.0 fits)
            ∙ needed_loop_lem enabled packets (needed + len) h.1 fits)
      | inr e ↦
          needed_loop-stop enabled body packets needed
            (add_overflows enabled body needed h.0 (ground arith))
          ∙ ground (arith, n)
    ]

queue_loop-cons :
    (enabled : Bool) (body : List ℕ) (packets : List (List ℕ)) (saved : Checkpoint) (tx : Ringbuf)
    → (queue_packet_auto enabled body tx).0 ≡ true
    → queue_loop enabled (body ∷ packets) saved tx
      ≡ queue_loop enabled packets saved (queue_packet_auto enabled body tx).1
unfolding queue_loop
queue_loop-cons enabled body packets saved tx e = rw e refl

queue_loop-IsQueued :
    (enabled : Bool) (packets : List (List ℕ)) (saved : Checkpoint) (tx : Ringbuf)
    → IsValid tx
    → All IsAdmitted packets
    → length (frames_of enabled packets) ≤ tx.cap - tx.len
    → IsQueued (frames_of enabled packets) tx (queue_loop enabled packets saved tx)
unfolding frames_of
queue_loop-IsQueued enabled [] saved tx v h room =
    unfold queue_loop in
    record {
      done = refl;
      holds = record { valid = v; same_cap = refl; holds = sym (append-nil (contents tx)) };
    }
queue_loop-IsQueued enabled (body ∷ packets) saved tx v h room =
    let frame = frame_of enabled body in
    let n = length-append frame (frames_of enabled packets) in
    let a = queue_packet_auto-IsQueued enabled body tx v h.0 (omega (arith, n)) in
    let b =
      queue_loop-IsQueued enabled packets saved (queue_packet_auto enabled body tx).1 a.holds.valid
        h.1 (room_after frame (length (frames_of enabled packets)) tx _ a (omega (arith, n))) in
    rw (queue_loop-cons enabled body packets saved tx a.done) (record {
      done = b.done;
      holds = Holds-eq b.holds a.holds.same_cap (
          ap (λ l. l ++ frames_of enabled packets) a.holds.holds
          ∙ append_assoc (contents tx) frame (frames_of enabled packets));
    })

batch_on :
    (enabled : Bool) (packets : List (List ℕ)) (tx : Ringbuf) (needed : Option ℕ)
    → needed_loop enabled packets 0 ≡ needed
    → queue_packet_batch enabled packets tx ≡ (elim needed as (λ _. Bool × Ringbuf) [
      | none ↦ (false, tx)
      | some n ↦
          if ltb (Ringbuf.free tx) n
          then (false, tx)
          else queue_loop enabled packets (checkpoint_save tx) tx
    ])
unfolding queue_packet_batch
batch_on enabled packets tx needed e =
    ap
      (λ (o : Option ℕ). elim o as (λ _. Bool × Ringbuf) [
        | none ↦ (false, tx)
        | some n ↦
            if ltb (Ringbuf.free tx) n
            then (false, tx)
            else queue_loop enabled packets (checkpoint_save tx) tx
      ])
      e

-- A batch of packets of at most 32768 bytes each, for all of whose frames a valid ring has room,
-- succeeds, and the ring has the frames in order behind what it held.
pub queue_packet_batch-IsQueued :
    (enabled : Bool) (packets : List (List ℕ)) (tx : Ringbuf)
    → IsValid tx
    → All IsAdmitted packets
    → length (frames_of enabled packets) ≤ tx.cap - tx.len
    → IsQueued (frames_of enabled packets) tx (queue_packet_batch enabled packets tx)
queue_packet_batch-IsQueued enabled packets tx v h room =
    let total = length (frames_of enabled packets) in
    let small : 0 + total ≤ 4294967295 = omega (arith, v.small) in
    let sum : needed_loop enabled packets 0 ≡ some total =
      needed_loop_lem enabled packets 0 h (omega arith)
      ∙ rw (le→leb _ _ small) refl
      ∙ ap some (let z : 0 + total ≡ total = omega arith in z) in
    let test : ltb (Ringbuf.free tx) total ≡ false = le→ltb _ _ (omega (arith, free_lem tx v)) in
    rw (batch_on enabled packets tx (some total) sum, test)
      (queue_loop-IsQueued enabled packets (checkpoint_save tx) tx v h room)

-- A batch of packets of at most 32768 bytes each, for whose frames together a valid ring has no
-- room, fails and leaves the ring as it was, also where the sum of the lengths overflows.
pub queue_packet_batch_refused :
    (enabled : Bool) (packets : List (List ℕ)) (tx : Ringbuf)
    → IsValid tx
    → All IsAdmitted packets
    → tx.cap - tx.len < length (frames_of enabled packets)
    → queue_packet_batch enabled packets tx ≡ (false, tx)
queue_packet_batch_refused enabled packets tx v h short =
    let total = length (frames_of enabled packets) in
    let lem = needed_loop_lem enabled packets 0 h (omega arith) in
    elim (Bool-cases (leb (0 + total) 4294967295)) [
      | inr over ↦ batch_on enabled packets tx none (lem ∙ rw over refl)
      | inl fits ↦
          let test : ltb (Ringbuf.free tx) (0 + total) ≡ true =
            lt→ltb _ _ (omega (arith, free_lem tx v)) in
          batch_on enabled packets tx (some (0 + total)) (lem ∙ rw fits refl) ∙ rw test refl
    ]
