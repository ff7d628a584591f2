-- ===== src/Session/Queueing.antt =====
-- firmware/mc_link_session.c: a frame is queued whole or not at all.
use starrysky_mc_server.Prelude.{
  ℕ, ◌+◌, ◌-◌, ◌^◌, ◌≤◌, ◌<◌, ◌≡◌, ◌⊎◌, inl, inr, refl, ap, ◌∙◌, arith, List, [], ◌∷◌, ◌++◌, Bool,
  true, false, Option, none, some, length, length-replicate, length-append, take_all, ltb, ◌==◌,
  ltb→lt, ltb→le, Bool-cases, ==-refl, All,
}
use starrysky_mc_server.Ringbuf
use starrysky_mc_server.Ringbuf.{Ringbuf}
use starrysky_mc_server.Ringbuf.Bounds.{IsValid, free_lem}
use starrysky_mc_server.Ringbuf.Refine.{contents, Holds, Holds-eq, write_refines}
use starrysky_mc_server.Link.Cobs.Blocks.{IsNonzero}
use starrysky_mc_server.Link.Frame.{max_payload, max_encoded_len, encode, decode_frame}
use starrysky_mc_server.Link.Frame.RoundTrip.{decode_frame-encode}
use starrysky_mc_server.Session.{frame_buffer, write_frame, frame_into}

-- `enc` and a delimiter encode a frame of these values.
pub record IsFrame (enc : List ℕ) (frame_type seq ack : ℕ) (payload : List ℕ) : Type 0 where
  pub nonzero : All IsNonzero enc
  pub short : length enc ≤ 511
  pub decodes :
      decode_frame (enc ++ (0 ∷ []))
      ≡ some
          (record { frame_type = frame_type; flags = 0; seq = seq; ack = ack; payload = payload })

-- The two ends of `queue_frame` for a frame that can be encoded.
pub record Refused (tx : Ringbuf) (enc : List ℕ) (r : Option (Bool × Ringbuf)) : Type 0 where
  pub is_none : r ≡ none
  pub no_room : tx.cap < tx.len + (length enc + 1)

pub record Queued (tx : Ringbuf) (enc : List ℕ) (r : Option (Bool × Ringbuf)) : Type 0 where
  pub tx' : Ringbuf
  pub is_some : r ≡ some (true, tx')
  pub appended : Holds tx.cap (contents tx ++ (enc ++ (0 ∷ []))) tx'

write_frame_refused :
    (tx : Ringbuf) (bytes : List ℕ)
    → ltb (Ringbuf.free tx) (length bytes) ≡ true
    → write_frame tx bytes ≡ none
unfolding write_frame
write_frame_refused tx bytes h = rw h refl

write_frame_queued :
    (tx : Ringbuf) (bytes : List ℕ)
    → ltb (Ringbuf.free tx) (length bytes) ≡ false
    → write_frame tx bytes
      ≡ some ((Ringbuf.write tx bytes).0 == length bytes, (Ringbuf.write tx bytes).1)
unfolding write_frame
write_frame_queued tx bytes h = rw h refl

frame_into_encoded :
    (tx : Ringbuf) (t s a : ℕ) (payload bytes : List ℕ)
    → encode t s a payload frame_buffer max_encoded_len ≡ some bytes
    → frame_into tx t s a payload ≡ write_frame tx bytes
unfolding frame_into
frame_into_encoded tx t s a payload bytes e =
    ap (λ (o : Option (List ℕ)). elim o [ none ↦ none | some frame ↦ write_frame tx frame ]) e

length-frame_buffer : length frame_buffer ≡ max_encoded_len
unfolding frame_buffer
length-frame_buffer = length-replicate {A = ℕ} max_encoded_len 0

-- Queueing a frame with 16-bit numbers and a payload of at most 497 bytes into a valid ring:
-- there is an encoding of the frame for which the ring either lacks the room, and the call fails,
-- or which it has with its delimiter behind what it held, and the call succeeds.
pub frame_into_lem :
    (tx : Ringbuf) (frame_type seq ack : ℕ) (payload : List ℕ)
    → IsValid tx
    → seq < 2 ^ 16
    → ack < 2 ^ 16
    → length payload ≤ max_payload
    → (enc : List ℕ) × (encode frame_type seq ack payload frame_buffer max_encoded_len
        ≡ some (enc ++ (0 ∷ [])))
      × IsFrame enc frame_type seq ack payload
      × (Refused tx enc (frame_into tx frame_type seq ack payload)
          ⊎ Queued tx enc (frame_into tx frame_type seq ack payload))
frame_into_lem tx t s a payload v hs ha h =
    let (enc, eq, nz, short, dec) =
      decode_frame-encode t s a payload frame_buffer max_encoded_len hs ha h (omega arith)
        (omega (arith, length-frame_buffer)) (omega arith) in
    let bytes = enc ++ (0 ∷ []) in
    let n = length-append enc (0 ∷ []) in
    let f = free_lem tx v in
    let (count, holds) = write_refines tx bytes v in
    (
      enc,
      eq,
      record { nonzero = nz; short = short; decodes = dec },
      elim (Bool-cases (ltb (Ringbuf.free tx) (length bytes))) [
        | inl k ↦ inl (record {
          is_none = frame_into_encoded tx t s a payload bytes eq ∙ write_frame_refused tx bytes k;
          no_room = omega (arith, ltb→lt _ _ k, f, n);
        })
        | inr k ↦
            let room = ltb→le _ _ k in
            let all : (Ringbuf.write tx bytes).0 ≡ length bytes = omega (arith, count, room, f) in
            inr (record {
              tx' = (Ringbuf.write tx bytes).1;
              is_some =
                  frame_into_encoded tx t s a payload bytes eq
                  ∙ write_frame_queued tx bytes k
                  ∙ ap (λ b. some (b, (Ringbuf.write tx bytes).1))
                      (ap (λ m. m == length bytes) all ∙ ==-refl (length bytes));
              appended = Holds-eq holds refl (
                  ap (λ l. contents tx ++ l)
                    (take_all (tx.cap - tx.len) bytes (omega (arith, room, f))));
            })
      ],
    )
