-- ===== src/Session/Sending/Server.antt =====
-- firmware/mc_link_session.c: the server's output goes into data frames.
use starrysky_mc_server.Prelude.{
  ℕ, suc, ◌+◌, ◌-◌, ◌%◌, ◌^◌, ◌≤◌, ◌<◌, ◌≡◌, ◌⊎◌, refl, ap, sym, ◌∙◌, arith, List, [], ◌∷◌, ◌++◌,
  Bool, true, false, Option, none, some, length, length-append, length-take, append_assoc,
  take-append-drop, ◌==◌, min, inl, inr, u16_mod, u32_mod,
}
use starrysky_mc_server.Prelude
use starrysky_mc_server.Ringbuf
use starrysky_mc_server.Ringbuf.{Ringbuf}
use starrysky_mc_server.Ringbuf.Bounds.{IsValid}
use starrysky_mc_server.Ringbuf.Refine.{contents, length-contents, Holds}
use starrysky_mc_server.Ringbuf.Reads.{drop_refines}
use starrysky_mc_server.Link.Frame.{max_payload, max_encoded_len, encode}
use starrysky_mc_server.Session.{Session, frame_buffer, frame_into, queue_data_frame, count_failure}
use starrysky_mc_server.Session.Queueing.{IsFrame, frame_into_lem}
use starrysky_mc_server.Session.Transmit.{peek_ringbuf, take_len, queue_payload, queue_server_tx}
use starrysky_mc_server.Session.Sending.{peek_at}

peek_ringbuf_step :
    (rb : Ringbuf) (i n b : ℕ) (bytes : List ℕ)
    → Ringbuf.peek rb i ≡ some b
    → peek_ringbuf rb (suc i) n ≡ some bytes
    → peek_ringbuf rb i (suc n) ≡ some (b ∷ bytes)
unfolding peek_ringbuf
peek_ringbuf_step rb i n b bytes e r =
    ap
      (λ (o : Option ℕ). elim o as (λ _. Option (List ℕ)) [
        | none ↦ none
        | some byte ↦ elim (peek_ringbuf rb (suc i) n) [ none ↦ none | some bs ↦ some (byte ∷ bs) ]
      ])
      e
    ∙ ap
        (λ (o : Option (List ℕ)). elim o as (λ _. Option (List ℕ)) [
          | none ↦ none
          | some bs ↦ some (b ∷ bs)
        ])
        r

peek_ringbuf_at :
    (bytes front rest : List ℕ) (rb : Ringbuf) (i : ℕ)
    → IsValid rb
    → contents rb ≡ front ++ (bytes ++ rest)
    → i ≡ length front
    → peek_ringbuf rb i (length bytes) ≡ some bytes
peek_ringbuf_at [] front rest rb i v e h = unfold peek_ringbuf in refl
peek_ringbuf_at (b ∷ bytes) front rest rb i v e h =
    peek_ringbuf_step rb i (length bytes) b bytes (peek_at rb front (bytes ++ rest) b i v e h) (
      peek_ringbuf_at bytes (front ++ (b ∷ [])) rest rb (suc i) v
        (e ∙ sym (append_assoc front (b ∷ []) (bytes ++ rest)))
        (omega (arith, length-append front (b ∷ []))))

-- `peek_ringbuf` copies the oldest bytes of a valid ring that holds as many.
pub peek_ringbuf_lem :
    (rb : Ringbuf) (n : ℕ)
    → IsValid rb
    → n ≤ rb.len
    → peek_ringbuf rb 0 n ≡ some (Prelude.take n (contents rb))
peek_ringbuf_lem rb n v h =
    let bytes = Prelude.take n (contents rb) in
    let count : length bytes ≡ n = omega (arith, length-take n (contents rb), length-contents rb) in
    ap (peek_ringbuf rb 0) (sym count)
    ∙ peek_ringbuf_at bytes [] (Prelude.drop n (contents rb)) rb 0 v
        (sym (take-append-drop n (contents rb))) refl

queue_data_refused :
    (t q a : ℕ) (payload : List ℕ) (s : Session)
    → frame_into s.tx t q a payload ≡ none
    → queue_data_frame t q a payload s ≡ (false, count_failure s)
unfolding queue_data_frame
queue_data_refused t q a payload s e =
    ap
      (λ (o : Option (Bool × Ringbuf)). elim o as (λ _. Bool × Session) [
        | none ↦ (false, count_failure s)
        | some (done, tx') ↦ (done, record s { tx = tx' })
      ])
      e

queue_data_queued :
    (t q a : ℕ) (payload : List ℕ) (s : Session) (tx' : Ringbuf)
    → frame_into s.tx t q a payload ≡ some (true, tx')
    → queue_data_frame t q a payload s ≡ (true, record s { tx = tx' })
unfolding queue_data_frame
queue_data_queued t q a payload s tx' e =
    ap
      (λ (o : Option (Bool × Ringbuf)). elim o as (λ _. Bool × Session) [
        | none ↦ (false, count_failure s)
        | some (done, tx') ↦ (done, record s { tx = tx' })
      ])
      e

-- `enc` and a delimiter encode the data frame with the next number and the oldest `n` bytes.
pub record NextFrame (n : ℕ) (enc : List ℕ) (s : Session) (server_tx : Ringbuf) : Type 0 where
  pub encoded :
      encode 5 s.tx_seq_next s.rx_seq_expected
        (Prelude.take n (contents server_tx))
        frame_buffer
        max_encoded_len
      ≡ some (enc ++ (0 ∷ []))
  pub frame : IsFrame enc 5 s.tx_seq_next s.rx_seq_expected (Prelude.take n (contents server_tx))

-- The frame `enc` with the oldest `n` bytes has gone from the server's output to the data queue.
pub record Moved (n : ℕ) (enc : List ℕ) (s : Session) (server_tx : Ringbuf)
    (r : Bool × (Session × Ringbuf)) : Type 0 where
  pub done : r.0 ≡ true
  pub queued : Holds s.tx.cap (contents s.tx ++ (enc ++ (0 ∷ []))) r.1.0.tx
  pub session_is : r.1.0 ≡ record s {
    tx = r.1.0.tx;
    tx_seq_next = (s.tx_seq_next + 1) % u16_mod;
    data_m2c_frames = (s.data_m2c_frames + 1) % u32_mod;
  }
  pub left : Holds server_tx.cap (Prelude.drop n (contents server_tx)) r.1.1

-- There was no room for the frame `enc`, and but for the count of errors nothing has changed.
pub record Unmoved (enc : List ℕ) (s : Session) (server_tx : Ringbuf)
    (r : Bool × (Session × Ringbuf)) : Type 0 where
  pub failed : r.0 ≡ false
  pub no_room : s.tx.cap < s.tx.len + (length enc + 1)
  pub session_is : r.1.0 ≡ record s { error_count = (s.error_count + 1) % u32_mod }
  pub left_alone : r.1.1 ≡ server_tx

queue_payload_refused :
    (n : ℕ) (payload : List ℕ) (s : Session) (server_tx : Ringbuf)
    → queue_data_frame 5 s.tx_seq_next s.rx_seq_expected payload s ≡ (false, count_failure s)
    → queue_payload n payload s server_tx ≡ (false, (count_failure s, server_tx))
unfolding queue_payload
queue_payload_refused n payload s server_tx e = rw e refl

queue_payload_queued :
    (n : ℕ) (payload : List ℕ) (s : Session) (server_tx tx' : Ringbuf)
    → queue_data_frame 5 s.tx_seq_next s.rx_seq_expected payload s ≡ (true, record s { tx = tx' })
    → queue_payload n payload s server_tx ≡ (
      true,
      (
        record s {
          tx = tx';
          tx_seq_next = (s.tx_seq_next + 1) % u16_mod;
          data_m2c_frames = (s.data_m2c_frames + 1) % u32_mod;
        },
        Ringbuf.drop server_tx n,
      ),
    )
unfolding queue_payload
queue_payload_queued n payload s server_tx tx' e = rw e refl

queue_payload_lem :
    (n : ℕ) (s : Session) (server_tx : Ringbuf)
    → IsValid s.tx
    → IsValid server_tx
    → n ≤ max_payload
    → s.tx_seq_next < 2 ^ 16
    → s.rx_seq_expected < 2 ^ 16
    → let r = queue_payload n (Prelude.take n (contents server_tx)) s server_tx in
      (enc : List ℕ) × NextFrame n enc s server_tx
      × (Moved n enc s server_tx r ⊎ Unmoved enc s server_tx r)
queue_payload_lem n s server_tx v w h hs hr =
    let payload = Prelude.take n (contents server_tx) in
    let (enc, encoded, frame, result) =
      frame_into_lem s.tx 5 s.tx_seq_next s.rx_seq_expected payload v hs hr
        (omega (arith, length-take n (contents server_tx))) in
    (
      enc,
      record { encoded = encoded; frame = frame },
      elim result [
        | inl refused ↦
            rw
              (queue_payload_refused n payload s server_tx
                (queue_data_refused 5 s.tx_seq_next s.rx_seq_expected payload s refused.is_none))
              (inr (record {
                failed = refl;
                no_room = refused.no_room;
                session_is = unfold count_failure in refl;
                left_alone = refl;
              }))
        | inr queued ↦
            rw
              (queue_payload_queued n payload s server_tx queued.tx' (
                queue_data_queued 5 s.tx_seq_next s.rx_seq_expected payload s queued.tx'
                  queued.is_some))
              (inl (record {
                done = refl;
                queued = queued.appended;
                session_is = refl;
                left = drop_refines server_tx n w;
              }))
      ],
    )

take_len_lem :
    (s : Session) (server_tx : Ringbuf)
    → 0 < s.negotiated_payload
    → s.negotiated_payload ≤ max_payload
    → take_len s server_tx ≡ min s.negotiated_payload server_tx.len
unfolding take_len
take_len_lem s server_tx h k = ground arith

queue_server_tx_on :
    (s : Session) (server_tx : Ringbuf) (n : ℕ) (payload : List ℕ)
    → take_len s server_tx ≡ n
    → 0 < n
    → s.ready ≡ true
    → peek_ringbuf server_tx 0 n ≡ some payload
    → queue_server_tx s server_tx ≡ queue_payload n payload s server_tx
unfolding queue_server_tx
queue_server_tx_on s server_tx n payload t h up e =
    let z : (n == 0) ≡ false = ground arith in rw (t, z, e) (ground arith)

-- For a session that is up, with 16-bit numbers, a negotiated length from 1 to 497 and a valid
-- data queue, and a valid server output that is not empty: there is an encoding of the data frame
-- with the next number and the oldest bytes of the output, as many as the negotiated length
-- allows; it joins the queue whole, these bytes leave the output and the number advances; or the
-- queue lacks the room for it, the call fails, and nothing but the count of errors has changed.
pub queue_server_tx_lem :
    (s : Session) (server_tx : Ringbuf)
    → s.ready ≡ true
    → IsValid s.tx
    → IsValid server_tx
    → 0 < server_tx.len
    → 0 < s.negotiated_payload
    → s.negotiated_payload ≤ max_payload
    → s.tx_seq_next < 2 ^ 16
    → s.rx_seq_expected < 2 ^ 16
    → (enc : List ℕ) × NextFrame (min s.negotiated_payload server_tx.len) enc s server_tx
      × (Moved
            (min s.negotiated_payload server_tx.len)
            enc
            s
            server_tx
            (queue_server_tx s server_tx)
          ⊎ Unmoved enc s server_tx (queue_server_tx s server_tx))
queue_server_tx_lem s server_tx up v w some_bytes h k hs hr =
    let n = min s.negotiated_payload server_tx.len in
    rw
      (queue_server_tx_on s server_tx n (Prelude.take n (contents server_tx))
        (take_len_lem s server_tx h k) (omega arith) up
        (peek_ringbuf_lem server_tx n w (omega arith)))
      (queue_payload_lem n s server_tx v w (omega arith) hs hr)
