-- ===== src/Session/Sending/Order/Reading.antt =====
-- firmware/mc_link_session.c: the choice of the frame, and what one call sends of it.
use starrysky_mc_server.Prelude.{
  ℕ, ◌+◌, ◌≤◌, ◌<◌, ◌≡◌, refl, ap, sym, ◌∙◌, arith, List, ◌∷◌, ◌++◌, false, Option, none, some,
  length, length-append, ◌==◌, All,
}
use starrysky_mc_server.Ringbuf.Bounds.{IsValid}
use starrysky_mc_server.Ringbuf.Refine.{contents, length-contents}
use starrysky_mc_server.Link.Cobs.Blocks.{IsNonzero}
use starrysky_mc_server.Session.{Session, TxQueue, tx_none, tx_data, tx_control}
use starrysky_mc_server.Session.Transmit.{
  next_frame_len, begin_frame, choose_frame, send_active, read_tx,
}
use starrysky_mc_server.Session.Sending.{next_frame_len_lem, next_frame_len_empty}
use starrysky_mc_server.Session.Sending.Order.{
  SentData, SentControl, send_active-SentData, send_active-SentControl,
}

choose_frame_at :
    (s : Session) (q : TxQueue)
    → s.active_tx_queue ≡ q
    → choose_frame s ≡ (elim q as (λ _. Option Session) [ tx_none ↦ begin_frame s | _ ↦ some s ])
unfolding choose_frame
choose_frame_at s q e =
    ap (λ (q : TxQueue). elim q as (λ _. Option Session) [ tx_none ↦ begin_frame s | _ ↦ some s ]) e

begin_control :
    (s : Session) (n : ℕ)
    → next_frame_len s.control_tx ≡ some n
    → begin_frame s ≡ some (record s { active_tx_queue = tx_control; active_tx_remaining = n })
unfolding begin_frame
begin_control s n e =
    ap
      (λ (o : Option ℕ). elim o as (λ _. Option Session) [
        | some frame_len ↦
            some (record s { active_tx_queue = tx_control; active_tx_remaining = frame_len })
        | none ↦ elim (next_frame_len s.tx) [
          | some frame_len ↦
              some (record s { active_tx_queue = tx_data; active_tx_remaining = frame_len })
          | none ↦ none
        ]
      ])
      e

begin_data :
    (s : Session) (n : ℕ)
    → next_frame_len s.control_tx ≡ none
    → next_frame_len s.tx ≡ some n
    → begin_frame s ≡ some (record s { active_tx_queue = tx_data; active_tx_remaining = n })
unfolding begin_frame
begin_data s n e d =
    ap
      (λ (o : Option ℕ). elim o as (λ _. Option Session) [
        | some frame_len ↦
            some (record s { active_tx_queue = tx_control; active_tx_remaining = frame_len })
        | none ↦ elim (next_frame_len s.tx) [
          | some frame_len ↦
              some (record s { active_tx_queue = tx_data; active_tx_remaining = frame_len })
          | none ↦ none
        ]
      ])
      e
    ∙ ap
        (λ (o : Option ℕ). elim o as (λ _. Option Session) [
          | some frame_len ↦
              some (record s { active_tx_queue = tx_data; active_tx_remaining = frame_len })
          | none ↦ none
        ])
        d

read_tx_on :
    (max_len : ℕ) (s s' : Session)
    → 0 < max_len
    → choose_frame s ≡ some s'
    → read_tx max_len s ≡ send_active max_len s'
unfolding read_tx
read_tx_on max_len s s' h e = let t : (max_len == 0) ≡ false = ground arith in rw (t, e) refl

-- While a data frame is being sent of which a byte at least is left, with that many bytes in a
-- valid data queue, a call with room for a byte at least sends the next bytes of this frame
-- whatever the control queue holds, leaves the control queue as it is, and ends the frame exactly
-- where nothing of it is left.
pub read_tx-SentData :
    (max_len : ℕ) (s : Session)
    → s.active_tx_queue ≡ tx_data
    → IsValid s.tx
    → 0 < max_len
    → 0 < s.active_tx_remaining
    → s.active_tx_remaining ≤ s.tx.len
    → SentData max_len s.active_tx_remaining s (read_tx max_len s)
read_tx-SentData max_len s q v hm hr hl =
    rw (read_tx_on max_len s s hm (choose_frame_at s tx_data q))
      (send_active-SentData max_len s q v hm hr hl)

-- While a control frame is being sent of which a byte at least is left, with that many bytes in a
-- valid control queue, a call with room for a byte at least sends the next bytes of this frame,
-- leaves the data queue as it is, and ends the frame exactly where nothing of it is left.
pub read_tx-SentControl :
    (max_len : ℕ) (s : Session)
    → s.active_tx_queue ≡ tx_control
    → IsValid s.control_tx
    → 0 < max_len
    → 0 < s.active_tx_remaining
    → s.active_tx_remaining ≤ s.control_tx.len
    → SentControl max_len s.active_tx_remaining s (read_tx max_len s)
read_tx-SentControl max_len s q v hm hr hl =
    rw (read_tx_on max_len s s hm (choose_frame_at s tx_control q))
      (send_active-SentControl max_len s q v hm hr hl)

-- Where no frame is being sent and the valid control queue begins with an encoded frame, a call
-- with room for a byte at least sends the front of that frame, as much as fits, whatever the data
-- queue holds; it leaves the data queue as it is and keeps account of what is left of the frame.
pub read_tx-control_first :
    (max_len : ℕ) (s : Session) (enc rest : List ℕ)
    → s.active_tx_queue ≡ tx_none
    → IsValid s.control_tx
    → All IsNonzero enc
    → contents s.control_tx ≡ enc ++ (0 ∷ rest)
    → 0 < max_len
    → SentControl max_len (length enc + 1) s (read_tx max_len s)
read_tx-control_first max_len s enc rest q v nz e hm =
    let n = length enc + 1 in
    let s' = record s { active_tx_queue = tx_control; active_tx_remaining = n } in
    let chosen =
      choose_frame_at s tx_none q
      ∙ begin_control s n (next_frame_len_lem s.control_tx enc rest v nz e) in
    let fits = sym (length-contents s.control_tx) ∙ ap length e ∙ length-append enc (0 ∷ rest) in
    let sent = send_active-SentControl max_len s' refl v hm (omega arith) (omega (arith, fits)) in
    rw (read_tx_on max_len s s' hm chosen) (record {
      bytes_are = sent.bytes_are;
      holds = sent.holds;
      other_same = sent.other_same;
      left_is = sent.left_is;
      queue_is = sent.queue_is;
    })

-- Where no frame is being sent, the control queue is empty and the valid data queue begins with
-- an encoded frame, a call with room for a byte at least sends the front of that frame, as much
-- as fits, and keeps account of what is left of it.
pub read_tx-data_next :
    (max_len : ℕ) (s : Session) (enc rest : List ℕ)
    → s.active_tx_queue ≡ tx_none
    → s.control_tx.len ≡ 0
    → IsValid s.tx
    → All IsNonzero enc
    → contents s.tx ≡ enc ++ (0 ∷ rest)
    → 0 < max_len
    → SentData max_len (length enc + 1) s (read_tx max_len s)
read_tx-data_next max_len s enc rest q none_left v nz e hm =
    let n = length enc + 1 in
    let s' = record s { active_tx_queue = tx_data; active_tx_remaining = n } in
    let chosen =
      choose_frame_at s tx_none q
      ∙ begin_data s n (next_frame_len_empty s.control_tx none_left)
          (next_frame_len_lem s.tx enc rest v nz e) in
    let fits = sym (length-contents s.tx) ∙ ap length e ∙ length-append enc (0 ∷ rest) in
    let sent = send_active-SentData max_len s' refl v hm (omega arith) (omega (arith, fits)) in
    rw (read_tx_on max_len s s' hm chosen) (record {
      bytes_are = sent.bytes_are;
      holds = sent.holds;
      other_same = sent.other_same;
      left_is = sent.left_is;
      queue_is = sent.queue_is;
    })
