-- ===== src/Session/Sending/Order.antt =====
-- firmware/mc_link_session.c: `mc_link_session_read_tx` finishes the frame it has begun, and begins a
-- control frame where there is one.
pub mod Reading
use starrysky_mc_server.Prelude.{
  ℕ, zero, suc, ◌+◌, ◌-◌, ◌≤◌, ◌<◌, ◌≡◌, refl, ap, sym, ◌∙◌, arith, List, [], ◌∷◌, ◌++◌, Bool, true,
  false, not, ◌&&◌, ◌||◌, Option, none, some, length, length-append, append_assoc, leb, ltb, ◌==◌,
  if◌then◌else◌, All, min, Bool-cases, inl, inr, ◌≢◌,
}
use starrysky_mc_server.Prelude
use starrysky_mc_server.Ringbuf.{Ringbuf}
use starrysky_mc_server.Ringbuf.Bounds.{IsValid}
use starrysky_mc_server.Ringbuf.Refine.{contents, length-contents, Holds}
use starrysky_mc_server.Link.Cobs.Blocks.{IsNonzero}
use starrysky_mc_server.Session.{Session, TxQueue, tx_none, tx_data, tx_control, clear_active_tx}
use starrysky_mc_server.Session.Transmit.{
  next_frame_len, begin_frame, choose_frame, send_active, read_tx,
}
use starrysky_mc_server.Session.Sending.{
  next_frame_len_lem, next_frame_len_empty, settled, with_control, with_data, send_from_lem,
  send_active_control, send_active_data,
}

pub settled-data :
    (left : ℕ) (rb : Ringbuf) (s : Session)
    → let s' = settled left with_data rb s in
      (s'.tx ≡ rb)
      × (s'.control_tx ≡ s.control_tx)
      × (s'.active_tx_remaining ≡ left)
      × (s'.active_tx_queue ≡ (if left == 0 then tx_none else s.active_tx_queue))
unfolding settled with_data clear_active_tx
settled-data left rb s = elim (Bool-cases (left == 0)) [
  | inl e ↦ rw e (refl, refl, ground arith, refl)
  | inr e ↦ rw e (refl, refl, refl, refl)
]

pub settled-control :
    (left : ℕ) (rb : Ringbuf) (s : Session)
    → let s' = settled left with_control rb s in
      (s'.control_tx ≡ rb)
      × (s'.tx ≡ s.tx)
      × (s'.active_tx_remaining ≡ left)
      × (s'.active_tx_queue ≡ (if left == 0 then tx_none else s.active_tx_queue))
unfolding settled with_control clear_active_tx
settled-control left rb s = elim (Bool-cases (left == 0)) [
  | inl e ↦ rw e (refl, refl, ground arith, refl)
  | inr e ↦ rw e (refl, refl, refl, refl)
]

-- What one call does with the data queue: it sends as much of the frame as `max_len` allows, from the
-- front, leaves the rest and the control queue, and ends the frame where nothing of it is left.
pub record SentData (max_len remaining : ℕ) (s : Session) (r : List ℕ × Session) : Type 0 where
  pub bytes_are : r.0 ≡ Prelude.take (min max_len remaining) (contents s.tx)
  pub holds : Holds s.tx.cap (Prelude.drop (min max_len remaining) (contents s.tx)) r.1.tx
  pub other_same : r.1.control_tx ≡ s.control_tx
  pub left_is : r.1.active_tx_remaining ≡ remaining - min max_len remaining
  pub queue_is : r.1.active_tx_queue ≡ (if leb remaining max_len then tx_none else tx_data)

-- The same for the control queue.
pub record SentControl (max_len remaining : ℕ) (s : Session) (r : List ℕ × Session) : Type 0 where
  pub bytes_are : r.0 ≡ Prelude.take (min max_len remaining) (contents s.control_tx)
  pub holds :
      Holds s.control_tx.cap
        (Prelude.drop (min max_len remaining) (contents s.control_tx))
        r.1.control_tx
  pub other_same : r.1.tx ≡ s.tx
  pub left_is : r.1.active_tx_remaining ≡ remaining - min max_len remaining
  pub queue_is : r.1.active_tx_queue ≡ (if leb remaining max_len then tx_none else tx_control)

pub send_active-SentData :
    (max_len : ℕ) (s : Session)
    → s.active_tx_queue ≡ tx_data
    → IsValid s.tx
    → 0 < max_len
    → 0 < s.active_tx_remaining
    → s.active_tx_remaining ≤ s.tx.len
    → SentData max_len s.active_tx_remaining s (send_active max_len s)
send_active-SentData max_len s q v hm hr hl =
    let (bytes, rb', left, e, sends) = send_from_lem s.tx with_data max_len s v hm hr hl in
    let (tx_is, other, left_is, queue) = settled-data left rb' s in
    let l : left ≡ s.active_tx_remaining - min max_len s.active_tx_remaining = sends.left_is in
    let test : (left == 0) ≡ leb s.active_tx_remaining max_len = ground arith in
    rw (send_active_data max_len s q, e)
      (record {
        bytes_are = sends.bytes_are;
        holds = rw tx_is sends.holds;
        other_same = other;
        left_is = left_is ∙ l;
        queue_is = queue ∙ rw (test, q) refl;
      })

pub send_active-SentControl :
    (max_len : ℕ) (s : Session)
    → s.active_tx_queue ≡ tx_control
    → IsValid s.control_tx
    → 0 < max_len
    → 0 < s.active_tx_remaining
    → s.active_tx_remaining ≤ s.control_tx.len
    → SentControl max_len s.active_tx_remaining s (send_active max_len s)
send_active-SentControl max_len s q v hm hr hl =
    let (bytes, rb', left, e, sends) =
      send_from_lem s.control_tx with_control max_len s v hm hr hl in
    let (tx_is, other, left_is, queue) = settled-control left rb' s in
    let l : left ≡ s.active_tx_remaining - min max_len s.active_tx_remaining = sends.left_is in
    let test : (left == 0) ≡ leb s.active_tx_remaining max_len = ground arith in
    rw (send_active_control max_len s q, e)
      (record {
        bytes_are = sends.bytes_are;
        holds = rw tx_is sends.holds;
        other_same = other;
        left_is = left_is ∙ l;
        queue_is = queue ∙ rw (test, q) refl;
      })
