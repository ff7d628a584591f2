-- ===== src/Session/Reception/Settings.antt =====
-- firmware/mc_link_session.c: the negotiated settings stay within their bounds, and the parser of a
-- session holds no more after a frame is handled.
pub mod Handled
use starrysky_mc_server.Prelude.{
  ℕ, ◌+◌, ◌-◌, ◌%◌, ◌≤◌, ◌<◌, ◌≡◌, ◌≢◌, refl, ap, arith, [], Bool, true, false, not, ◌||◌, Option,
  none, some, length, ltb, ◌==◌, Bool-cases, ==→eq, inl, inr, u16_mod, u32_mod,
}
use starrysky_mc_server.Ringbuf
use starrysky_mc_server.Ringbuf.{Ringbuf}
use starrysky_mc_server.Link.Frame.{Frame, max_payload}
use starrysky_mc_server.Link.Parser.{parser_init}
use starrysky_mc_server.Session.{
  Session, TxQueue, tx_none, tx_data, tx_control, err_bad_length, err_sequence, err_unexpected_type,
  err_protocol_state, err_rx_overflow, get_u16_le, min_u16, queue_control_frame, queue_ready,
  ready_payload, queue_error, reset_link_state, reset_link_state_preserving_control_tx,
  clear_active_tx, truncate_ringbuf, emptied,
}
use starrysky_mc_server.Session.Handlers.{
  negotiate, handle_hello, handle_reset, fail_with, accept_into, accept_data, handle_data_c2m,
  handle_frame,
}
use starrysky_mc_server.Session.Reception.{
  data_not_ready, data_duplicate, data_out_of_sequence, data_bad_length, data_next,
  accept_into_full, accept_into_room, Keeps, queue_control_frame-Keeps, queue_ack_c2m-Keeps,
  queue_error-Keeps,
}

-- The settings that the two ends agree on.
pub record IsNegotiated (s : Session) : Type 0 where
  pub payload_positive : 0 < s.negotiated_payload
  pub payload_fits : s.negotiated_payload ≤ max_payload
  pub credit_positive : 0 < s.credit_cap
  pub credit_fits : s.credit_cap ≤ 512

-- What a handler may do to the settings and to the parser: the settings stay as they are, or are
-- within their bounds, and the parser keeps its buffer, or is emptied.
pub record Steady (s s' : Session) : Type 0 where
  pub settings : IsNegotiated s → IsNegotiated s'
  pub no_longer : length s'.parser.buf ≤ length s.parser.buf

pub Keeps-Steady : {s s' : Session} → Keeps s s' → Steady s s'
Keeps-Steady {s} {s'} k = record {
  settings = λ i. record {
    payload_positive = omega (arith, k.negotiated_kept, i.payload_positive);
    payload_fits = omega (arith, k.negotiated_kept, i.payload_fits);
    credit_positive = omega (arith, k.credit_kept, i.credit_positive);
    credit_fits = omega (arith, k.credit_kept, i.credit_fits);
  };
  no_longer = omega (arith, ap (λ p. length p.buf) k.parser_kept);
}

pub Steady-trans : {s s' s'' : Session} → Steady s s' → Steady s' s'' → Steady s s''
Steady-trans a b = record {
  settings = λ i. b.settings (a.settings i);
  no_longer = omega (arith, a.no_longer, b.no_longer);
}

pub reset_settings :
    (s : Session)
    → ((reset_link_state s).negotiated_payload ≡ s.negotiated_payload)
      × ((reset_link_state s).credit_cap ≡ s.credit_cap)
      × ((reset_link_state s).parser ≡ parser_init)
unfolding reset_link_state reset_link_state_preserving_control_tx clear_active_tx
reset_settings s = by_queue s.active_tx_queue
  where
    by_queue :
        (q : TxQueue)
        → let r = elim q as (λ _. Session) [
          | tx_control ↦ record (reset_link_state_preserving_control_tx s) {
            control_tx = truncate_ringbuf s.control_tx s.active_tx_remaining;
          }
          | tx_data ↦ record (reset_link_state_preserving_control_tx s) {
            control_tx = emptied s.control_tx;
          }
          | tx_none ↦ clear_active_tx (record (reset_link_state_preserving_control_tx s) {
            control_tx = emptied s.control_tx;
          })
        ] in
          (r.negotiated_payload ≡ s.negotiated_payload)
          × (r.credit_cap ≡ s.credit_cap)
          × (r.parser ≡ parser_init)
    by_queue TxQueue.tx_none = (refl, refl, refl)
    by_queue TxQueue.tx_data = (refl, refl, refl)
    by_queue TxQueue.tx_control = (refl, refl, refl)

pub queue_ready-Keeps : (s : Session) → Keeps s (queue_ready s).1
unfolding queue_ready
queue_ready-Keeps s = queue_control_frame-Keeps 2 0 0 (ready_payload s) s

pub min_u16-bounds : (a b : ℕ) → 0 < a → 0 < b → (0 < min_u16 a b) × (min_u16 a b ≤ b)
unfolding min_u16
min_u16-bounds a b h k = (ground arith, ground arith)

pub negotiate-Steady :
    (payload credit mask : ℕ) (s : Session)
    → 0 < payload
    → 0 < credit
    → Steady s (negotiate payload credit mask s)
unfolding negotiate
negotiate-Steady payload credit mask s h k =
    let (p, q) = min_u16-bounds payload max_payload h (omega arith) in
    let (c, d) = min_u16-bounds credit 512 k (omega arith) in
    let (x, y, z) = reset_settings s in
    record {
      settings = λ i. record {
        payload_positive = p;
        payload_fits = q;
        credit_positive = c;
        credit_fits = d;
      };
      no_longer = rw z (unfold parser_init in omega arith);
    }

pub hello_refused :
    (f : Frame) (s : Session)
    → (not (length f.payload == 6) || (get_u16_le f.payload 0 == 0 || get_u16_le f.payload 2 == 0))
      ≡ true
    → handle_hello f s ≡ queue_error err_bad_length 0 s
unfolding handle_hello
hello_refused f s h = ground arith

-- A HELLO of the right length that asks for something.
pub hello_taken :
    (f : Frame) (s : Session)
    → (not (length f.payload == 6) || (get_u16_le f.payload 0 == 0 || get_u16_le f.payload 2 == 0))
      ≡ false
    → handle_hello f s
      ≡ queue_ready
          (negotiate (get_u16_le f.payload 0) (get_u16_le f.payload 2) (get_u16_le f.payload 4) s)
unfolding handle_hello
hello_taken f s h = ground arith

pub handle_hello-Steady : (f : Frame) (s : Session) → Steady s (handle_hello f s).1
handle_hello-Steady f s =
    let test =
      not (length f.payload == 6) || (get_u16_le f.payload 0 == 0 || get_u16_le f.payload 2 == 0) in
    elim (Bool-cases test) [
      | inl e ↦ rw (hello_refused f s e) (Keeps-Steady (queue_error-Keeps err_bad_length 0 s))
      | inr e ↦
          let s' =
            negotiate (get_u16_le f.payload 0) (get_u16_le f.payload 2) (get_u16_le f.payload 4)
              s in
          rw (hello_taken f s e) (
            Steady-trans
              (negotiate-Steady (get_u16_le f.payload 0) (get_u16_le f.payload 2)
                (get_u16_le f.payload 4) s (ground arith) (ground arith))
              (Keeps-Steady (queue_ready-Keeps s')))
    ]

pub handle_reset-Steady : (f : Frame) (s : Session) → Steady s (handle_reset f s).1
unfolding handle_reset
handle_reset-Steady f s =
    let s1 = record (reset_link_state s) { reset_requested = true } in
    let ack = queue_control_frame 9 f.seq f.ack [] s1 in
    let (x, y, z) = reset_settings s in
    let first : Steady s s1 = record {
      settings = λ i. record {
        payload_positive = omega (arith, x, i.payload_positive);
        payload_fits = omega (arith, x, i.payload_fits);
        credit_positive = omega (arith, y, i.credit_positive);
        credit_fits = omega (arith, y, i.credit_fits);
      };
      no_longer = rw z (unfold parser_init in omega arith);
    } in
    let second =
      Steady-trans first (Keeps-Steady (queue_control_frame-Keeps 9 f.seq f.ack [] s1)) in
    elim (Bool-cases ack.0) [
      | inl e ↦ rw e (Steady-trans second (Keeps-Steady (queue_ready-Keeps ack.1)))
      | inr e ↦ rw e second
    ]
