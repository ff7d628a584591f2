-- ===== src/Session/Reception.antt =====
-- firmware/mc_link_session.c: what a data frame from the bridge does to the server's input.
pub mod Data
pub mod Exactly
pub mod Settings
pub mod Ending
use starrysky_mc_server.Prelude.{
  ℕ, zero, suc, ◌+◌, ◌-◌, ◌%◌, ◌^◌, ◌≤◌, ◌<◌, ◌≡◌, ◌≢◌, ◌⊎◌, inl, inr, refl, ap, sym, ◌∙◌, arith,
  List, [], ◌∷◌, ◌++◌, Bool, true, false, not, ◌&&◌, ◌||◌, Option, none, some, length, append-nil,
  take_all, ltb, ◌==◌, if◌then◌else◌, Bool-cases, Option-cases, ltb→le, ==→eq, ==-refl, u16_mod,
  u32_mod, min,
}
use starrysky_mc_server.Ringbuf
use starrysky_mc_server.Ringbuf.{Ringbuf}
use starrysky_mc_server.Ringbuf.Bounds.{IsValid, free_lem}
use starrysky_mc_server.Ringbuf.Refine.{contents, Holds, Holds-eq, write_refines}
use starrysky_mc_server.Link.Parser.{Parser}
use starrysky_mc_server.Link.Frame.{Frame}
use starrysky_mc_server.Session.{
  Session, type_error, err_bad_length, err_sequence, err_rx_overflow, err_protocol_state,
  frame_into, count_failure, queue_control_frame, queue_ack_c2m, queue_error, rx_free_credit,
  put_u16_le,
}
use starrysky_mc_server.Session.Handlers.{fail_with, accept_into, accept_data, handle_data_c2m}

-- What queueing a control frame does not touch.
pub record Keeps (s s' : Session) : Type 0 where
  pub rx_kept : s'.rx ≡ s.rx
  pub expected_kept : s'.rx_seq_expected ≡ s.rx_seq_expected
  pub negotiated_kept : s'.negotiated_payload ≡ s.negotiated_payload
  pub credit_kept : s'.credit_cap ≡ s.credit_cap
  pub ready_kept : s'.ready ≡ s.ready
  pub parser_kept : s'.parser ≡ s.parser

pub Keeps-refl : (s : Session) → Keeps s s
Keeps-refl s = record {
  rx_kept = refl;
  expected_kept = refl;
  negotiated_kept = refl;
  credit_kept = refl;
  ready_kept = refl;
  parser_kept = refl;
}

pub queue_control_frame-Keeps :
    (t q a : ℕ) (payload : List ℕ) (s : Session) → Keeps s (queue_control_frame t q a payload s).1
unfolding queue_control_frame count_failure
queue_control_frame-Keeps t q a payload s = by_result (frame_into s.control_tx t q a payload)
  where
    by_result :
        (r : Option (Bool × Ringbuf))
        → Keeps s
            (elim r as (λ _. Bool × Session) [
              | none ↦ (false, count_failure s)
              | some (done, tx') ↦ (done, record s { control_tx = tx' })
            ]).1
    by_result none = record {
      rx_kept = refl;
      expected_kept = refl;
      negotiated_kept = refl;
      credit_kept = refl;
      ready_kept = refl;
      parser_kept = refl;
    }
    by_result (some (done, tx')) = record {
      rx_kept = refl;
      expected_kept = refl;
      negotiated_kept = refl;
      credit_kept = refl;
      ready_kept = refl;
      parser_kept = refl;
    }

pub queue_ack_c2m-Keeps : (a : ℕ) (s : Session) → Keeps s (queue_ack_c2m a s).1
unfolding queue_ack_c2m
queue_ack_c2m-Keeps a s =
    let queue = queue_control_frame 4 0 a (put_u16_le (rx_free_credit s)) s in
    let k = queue_control_frame-Keeps 4 0 a (put_u16_le (rx_free_credit s)) s in
    elim (Bool-cases queue.0) [
      | inl e ↦ rw e (record {
        rx_kept = k.rx_kept;
        expected_kept = k.expected_kept;
        negotiated_kept = k.negotiated_kept;
        credit_kept = k.credit_kept;
        ready_kept = k.ready_kept;
        parser_kept = k.parser_kept;
      })
      | inr e ↦ rw e k
    ]

pub queue_error-Keeps : (code detail : ℕ) (s : Session) → Keeps s (queue_error code detail s).1
unfolding queue_error count_failure
queue_error-Keeps code detail s =
    let k = queue_control_frame-Keeps 10 0 0 (code ∷ detail ∷ []) (count_failure s) in
    record {
      rx_kept = k.rx_kept;
      expected_kept = k.expected_kept;
      negotiated_kept = k.negotiated_kept;
      credit_kept = k.credit_kept;
      ready_kept = k.ready_kept;
      parser_kept = k.parser_kept;
    }

-- The conditions under which the bridge's data is taken: the session is up, the frame is the next
-- one, it has a payload within the negotiated length, and the server's input has the room.
unfoldable pub accepts : Session → Frame → Ringbuf → Bool
accepts s frame rx =
    s.ready
    && (frame.seq == s.rx_seq_expected
        && (ltb 0 (length frame.payload)
            && (not (ltb s.negotiated_payload (length frame.payload))
                && not (ltb (rx.cap - rx.len) (length frame.payload)))))

-- The server's input has received `bytes`, and the session waits for the frame `expected`.
pub record Received (s : Session) (rx : Ringbuf) (bytes : List ℕ) (expected : ℕ) (s' : Session)
    : Type 0 where
  pub rx' : Ringbuf
  pub is_some : s'.rx ≡ some rx'
  pub holds : Holds rx.cap (contents rx ++ bytes) rx'
  pub expects : s'.rx_seq_expected ≡ expected
  pub negotiated_same : s'.negotiated_payload ≡ s.negotiated_payload
  pub ready_same : s'.ready ≡ s.ready

pub Keeps-Received :
    {s s' : Session} (rx : Ringbuf)
    → s.rx ≡ some rx
    → IsValid rx
    → Keeps s s'
    → Received s rx [] s.rx_seq_expected s'
Keeps-Received rx e v k = record {
  rx' = rx;
  is_some = k.rx_kept ∙ e;
  holds = record { valid = v; same_cap = refl; holds = sym (append-nil (contents rx)) };
  expects = k.expected_kept;
  negotiated_same = k.negotiated_kept;
  ready_same = k.ready_kept;
}

pub data_not_ready :
    (f : Frame) (s : Session)
    → s.ready ≡ false
    → handle_data_c2m f s ≡ queue_error err_protocol_state f.frame_type s
unfolding handle_data_c2m
data_not_ready f s h = ground arith

-- The frame before the expected one, again.
pub data_duplicate :
    (f : Frame) (s : Session)
    → s.ready ≡ true
    → f.seq ≡ (s.rx_seq_expected + u16_mod - 1) % u16_mod
    → handle_data_c2m f s
      ≡ queue_ack_c2m s.rx_seq_expected
          (record s { c2m_duplicate_frames = (s.c2m_duplicate_frames + 1) % u32_mod })
unfolding handle_data_c2m
data_duplicate f s h e = ground arith

pub data_out_of_sequence :
    (f : Frame) (s : Session)
    → s.ready ≡ true
    → f.seq ≢ (s.rx_seq_expected + u16_mod - 1) % u16_mod
    → f.seq ≢ s.rx_seq_expected
    → handle_data_c2m f s ≡ fail_with err_sequence (f.seq % 256) s
unfolding handle_data_c2m
data_out_of_sequence f s h n e = ground arith

pub data_bad_length :
    (f : Frame) (s : Session)
    → s.ready ≡ true
    → f.seq ≢ (s.rx_seq_expected + u16_mod - 1) % u16_mod
    → f.seq ≡ s.rx_seq_expected
    → (length f.payload == 0 || ltb s.negotiated_payload (length f.payload)) ≡ true
    → handle_data_c2m f s ≡ queue_error err_bad_length (length f.payload % 256) s
unfolding handle_data_c2m
data_bad_length f s h n e l = ground arith

pub data_next :
    (f : Frame) (s : Session)
    → s.ready ≡ true
    → f.seq ≢ (s.rx_seq_expected + u16_mod - 1) % u16_mod
    → f.seq ≡ s.rx_seq_expected
    → (length f.payload == 0 || ltb s.negotiated_payload (length f.payload)) ≡ false
    → handle_data_c2m f s ≡ accept_data f s
unfolding handle_data_c2m
data_next f s h n e l = ground arith

pub accept_data_rx :
    (f : Frame) (s : Session) (rx : Ringbuf) → s.rx ≡ some rx → accept_data f s ≡ accept_into rx f s
unfolding accept_data
accept_data_rx f s rx e =
    ap
      (λ (o : Option Ringbuf). elim o as (λ _. Bool × Session) [
        | none ↦ fail_with err_rx_overflow (length f.payload % 256) s
        | some rx ↦ accept_into rx f s
      ])
      e

pub accept_into_full :
    (rx : Ringbuf) (f : Frame) (s : Session)
    → ltb (Ringbuf.free rx) (length f.payload) ≡ true
    → accept_into rx f s ≡ fail_with err_rx_overflow (length f.payload % 256) s
unfolding accept_into
accept_into_full rx f s h = ground arith

pub accept_into_room :
    (rx : Ringbuf) (f : Frame) (s : Session)
    → ltb (Ringbuf.free rx) (length f.payload) ≡ false
    → (Ringbuf.write rx f.payload).0 ≡ length f.payload
    → accept_into rx f s
      ≡ queue_ack_c2m ((s.rx_seq_expected + 1) % u16_mod) (record s {
        rx = some (Ringbuf.write rx f.payload).1;
        rx_seq_expected = (s.rx_seq_expected + 1) % u16_mod;
        data_c2m_frames = (s.data_c2m_frames + 1) % u32_mod;
      })
unfolding accept_into
accept_into_room rx f s h w = ground arith
