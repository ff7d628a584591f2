-- ===== src/Session/Reception/Settings/Handled.antt =====
-- firmware/mc_link_session.c: no frame takes the settings out of their bounds.
use starrysky_mc_server.Prelude.{
  ◌+◌, ◌-◌, ◌%◌, ◌≡◌, ◌≢◌, arith, Bool, false, ◌||◌, Option, none, some, length, ltb, ◌==◌,
  Bool-cases, ==→eq, inl, inr, u16_mod, u32_mod,
}
use starrysky_mc_server.Ringbuf
use starrysky_mc_server.Ringbuf.{Ringbuf}
use starrysky_mc_server.Link.Frame.{Frame}
use starrysky_mc_server.Session.{
  Session, err_bad_length, err_sequence, err_unexpected_type, err_protocol_state, err_rx_overflow,
}
use starrysky_mc_server.Session.Handlers.{
  fail_with, accept_into, accept_data, handle_data_c2m, handle_frame,
}
use starrysky_mc_server.Session.Reception.{
  data_not_ready, data_duplicate, data_out_of_sequence, data_bad_length, data_next,
  accept_into_full, accept_into_room, queue_control_frame-Keeps, queue_ack_c2m-Keeps,
  queue_error-Keeps,
}
use starrysky_mc_server.Session.Reception.Settings.{
  Steady, Keeps-Steady, Steady-trans, handle_hello-Steady, handle_reset-Steady,
}

accept_into_short :
    (rx : Ringbuf) (f : Frame) (s : Session)
    → ltb (Ringbuf.free rx) (length f.payload) ≡ false
    → ((Ringbuf.write rx f.payload).0 == length f.payload) ≡ false
    → accept_into rx f s
      ≡ fail_with err_rx_overflow
          (length f.payload % 256)
          (record s { rx = some (Ringbuf.write rx f.payload).1 })
unfolding accept_into
accept_into_short rx f s h k = ground arith

accept_into-Steady : (rx : Ringbuf) (f : Frame) (s : Session) → Steady s (accept_into rx f s).1
accept_into-Steady rx f s =
    let rx' = (Ringbuf.write rx f.payload).1 in
    let s1 = record s { rx = some rx' } in
    let s2 = record s1 {
      rx_seq_expected = (s.rx_seq_expected + 1) % u16_mod;
      data_c2m_frames = (s.data_c2m_frames + 1) % u32_mod;
    } in
    let code = length f.payload % 256 in
    let steady1 : Steady s s1 = record {
      settings = λ i. record {
        payload_positive = i.payload_positive;
        payload_fits = i.payload_fits;
        credit_positive = i.credit_positive;
        credit_fits = i.credit_fits;
      };
      no_longer = omega arith;
    } in
    let steady2 : Steady s s2 = record {
      settings = λ i. record {
        payload_positive = i.payload_positive;
        payload_fits = i.payload_fits;
        credit_positive = i.credit_positive;
        credit_fits = i.credit_fits;
      };
      no_longer = omega arith;
    } in
    elim (Bool-cases (ltb (Ringbuf.free rx) (length f.payload))) [
      | inl full ↦
          rw (accept_into_full rx f s full)
            (Keeps-Steady (queue_error-Keeps err_rx_overflow code s))
      | inr room ↦ elim (Bool-cases ((Ringbuf.write rx f.payload).0 == length f.payload)) [
        | inl all ↦ rw (accept_into_room rx f s room (==→eq _ _ all)) (
            Steady-trans steady2
              (Keeps-Steady (queue_ack_c2m-Keeps ((s.rx_seq_expected + 1) % u16_mod) s2)))
        | inr short ↦
            rw (accept_into_short rx f s room short)
              (Steady-trans steady1 (Keeps-Steady (queue_error-Keeps err_rx_overflow code s1)))
      ]
    ]

accept_data-Steady : (f : Frame) (s : Session) → Steady s (accept_data f s).1
unfolding accept_data
accept_data-Steady f s = by_rx s.rx
  where
    by_rx :
        (o : Option Ringbuf)
        → Steady s
            (elim o as (λ _. Bool × Session) [
              | none ↦ fail_with err_rx_overflow (length f.payload % 256) s
              | some rx ↦ accept_into rx f s
            ]).1
    by_rx none = Keeps-Steady (queue_error-Keeps err_rx_overflow (length f.payload % 256) s)
    by_rx (some rx) = accept_into-Steady rx f s

handle_data_c2m-Steady : (f : Frame) (s : Session) → Steady s (handle_data_c2m f s).1
handle_data_c2m-Steady f s = elim (Bool-cases s.ready) [
  | inr down ↦
      rw (data_not_ready f s down)
        (Keeps-Steady (queue_error-Keeps err_protocol_state f.frame_type s))
  | inl up ↦ elim (Bool-cases (f.seq == (s.rx_seq_expected + u16_mod - 1) % u16_mod)) [
    | inl dup ↦
        let s1 = record s { c2m_duplicate_frames = (s.c2m_duplicate_frames + 1) % u32_mod } in
        let k = queue_ack_c2m-Keeps s.rx_seq_expected s1 in
        rw (data_duplicate f s up (==→eq f.seq _ dup)) (
          Keeps-Steady (record {
            rx_kept = k.rx_kept;
            expected_kept = k.expected_kept;
            negotiated_kept = k.negotiated_kept;
            credit_kept = k.credit_kept;
            ready_kept = k.ready_kept;
            parser_kept = k.parser_kept;
          }))
    | inr fresh ↦
        let n : f.seq ≢ (s.rx_seq_expected + u16_mod - 1) % u16_mod = λ q. ground arith in
        elim (Bool-cases (f.seq == s.rx_seq_expected)) [
          | inr other ↦
              rw (data_out_of_sequence f s up n (λ q. ground arith))
                (Keeps-Steady (queue_error-Keeps err_sequence (f.seq % 256) s))
          | inl here ↦
              let i = ==→eq f.seq s.rx_seq_expected here in
              elim (Bool-cases
                (length f.payload == 0 || ltb s.negotiated_payload (length f.payload))) [
                  | inl bad ↦
                      rw (data_bad_length f s up n i bad)
                        (Keeps-Steady (queue_error-Keeps err_bad_length (length f.payload % 256) s))
                  | inr good ↦ rw (data_next f s up n i good) (accept_data-Steady f s)
                ]
        ]
  ]
]

-- Any frame, in any session: negotiated settings within their bounds, a payload from 1 to 497 and a
-- credit from 1 to 512, stay within them, and the parser's buffer grows no longer.
pub handle_frame-Steady : (f : Frame) (s : Session) → Steady s (handle_frame f s).1
unfolding handle_frame
handle_frame-Steady f s = elim (Bool-cases (f.frame_type == 1)) [
  | inl e ↦ rw e (handle_hello-Steady f s)
  | inr e1 ↦ elim (Bool-cases (f.frame_type == 8)) [
    | inl e ↦ rw (e1, e) (handle_reset-Steady f s)
    | inr e2 ↦ elim (Bool-cases (f.frame_type == 3)) [
      | inl e ↦ rw (e1, e2, e) (handle_data_c2m-Steady f s)
      | inr e3 ↦ elim (Bool-cases (f.frame_type == 6)) [
        | inl e ↦
            rw (e1, e2, e3, e) (Keeps-Steady (queue_control_frame-Keeps 7 f.seq f.ack f.payload s))
        | inr e4 ↦ elim (Bool-cases (f.frame_type == 11)) [
          | inl e ↦
              rw (e1, e2, e3, e4, e)
                (Keeps-Steady (queue_control_frame-Keeps 12 f.seq f.ack f.payload s))
          | inr e5 ↦
              rw (e1, e2, e3, e4, e5)
                (Keeps-Steady (queue_error-Keeps err_unexpected_type f.frame_type s))
        ]
      ]
    ]
  ]
]
