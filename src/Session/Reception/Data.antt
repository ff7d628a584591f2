-- ===== src/Session/Reception/Data.antt =====
-- firmware/mc_link_session.c: what a data frame does to the input, on every branch.
use starrysky_mc_server.Prelude.{
  ◌+◌, ◌-◌, ◌%◌, ◌^◌, ◌<◌, ◌≡◌, ◌≢◌, inl, inr, refl, ap, sym, ◌∙◌, arith, [], ◌++◌, true, false,
  not, ◌||◌, some, length, take_all, ltb, ◌==◌, if◌then◌else◌, Bool-cases, ltb→le, ==→eq, u16_mod,
  u32_mod,
}
use starrysky_mc_server.Ringbuf
use starrysky_mc_server.Ringbuf.{Ringbuf}
use starrysky_mc_server.Ringbuf.Bounds.{IsValid, free_lem}
use starrysky_mc_server.Ringbuf.Refine.{contents, Holds-eq, write_refines}
use starrysky_mc_server.Link.Frame.{Frame}
use starrysky_mc_server.Session.{
  Session, err_bad_length, err_sequence, err_rx_overflow, err_protocol_state,
}
use starrysky_mc_server.Session.Handlers.{accept_into, handle_data_c2m}
use starrysky_mc_server.Session.Reception.{
  Received, queue_ack_c2m-Keeps, queue_error-Keeps, accepts, Keeps-Received, data_not_ready,
  data_duplicate, data_out_of_sequence, data_bad_length, data_next, accept_data_rx,
  accept_into_full, accept_into_room,
}

accept_into-Received :
    (rx : Ringbuf) (f : Frame) (s : Session)
    → s.rx ≡ some rx
    → IsValid rx
    → let taken = not (ltb (rx.cap - rx.len) (length f.payload)) in
      Received s rx
        (if taken then f.payload else [])
        (if taken then (s.rx_seq_expected + 1) % u16_mod else s.rx_seq_expected)
        (accept_into rx f s).1
accept_into-Received rx f s e v =
    let fl = free_lem rx v in
    elim (Bool-cases (ltb (Ringbuf.free rx) (length f.payload))) [
      | inl h ↦
          let t : ltb (rx.cap - rx.len) (length f.payload) ≡ true =
            ap (λ n. ltb n (length f.payload)) (sym fl) ∙ h in
          rw (t, accept_into_full rx f s h)
            (Keeps-Received rx e v (queue_error-Keeps err_rx_overflow (length f.payload % 256) s))
      | inr h ↦
          let t : ltb (rx.cap - rx.len) (length f.payload) ≡ false =
            ap (λ n. ltb n (length f.payload)) (sym fl) ∙ h in
          let room = ltb→le _ _ t in
          let (count, held) = write_refines rx f.payload v in
          let next = (s.rx_seq_expected + 1) % u16_mod in
          let s' = record s {
            rx = some (Ringbuf.write rx f.payload).1;
            rx_seq_expected = next;
            data_c2m_frames = (s.data_c2m_frames + 1) % u32_mod;
          } in
          let k = queue_ack_c2m-Keeps next s' in
          rw (t, accept_into_room rx f s h (omega arith))
            (record {
              rx' = (Ringbuf.write rx f.payload).1;
              is_some = k.rx_kept;
              holds =
                  Holds-eq held refl
                    (ap (λ l. contents rx ++ l) (take_all (rx.cap - rx.len) f.payload room));
              expects = k.expected_kept;
              negotiated_same = k.negotiated_kept;
              ready_same = k.ready_kept;
            })
    ]

accepts_not_ready :
    (s : Session) (f : Frame) (rx : Ringbuf) → s.ready ≡ false → accepts s f rx ≡ false
unfolding accepts
accepts_not_ready s f rx h = ground arith

accepts_other :
    (s : Session) (f : Frame) (rx : Ringbuf) → f.seq ≢ s.rx_seq_expected → accepts s f rx ≡ false
unfolding accepts
accepts_other s f rx h = ground arith

accepts_bad_length :
    (s : Session) (f : Frame) (rx : Ringbuf)
    → (length f.payload == 0 || ltb s.negotiated_payload (length f.payload)) ≡ true
    → accepts s f rx ≡ false
unfolding accepts
accepts_bad_length s f rx h = ground arith

accepts_next :
    (s : Session) (f : Frame) (rx : Ringbuf)
    → s.ready ≡ true
    → f.seq ≡ s.rx_seq_expected
    → (length f.payload == 0 || ltb s.negotiated_payload (length f.payload)) ≡ false
    → accepts s f rx ≡ not (ltb (rx.cap - rx.len) (length f.payload))
unfolding accepts
accepts_next s f rx h e l = ground arith

-- For any data frame and a session whose input ring is valid and which waits for a 16-bit number:
-- where the session is up, the number is the awaited one, and the payload is not empty, within
-- the negotiated length and the room of the ring, the ring has received the payload and the
-- session waits for the next number; in every other case neither has changed. The negotiated
-- length and the readiness stay.
pub handle_data_c2m-Received :
    (f : Frame) (s : Session) (rx : Ringbuf)
    → s.rx ≡ some rx
    → IsValid rx
    → s.rx_seq_expected < 2 ^ 16
    → Received s rx
        (if accepts s f rx then f.payload else [])
        (if accepts s f rx then (s.rx_seq_expected + 1) % u16_mod else s.rx_seq_expected)
        (handle_data_c2m f s).1
handle_data_c2m-Received f s rx e v small = elim (Bool-cases s.ready) [
  | inr down ↦
      rw (accepts_not_ready s f rx down, data_not_ready f s down)
        (Keeps-Received rx e v (queue_error-Keeps err_protocol_state f.frame_type s))
  | inl up ↦ elim (Bool-cases (f.seq == (s.rx_seq_expected + u16_mod - 1) % u16_mod)) [
    | inl dup ↦
        let d = ==→eq f.seq _ dup in
        let k =
          queue_ack_c2m-Keeps s.rx_seq_expected
            (record s { c2m_duplicate_frames = (s.c2m_duplicate_frames + 1) % u32_mod }) in
        rw (accepts_other s f rx (λ q. omega arith), data_duplicate f s up d)
          (Keeps-Received rx e v (record {
            rx_kept = k.rx_kept;
            expected_kept = k.expected_kept;
            negotiated_kept = k.negotiated_kept;
            credit_kept = k.credit_kept;
            ready_kept = k.ready_kept;
            parser_kept = k.parser_kept;
          }))
    | inr fresh ↦
        let n : f.seq ≢ (s.rx_seq_expected + u16_mod - 1) % u16_mod = λ q. ground arith in
        elim (Bool-cases (f.seq == s.rx_seq_expected)) [
          | inr other ↦
              let o : f.seq ≢ s.rx_seq_expected = λ q. ground arith in
              rw (accepts_other s f rx o, data_out_of_sequence f s up n o)
                (Keeps-Received rx e v (queue_error-Keeps err_sequence (f.seq % 256) s))
          | inl here ↦
              let i = ==→eq f.seq s.rx_seq_expected here in
              elim (Bool-cases
                (length f.payload == 0 || ltb s.negotiated_payload (length f.payload))) [
                  | inl bad ↦
                      rw (accepts_bad_length s f rx bad, data_bad_length f s up n i bad)
                        (Keeps-Received rx e v
                          (queue_error-Keeps err_bad_length (length f.payload % 256) s))
                  | inr good ↦
                      rw
                        (
                          accepts_next s f rx up i good,
                          data_next f s up n i good,
                          accept_data_rx f s rx e,
                        )
                        (accept_into-Received rx f s e v)
                ]
        ]
  ]
]
