-- ===== src/Session/Handlers.antt =====
-- firmware/mc_link_session.c: the received frames.
use starrysky_mc_server.Prelude.{
  ℕ, zero, suc, ◌+◌, ◌-◌, ◌%◌, List, [], true, false, not, ◌||◌, Option, none, some, length, ltb,
  ◌==◌, if◌then◌else◌, Act, ◌>>◌, failure, bit_and, bit_or, u16_mod, u32_mod,
}
use starrysky_mc_server.Ringbuf
use starrysky_mc_server.Ringbuf.{Ringbuf}
use starrysky_mc_server.Link.Frame.{Frame, max_payload, max_encoded_len}
use starrysky_mc_server.Link.Parser.{feed}
use starrysky_mc_server.Session.{
  Session, type_hello, type_data_c2m, type_rate_probe, type_rate_probe_ack, type_reset,
  type_reset_ack, type_ping, type_pong, err_bad_length, err_unexpected_type, err_sequence,
  err_rx_overflow, err_protocol_state, get_u16_le, min_u16, queue_control_frame, queue_ready,
  queue_ack_c2m, queue_error, reset_link_state, reset_link_state_preserving_control_tx,
}

-- The state that a HELLO with these requests leads to.
unfoldable pub negotiate : ℕ → ℕ → ℕ → Session → Session
negotiate requested_payload requested_credit requested_rate_mask session =
    record (reset_link_state session) {
      negotiated_payload = min_u16 requested_payload max_payload;
      credit_cap = min_u16 requested_credit 512;
      supported_rate_mask = bit_or (bit_and requested_rate_mask 0x3ff) 1;
      active_rate_profile = 0;
    }

unfoldable pub handle_hello : Frame → Act Session
handle_hello frame session =
    let requested_payload = get_u16_le frame.payload 0 in
    let requested_credit = get_u16_le frame.payload 2 in
    let requested_rate_mask = get_u16_le frame.payload 4 in
    if not (length frame.payload == 6)
    then queue_error err_bad_length 0 session
    else if requested_payload == 0 || requested_credit == 0
    then queue_error err_bad_length 0 session
    else queue_ready (negotiate requested_payload requested_credit requested_rate_mask session)

unfoldable pub handle_reset : Frame → Act Session
handle_reset frame session =
    (queue_control_frame type_reset_ack frame.seq frame.ack [] >> queue_ready)
      (record (reset_link_state session) { reset_requested = true })

-- `(void)queue_error(...); return 0;`.
abbrev pub fail_with : ℕ → ℕ → Act Session
fail_with code detail session = failure (queue_error code detail session).1

-- What is done with the payload of the expected frame, where the server's input is `rx`.
unfoldable pub accept_into : Ringbuf → Frame → Act Session
accept_into rx frame session =
    let (written, rx') = Ringbuf.write rx frame.payload in
    let session' = record session { rx = some rx' } in
    let accepted = record session' {
      rx_seq_expected = (session.rx_seq_expected + 1) % u16_mod;
      data_c2m_frames = (session.data_c2m_frames + 1) % u32_mod;
    } in
    if ltb (Ringbuf.free rx) (length frame.payload)
    then fail_with err_rx_overflow (length frame.payload % 256) session
    else if not (written == length frame.payload)
    then fail_with err_rx_overflow (length frame.payload % 256) session'
    else queue_ack_c2m accepted.rx_seq_expected accepted

unfoldable pub accept_data : Frame → Act Session
accept_data frame session = elim session.rx [
  | none ↦ fail_with err_rx_overflow (length frame.payload % 256) session
  | some rx ↦ accept_into rx frame session
]

unfoldable pub handle_data_c2m : Frame → Act Session
handle_data_c2m frame session =
    if not session.ready
    then queue_error err_protocol_state frame.frame_type session
    else if frame.seq == (session.rx_seq_expected + u16_mod - 1) % u16_mod
    then queue_ack_c2m session.rx_seq_expected
        (record session { c2m_duplicate_frames = (session.c2m_duplicate_frames + 1) % u32_mod })
    else if not (frame.seq == session.rx_seq_expected)
    then fail_with err_sequence (frame.seq % 256) session
    else if length frame.payload == 0 || ltb session.negotiated_payload (length frame.payload)
    then queue_error err_bad_length (length frame.payload % 256) session
    else accept_data frame session

unfoldable pub handle_frame : Frame → Act Session
handle_frame frame session =
    if frame.frame_type == type_hello
    then handle_hello frame session
    else if frame.frame_type == type_reset
    then handle_reset frame session
    else if frame.frame_type == type_data_c2m
    then handle_data_c2m frame session
    else if frame.frame_type == type_rate_probe
    then queue_control_frame type_rate_probe_ack frame.seq frame.ack frame.payload session
    else if frame.frame_type == type_ping
    then queue_control_frame type_pong frame.seq frame.ack frame.payload session
    else queue_error err_unexpected_type frame.frame_type session

-- The loop of `mc_link_session_receive_bytes` from the result of a call of the parser; the first
-- argument bounds its rounds, of which each takes a frame out of the parser's buffer.
unfoldable pub receive_loop : ℕ → Option Frame → Act Session
receive_loop rounds none session = (true, session)
receive_loop zero (some frame) session = (false, session)
receive_loop (suc rounds) (some frame) session =
    (handle_frame frame >> λ s.
    let (result, parser') = feed s.parser [] in
    receive_loop rounds result (record s { parser = parser' }))
      session

-- `mc_link_session_receive_bytes`; the parser reports no error but for null pointers.
unfoldable pub receive_bytes : List ℕ → Act Session
receive_bytes src session =
    let (result, parser') = feed session.parser src in
    receive_loop (suc max_encoded_len) result (record session { parser = parser' })

unfoldable pub reset_after_error : ℕ → ℕ → Act Session
reset_after_error code detail =
    queue_error code detail >> λ s. queue_ready (reset_link_state_preserving_control_tx s)

unfoldable pub credit_consumed : Session → Session
credit_consumed session = (queue_ack_c2m 0 session).1
