-- ===== src/Session/Transmit.antt =====
-- firmware/mc_link_session.c: the server's output becomes frames, and the queues are read.
use starrysky_mc_server.Prelude.{
  ℕ, zero, suc, ◌+◌, ◌%◌, List, [], ◌∷◌, Bool, true, false, not, ◌||◌, Option, none, some, length,
  ltb, ◌==◌, if◌then◌else◌, u16_mod, u32_mod,
}
use starrysky_mc_server.Ringbuf
use starrysky_mc_server.Ringbuf.{Ringbuf, sub_size}
use starrysky_mc_server.Link.Frame.{max_payload}
use starrysky_mc_server.Session.{
  Session, tx_none, tx_data, tx_control, type_data_m2c, queue_data_frame, clear_active_tx,
  truncate_ringbuf, emptied,
}

-- `peek_ringbuf` from the offset `i` on; `none` for a return of 0.
unfoldable pub peek_ringbuf : Ringbuf → ℕ → ℕ → Option (List ℕ)
peek_ringbuf rb i zero = some []
peek_ringbuf rb i (suc len) =
    let rest = peek_ringbuf rb (suc i) len in
    elim (Ringbuf.peek rb i) [
      | none ↦ none
      | some byte ↦ elim rest [ none ↦ none | some bytes ↦ some (byte ∷ bytes) ]
    ]

-- The loop of `next_frame_len` from the offset `i` on, over `n` bytes.
unfoldable pub frame_len_loop : Ringbuf → ℕ → ℕ → Option ℕ
frame_len_loop tx i zero = none
frame_len_loop tx i (suc n) =
    let rest = frame_len_loop tx (suc i) n in
    elim (Ringbuf.peek tx i) [ none ↦ none | some byte ↦ if byte == 0 then some (i + 1) else rest ]

unfoldable pub next_frame_len : Ringbuf → Option ℕ
next_frame_len tx = frame_len_loop tx 0 tx.len

-- How many bytes of the server's output the next data frame takes.
unfoldable pub take_len : Session → Ringbuf → ℕ
take_len session server_tx =
    let negotiated = session.negotiated_payload in
    let limit = if negotiated == 0 || ltb max_payload negotiated then max_payload else negotiated in
    if ltb limit server_tx.len then limit else server_tx.len

-- The end of `mc_link_session_queue_server_tx`, with the payload.
unfoldable pub queue_payload : ℕ → List ℕ → Session → Ringbuf → Bool × (Session × Ringbuf)
queue_payload n payload session server_tx =
    let (queued, s) =
      queue_data_frame type_data_m2c session.tx_seq_next session.rx_seq_expected payload session in
    let s' = record s {
      tx_seq_next = (s.tx_seq_next + 1) % u16_mod;
      data_m2c_frames = (s.data_m2c_frames + 1) % u32_mod;
    } in
    if queued then (true, (s', Ringbuf.drop server_tx n)) else (false, (s, server_tx))

-- `mc_link_session_queue_server_tx`: the result, the session and the server's queue after it.
unfoldable pub queue_server_tx : Session → Ringbuf → Bool × (Session × Ringbuf)
queue_server_tx session server_tx =
    let n = take_len session server_tx in
    if not session.ready
    then (false, (session, server_tx))
    else if n == 0
    then (true, (session, server_tx))
    else elim (peek_ringbuf server_tx 0 n) [
      | none ↦ (false, (session, server_tx))
      | some payload ↦ queue_payload n payload session server_tx
    ]

-- The start of a frame where none is being sent; `none` where both queues have no whole frame.
unfoldable pub begin_frame : Session → Option Session
begin_frame session = elim (next_frame_len session.control_tx) [
  | some frame_len ↦
      some (record session { active_tx_queue = tx_control; active_tx_remaining = frame_len })
  | none ↦ elim (next_frame_len session.tx) [
    | some frame_len ↦
        some (record session { active_tx_queue = tx_data; active_tx_remaining = frame_len })
    | none ↦ none
  ]
]

-- The first step of `mc_link_session_read_tx`; `none` is its return of 0.
unfoldable pub choose_frame : Session → Option Session
choose_frame session = elim session.active_tx_queue [
  | tx_none ↦ begin_frame session
  | _ ↦ some session
]

-- The end of `mc_link_session_read_tx`, on the ring that is being sent.
unfoldable pub send_from : Ringbuf → (Ringbuf → Session → Session) → ℕ → Session → List ℕ × Session
send_from active_tx store max_len session =
    let remaining = session.active_tx_remaining in
    let to_read = if ltb max_len remaining then max_len else remaining in
    let (bytes, active_tx') = Ringbuf.read active_tx to_read in
    let s = record (store active_tx' session) {
      active_tx_remaining = sub_size remaining (length bytes);
    } in
    if remaining == 0 || active_tx.len == 0
    then ([], clear_active_tx session)
    else if ltb active_tx.len to_read
    then ([], clear_active_tx session)
    else if s.active_tx_remaining == 0
    then (bytes, clear_active_tx s)
    else (bytes, s)

unfoldable pub send_active : ℕ → Session → List ℕ × Session
send_active max_len session = elim session.active_tx_queue [
  | tx_control ↦ send_from session.control_tx (λ rb s. record s { control_tx = rb }) max_len session
  | tx_data ↦ send_from session.tx (λ rb s. record s { tx = rb }) max_len session
  | tx_none ↦ ([], clear_active_tx session)
]

-- `mc_link_session_read_tx`: the bytes that `dst` receives, whose number is returned.
unfoldable pub read_tx : ℕ → Session → List ℕ × Session
read_tx max_len session =
    if max_len == 0
    then ([], session)
    else elim (choose_frame session) [ none ↦ ([], session) | some s ↦ send_active max_len s ]

unfoldable pub take_reset_requested : Session → Bool × Session
take_reset_requested session = (session.reset_requested, record session { reset_requested = false })

unfoldable pub drop_queued_data : Session → Session
drop_queued_data session = elim session.active_tx_queue [
  | tx_data ↦ record session { tx = truncate_ringbuf session.tx session.active_tx_remaining }
  | tx_control ↦ record session { tx = emptied session.tx }
  | tx_none ↦ clear_active_tx (record session { tx = emptied session.tx })
]
