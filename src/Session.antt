-- ===== src/Session.antt =====
-- firmware/mc_link_session.c: the session over the link, its state and what it queues.
pub mod Handlers
pub mod Transmit
pub mod Queueing
pub mod Reception
pub mod Sending
mod Tests
use starrysky_mc_server.Prelude.{
  ℕ, zero, suc, ◌+◌, ◌-◌, ◌%◌, List, [], ◌∷◌, ◌++◌, Bool, true, false, not, ◌&&◌, ◌||◌, Option,
  none, some, length, get_or, replicate, leb, ltb, ◌==◌, if◌then◌else◌, Act, ◌>>◌, bit_and, bit_or,
  shr, shl, u16_mod, u32_mod,
}
use starrysky_mc_server.Ringbuf
use starrysky_mc_server.Ringbuf.{Ringbuf, add_size}
use starrysky_mc_server.Link.Frame.{max_payload, max_encoded_len, encode}
use starrysky_mc_server.Link.Parser.{Parser, parser_init}

-- `MC_LINK_SESSION_TX_NONE`, `_DATA` and `_CONTROL`.
pub data TxQueue : Type 0 where
  tx_none : TxQueue
  tx_data : TxQueue
  tx_control : TxQueue

-- `MC_LINK_SESSION_TX_CAP`.
abbrev pub tx_cap : ℕ
tx_cap = 2048

-- The message types and the error codes of mc_link.h that the session writes or reads.
abbrev pub type_hello : ℕ
type_hello = 1

abbrev pub type_ready : ℕ
type_ready = 2

abbrev pub type_data_c2m : ℕ
type_data_c2m = 3

abbrev pub type_ack_c2m : ℕ
type_ack_c2m = 4

abbrev pub type_data_m2c : ℕ
type_data_m2c = 5

abbrev pub type_rate_probe : ℕ
type_rate_probe = 6

abbrev pub type_rate_probe_ack : ℕ
type_rate_probe_ack = 7

abbrev pub type_reset : ℕ
type_reset = 8

abbrev pub type_reset_ack : ℕ
type_reset_ack = 9

abbrev pub type_error : ℕ
type_error = 10

abbrev pub type_ping : ℕ
type_ping = 11

abbrev pub type_pong : ℕ
type_pong = 12

abbrev pub err_bad_length : ℕ
err_bad_length = 2

abbrev pub err_unexpected_type : ℕ
err_unexpected_type = 4

abbrev pub err_sequence : ℕ
err_sequence = 5

abbrev pub err_rx_overflow : ℕ
err_rx_overflow = 6

abbrev pub err_protocol_state : ℕ
err_protocol_state = 7

-- `mc_link_session_t`. The storage of a queue is the storage of its ring; `rx` is the ring that the
-- session shares with the server, `none` for a null pointer.
pub record Session : Type 0 where
  pub parser : Parser
  pub rx : Option Ringbuf
  pub tx : Ringbuf
  pub control_tx : Ringbuf
  pub rx_seq_expected : ℕ
  pub tx_seq_next : ℕ
  pub negotiated_payload : ℕ
  pub credit_cap : ℕ
  pub supported_rate_mask : ℕ
  pub active_rate_profile : ℕ
  pub ready : Bool
  pub reset_requested : Bool
  pub active_tx_queue : TxQueue
  pub active_tx_remaining : ℕ
  pub data_c2m_frames : ℕ
  pub data_m2c_frames : ℕ
  pub error_count : ℕ
  pub c2m_ack_frames : ℕ
  pub c2m_duplicate_frames : ℕ

unfoldable pub put_u16_le : ℕ → List ℕ
put_u16_le value = bit_and value 0xff ∷ shr value 8 % 256 ∷ []

unfoldable pub get_u16_le : List ℕ → ℕ → ℕ
get_u16_le src i = bit_or (get_or src i 0) (shl (get_or src (i + 1) 0) 8) % u16_mod

unfoldable pub min_u16 : ℕ → ℕ → ℕ
min_u16 a b = if ltb a b then a else b

-- `session->error_count++`.
unfoldable pub count_failure : Session → Session
count_failure session = record session { error_count = (session.error_count + 1) % u32_mod }

-- `uint8_t frame[MC_LINK_MAX_FRAME_LEN]` of `queue_frame`; its contents are of no account.
unfoldable pub frame_buffer : List ℕ
frame_buffer = replicate max_encoded_len 0

-- The end of `queue_frame`; `none` for the return without room.
unfoldable pub write_frame : Ringbuf → List ℕ → Option (Bool × Ringbuf)
write_frame tx frame =
    let (written, tx') = Ringbuf.write tx frame in
    if ltb (Ringbuf.free tx) (length frame) then none else some (written == length frame, tx')

-- `queue_frame` on one of the session's rings: the ring after it, or `none` for its two error returns.
unfoldable pub frame_into : Ringbuf → ℕ → ℕ → ℕ → List ℕ → Option (Bool × Ringbuf)
frame_into tx frame_type seq ack payload =
    elim (encode frame_type seq ack payload frame_buffer max_encoded_len) [
      | none ↦ none
      | some frame ↦ write_frame tx frame
    ]

unfoldable pub queue_control_frame : ℕ → ℕ → ℕ → List ℕ → Act Session
queue_control_frame frame_type seq ack payload session =
    elim (frame_into session.control_tx frame_type seq ack payload) [
      | none ↦ (false, count_failure session)
      | some (done, tx') ↦ (done, record session { control_tx = tx' })
    ]

unfoldable pub queue_data_frame : ℕ → ℕ → ℕ → List ℕ → Act Session
queue_data_frame frame_type seq ack payload session =
    elim (frame_into session.tx frame_type seq ack payload) [
      | none ↦ (false, count_failure session)
      | some (done, tx') ↦ (done, record session { tx = tx' })
    ]

unfoldable pub ready_payload : Session → List ℕ
ready_payload session =
    put_u16_le session.negotiated_payload
    ++ (put_u16_le session.credit_cap
        ++ (put_u16_le session.credit_cap
            ++ (put_u16_le session.supported_rate_mask
                ++ (session.active_rate_profile ∷ put_u16_le 0))))

unfoldable pub queue_ready : Act Session
queue_ready session = queue_control_frame type_ready 0 0 (ready_payload session) session

unfoldable pub rx_free_credit : Session → ℕ
rx_free_credit session = elim session.rx [
  | none ↦ 0
  | some rx ↦ if ltb 0xffff (Ringbuf.free rx) then 0xffff else Ringbuf.free rx
]

unfoldable pub queue_ack_c2m : ℕ → Act Session
queue_ack_c2m ack session =
    (queue_control_frame type_ack_c2m 0 ack (put_u16_le (rx_free_credit session)) >> λ s.
    (true, record s { c2m_ack_frames = (s.c2m_ack_frames + 1) % u32_mod }))
      session

unfoldable pub queue_error : ℕ → ℕ → Act Session
queue_error code detail session =
    queue_control_frame type_error 0 0 (code ∷ detail ∷ []) (count_failure session)

unfoldable pub clear_active_tx : Session → Session
clear_active_tx session = record session { active_tx_queue = tx_none; active_tx_remaining = 0 }

unfoldable pub reset_capabilities : Session → Session
reset_capabilities session = record session {
  negotiated_payload = max_payload;
  credit_cap = 512;
  supported_rate_mask = 0x3ff;
  active_rate_profile = 0;
}

unfoldable pub truncate_ringbuf : Ringbuf → ℕ → Ringbuf
truncate_ringbuf rb keep_len =
    if leb rb.len keep_len
    then rb
    else record rb { head = add_size rb.tail keep_len % rb.cap; len = keep_len }

-- The ring over a session's own storage, emptied.
abbrev pub emptied : Ringbuf → Ringbuf
emptied tx = Ringbuf.init tx.storage tx_cap

unfoldable pub session_init : Option Ringbuf → Session
session_init rx = reset_capabilities (record {
  parser = parser_init;
  rx = rx;
  tx = Ringbuf.init (replicate tx_cap 0) tx_cap;
  control_tx = Ringbuf.init (replicate tx_cap 0) tx_cap;
  rx_seq_expected = 0;
  tx_seq_next = 0;
  negotiated_payload = 0;
  credit_cap = 0;
  supported_rate_mask = 0;
  active_rate_profile = 0;
  ready = true;
  reset_requested = false;
  active_tx_queue = tx_none;
  active_tx_remaining = 0;
  data_c2m_frames = 0;
  data_m2c_frames = 0;
  error_count = 0;
  c2m_ack_frames = 0;
  c2m_duplicate_frames = 0;
})

-- The emptying of the data queue, but for the rest of a frame that is being sent.
abbrev pub cut_data : Session → Ringbuf
cut_data session = elim session.active_tx_queue [
  | tx_data ↦ truncate_ringbuf session.tx session.active_tx_remaining
  | _ ↦ emptied session.tx
]

unfoldable pub reset_link_state_preserving_control_tx : Session → Session
reset_link_state_preserving_control_tx session = record session {
  rx_seq_expected = 0;
  tx_seq_next = 0;
  ready = true;
  parser = parser_init;
  tx = cut_data session;
  rx = elim session.rx [ none ↦ none | some rx ↦ some (Ringbuf.drop rx rx.len) ];
}

unfoldable pub reset_link_state : Session → Session
reset_link_state session =
    let s = reset_link_state_preserving_control_tx session in
    elim session.active_tx_queue [
      | tx_control ↦ record s { control_tx = truncate_ringbuf s.control_tx s.active_tx_remaining }
      | tx_data ↦ record s { control_tx = emptied s.control_tx }
      | tx_none ↦ clear_active_tx (record s { control_tx = emptied s.control_tx })
    ]
