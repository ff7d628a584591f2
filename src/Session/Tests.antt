-- ===== src/Session/Tests.antt =====
-- mc_link_session.c at concrete inputs.
use starrysky_mc_server.Prelude.{
  ℕ, ◌≡◌, ◌⊎◌, refl, arith, List, [], ◌∷◌, some, true, false, length, ◌≤◌, if◌then◌else◌,
}
use starrysky_mc_server.Ringbuf.{Ringbuf}
use starrysky_mc_server.Ringbuf.Bounds.{IsValid}
use starrysky_mc_server.Link.Parser.{feed}
use starrysky_mc_server.Session.{Session, tx_none, tx_data, tx_control}
use starrysky_mc_server.Session.Handlers.{
  handle_frame, handle_data_c2m, receive_loop, receive_bytes,
}
use starrysky_mc_server.Session.Transmit.{read_tx, queue_server_tx}
use starrysky_mc_server.Session.Reception.{accepts, Received}
use starrysky_mc_server.Session.Reception.Data.{handle_data_c2m-Received}
use starrysky_mc_server.Session.Reception.Exactly.{
  data_frame, sent, joined, number_after, sent_once,
}
use starrysky_mc_server.Session.Reception.Settings.{IsNegotiated, Steady}
use starrysky_mc_server.Session.Reception.Settings.Handled.{handle_frame-Steady}
use starrysky_mc_server.Session.Reception.Ending.{receive_bytes-IsNegotiated, receive_bytes_enough}
use starrysky_mc_server.Session.Sending.Order.{SentData, SentControl}
use starrysky_mc_server.Session.Sending.Order.Reading.{
  read_tx-SentData, read_tx-control_first, read_tx-data_next,
}
use starrysky_mc_server.Session.Sending.Server.{NextFrame, Moved, Unmoved, queue_server_tx_lem}

-- Four cells that hold the bytes 8 and 9.
abbrev input : Ringbuf
input = record { storage = 8 ∷ 9 ∷ 0 ∷ 0 ∷ []; cap = 4; head = 2; tail = 0; len = 2 }

input-IsValid : IsValid input
input-IsValid = omega arith

-- Eight cells with the short frame "3 7 0" and a byte of the next.
abbrev queue : Ringbuf
queue = record {
  storage = 3 ∷ 7 ∷ 0 ∷ 5 ∷ 0 ∷ 0 ∷ 0 ∷ 0 ∷ [];
  cap = 8;
  head = 4;
  tail = 0;
  len = 4;
}

queue-IsValid : IsValid queue
queue-IsValid = omega arith

abbrev session : Session
session = record {
  parser = record {
    buf = [];
    crc_error_count = 0;
    length_error_count = 0;
    resync_count = 0;
    discarding = false;
  };
  rx = some input;
  tx = queue;
  control_tx = queue;
  rx_seq_expected = 65535;
  tx_seq_next = 3;
  negotiated_payload = 200;
  credit_cap = 512;
  supported_rate_mask = 1;
  active_rate_profile = 0;
  ready = true;
  reset_requested = false;
  active_tx_queue = tx_none;
  active_tx_remaining = 0;
  data_c2m_frames = 0;
  data_m2c_frames = 0;
  error_count = 0;
  c2m_ack_frames = 0;
  c2m_duplicate_frames = 0;
}

abbrev sending_data : Session
sending_data = record session { active_tx_queue = tx_data; active_tx_remaining = 2 }

abbrev sending_control : Session
sending_control = record session { active_tx_queue = tx_control; active_tx_remaining = 2 }

abbrev no_control : Session
no_control = record session { control_tx = record queue { head = 0; len = 0 } }

session-IsNegotiated : IsNegotiated session
session-IsNegotiated = omega arith

handle_data_c2m-Received_example :
    Received session input
      (if accepts session (data_frame 65535 (1 ∷ 2 ∷ [])) input then 1 ∷ 2 ∷ [] else [])
      (if accepts session (data_frame 65535 (1 ∷ 2 ∷ [])) input then 0 else 65535)
      (handle_data_c2m (data_frame 65535 (1 ∷ 2 ∷ [])) session).1
handle_data_c2m-Received_example =
    handle_data_c2m-Received (data_frame 65535 (1 ∷ 2 ∷ [])) session input refl input-IsValid
      (omega arith)

accepts_run : accepts session (data_frame 65535 (1 ∷ 2 ∷ [])) input ≡ true
unfolding accepts
accepts_run = refl

-- The number wraps round between the two frames, of which the first arrives three times.
abbrev traffic : List (ℕ × List ℕ)
traffic = (2, 1 ∷ []) ∷ (0, 2 ∷ []) ∷ []

traffic-fits : length (joined traffic) ≤ 2
unfolding joined
traffic-fits = omega arith

sent_once_example :
    Received session input
      (joined traffic)
      (number_after 65535 traffic)
      (sent 65535 traffic session)
sent_once_example =
    sent_once traffic 65535 session input refl input-IsValid refl refl (omega arith) (omega arith)
      traffic-fits

handle_frame-Steady_example :
    Steady session
      (handle_frame
        (record {
          frame_type = 1;
          flags = 0;
          seq = 0;
          ack = 0;
          payload = 9 ∷ 0 ∷ 9 ∷ 0 ∷ 1 ∷ 0 ∷ [];
        })
        session).1
handle_frame-Steady_example =
    handle_frame-Steady
      (record { frame_type = 1; flags = 0; seq = 0; ack = 0; payload = 9 ∷ 0 ∷ 9 ∷ 0 ∷ 1 ∷ 0 ∷ [] })
      session

receive_bytes-IsNegotiated_example : IsNegotiated (receive_bytes (1 ∷ 0 ∷ []) session).1
receive_bytes-IsNegotiated_example =
    receive_bytes-IsNegotiated (1 ∷ 0 ∷ []) session session-IsNegotiated

receive_bytes_enough_example :
    receive_bytes (1 ∷ 0 ∷ []) session
    ≡ receive_loop 600
        (feed session.parser (1 ∷ 0 ∷ [])).0
        (record session { parser = (feed session.parser (1 ∷ 0 ∷ [])).1 })
receive_bytes_enough_example =
    receive_bytes_enough (1 ∷ 0 ∷ []) session 600 (omega arith) (omega arith)

read_tx-SentData_example : SentData 5 2 sending_data (read_tx 5 sending_data)
read_tx-SentData_example =
    read_tx-SentData 5 sending_data refl queue-IsValid (omega arith) (omega arith) (omega arith)

read_tx-control_first_example : SentControl 2 3 session (read_tx 2 session)
read_tx-control_first_example =
    read_tx-control_first 2 session (3 ∷ 7 ∷ []) (5 ∷ []) refl queue-IsValid (omega arith) refl
      (omega arith)

read_tx-data_next_example : SentData 9 3 no_control (read_tx 9 no_control)
read_tx-data_next_example =
    read_tx-data_next 9 no_control (3 ∷ 7 ∷ []) (5 ∷ []) refl refl queue-IsValid (omega arith) refl
      (omega arith)

queue_server_tx_lem_example :
    (enc : List ℕ) × NextFrame 2 enc session input
    × (Moved 2 enc session input (queue_server_tx session input)
        ⊎ Unmoved enc session input (queue_server_tx session input))
queue_server_tx_lem_example =
    queue_server_tx_lem session input refl queue-IsValid input-IsValid (omega arith) (omega arith)
      (omega arith) (omega arith) (omega arith)
