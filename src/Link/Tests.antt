-- ===== src/Link/Tests.antt =====
-- mc_link.c at concrete inputs.
use starrysky_mc_server.Prelude.{
  ℕ, ◌≡◌, refl, arith, List, [], ◌∷◌, ◌++◌, some, none, replicate, true, false, ◌≤◌, All, length,
  All-append,
}
use starrysky_mc_server.Link.Crc.{crc16, crc16_update}
use starrysky_mc_server.Link.Cobs.{
  stream_init, stream_write, stream_finish, open_block, put_byte, write_byte, cobs_decode,
}
use starrysky_mc_server.Link.Cobs.Blocks.{IsNonzero}
use starrysky_mc_server.Link.Frame.{Frame, header, encode, decode_frame}
use starrysky_mc_server.Link.Frame.RoundTrip.{decode_frame-encode}
use starrysky_mc_server.Link.Parser.{Parser, feed}
use starrysky_mc_server.Link.Parser.Bounds.Feeding.{feed-le}
use starrysky_mc_server.Link.Parser.Delivery.{IsWaiting}
use starrysky_mc_server.Link.Parser.Delivery.Whole.{
  Delivers, feed-Delivers, feed_recovers, feed-encode,
}

abbrev buffer : List ℕ
buffer = replicate 512 0

abbrev ping : Frame
ping = record { frame_type = 11; flags = 0; seq = 1; ack = 0; payload = 7 ∷ [] }

-- Its encoding, without the delimiter, in two pieces.
abbrev first_piece : List ℕ
first_piece = 3 ∷ 2 ∷ 11 ∷ 2 ∷ 1 ∷ 1 ∷ []

abbrev second_piece : List ℕ
second_piece = 1 ∷ 2 ∷ 1 ∷ 4 ∷ 7 ∷ 190 ∷ 196 ∷ []

encode_run : encode 11 1 0 (7 ∷ []) buffer 512 ≡ some (first_piece ++ (second_piece ++ (0 ∷ [])))
unfolding encode header stream_init stream_write stream_finish open_block put_byte write_byte
    crc16_update
encode_run = refl

decode_run : decode_frame (first_piece ++ (second_piece ++ (0 ∷ []))) ≡ some ping
unfolding decode_frame cobs_decode crc16
decode_run = refl

decode_damaged :
    decode_frame (3 ∷ 2 ∷ 11 ∷ 2 ∷ 2 ∷ 1 ∷ 1 ∷ 2 ∷ 1 ∷ 4 ∷ 7 ∷ 190 ∷ 196 ∷ 0 ∷ []) ≡ none
unfolding decode_frame cobs_decode crc16
decode_damaged = refl

abbrev empty_parser : Parser
empty_parser = record {
  buf = [];
  crc_error_count = 0;
  length_error_count = 0;
  resync_count = 0;
  discarding = false;
}

abbrev waiting_parser : Parser
waiting_parser = record empty_parser { buf = first_piece }

abbrev lost_parser : Parser
lost_parser = record empty_parser { discarding = true }

waiting_parser-IsWaiting : IsWaiting waiting_parser
waiting_parser-IsWaiting = record { gathers = refl; nonzero = omega arith; short = omega arith }

second_piece-IsNonzero : All IsNonzero second_piece
second_piece-IsNonzero = omega arith

first_piece-IsNonzero : All IsNonzero first_piece
first_piece-IsNonzero = omega arith

decode_frame-encode_example :
    (enc : List ℕ) × (encode 11 1 0 (7 ∷ []) buffer 512 ≡ some (enc ++ (0 ∷ [])))
    × All IsNonzero enc
    × (length enc ≤ 511)
    × (decode_frame (enc ++ (0 ∷ [])) ≡ some ping)
decode_frame-encode_example =
    decode_frame-encode 11 1 0 (7 ∷ []) buffer 512 (omega arith) (omega arith) (omega arith)
      (omega arith) (omega arith) (omega arith)

feed-le_example : length (feed waiting_parser (1 ∷ 0 ∷ [])).1.buf ≤ 512
feed-le_example = feed-le waiting_parser (1 ∷ 0 ∷ []) (omega arith)

feed-Delivers_example :
    Delivers ping (3 ∷ []) waiting_parser (feed waiting_parser (second_piece ++ (0 ∷ 3 ∷ [])))
feed-Delivers_example =
    feed-Delivers waiting_parser second_piece (3 ∷ []) ping waiting_parser-IsWaiting
      second_piece-IsNonzero (omega arith) decode_run

feed_recovers_example :
    Delivers ping [] lost_parser
      (feed lost_parser (9 ∷ 0 ∷ ((first_piece ++ second_piece) ++ (0 ∷ []))))
feed_recovers_example =
    feed_recovers lost_parser (9 ∷ []) (first_piece ++ second_piece) [] ping refl (omega arith)
      (All-append IsNonzero first_piece second_piece first_piece-IsNonzero second_piece-IsNonzero)
      (omega arith) decode_run

feed-encode_example :
    ((feed empty_parser first_piece).0 ≡ none)
    × (feed (feed empty_parser first_piece).1 (second_piece ++ (0 ∷ []))
        ≡ (some ping, record empty_parser { buf = [] }))
feed-encode_example =
    feed-encode empty_parser 11 1 0 (7 ∷ []) buffer 512 first_piece second_piece refl refl
      (omega arith) (omega arith) (omega arith) (omega arith) (omega arith) (omega arith) encode_run
