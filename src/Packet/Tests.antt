-- ===== src/Packet/Tests.antt =====
-- mc_packet.c: runs of the code, and the theorems at concrete inputs.
use starrysky_mc_server.Prelude.{
  ℕ, ◌≤◌, ◌<◌, ◌≡◌, refl, ◌+◌, arith, List, [], ◌∷◌, ◌++◌, true, some, length,
}
use starrysky_mc_server.Config.{max_packet_body}
use starrysky_mc_server.Varint.{encode, decode}
use starrysky_mc_server.Varint.RoundTrip.{bytes_of}
use starrysky_mc_server.Packet.Writer.{
  Writer, write_i32, write_string, has_space, write_raw, write_varint, write_bytes,
}
use starrysky_mc_server.Packet.Writes.{IsValid}
use starrysky_mc_server.Packet.Frame.{
  wrap, wrap_compressed_plain, wrap_compressed_payload, try_read,
}
use starrysky_mc_server.Packet.Framing.{try_read-wrap, try_read_takes}
use starrysky_mc_server.Packet.Compressed.{
  read_compressed, read-wrap_compressed_plain, read-wrap_compressed_payload,
}

abbrev buffer : List ℕ
buffer = 0 ∷ 0 ∷ 0 ∷ 0 ∷ 0 ∷ 0 ∷ []

abbrev fresh : Writer
fresh = record { buf = buffer; cap = 6; len = 0 }

abbrev half_full : Writer
half_full = record { buf = 1 ∷ 2 ∷ 3 ∷ 0 ∷ 0 ∷ 0 ∷ []; cap = 6; len = 3 }

half_full-IsValid : IsValid half_full
half_full-IsValid = omega arith

write_i32_run :
    write_i32 0x0102_0304 fresh
    ≡ (true, record { buf = 1 ∷ 2 ∷ 3 ∷ 4 ∷ 0 ∷ 0 ∷ []; cap = 6; len = 4 })
unfolding write_i32 has_space write_raw
write_i32_run = refl

write_string_run : (write_string (65 ∷ 66 ∷ 67 ∷ []) half_full).1.len ≡ 3
unfolding write_string write_varint encode write_bytes has_space
write_string_run = refl

two-short : 3 + length (bytes_of 2 ++ (65 ∷ 66 ∷ [])) ≤ 6
unfolding bytes_of
two-short = omega arith

three-long : 6 < 3 + length (bytes_of 3 ++ (65 ∷ 66 ∷ 67 ∷ []))
unfolding bytes_of
three-long = omega arith

abbrev small_body : List ℕ
small_body = 5 ∷ 6 ∷ 7 ∷ []

try_read-wrap_example :
    try_read (wrap small_body 16 ++ (9 ∷ []))
    ≡ some (record { body = small_body; frame_len = length (wrap small_body 16) })
try_read-wrap_example = try_read-wrap small_body (9 ∷ []) 16 (omega arith) (omega arith)

try_read_takes_example : (2 ≤ max_packet_body) × (2 < 3) × (3 ≤ 4)
unfolding try_read decode
try_read_takes_example =
    try_read_takes (2 ∷ 5 ∷ 6 ∷ 9 ∷ []) (record { body = 5 ∷ 6 ∷ []; frame_len = 3 }) (omega arith)
      refl

read-wrap_compressed_plain_example :
    read_compressed (wrap_compressed_plain small_body 16 ++ (9 ∷ []))
    ≡ some (record { body = small_body; data_len = 0 })
read-wrap_compressed_plain_example =
    read-wrap_compressed_plain small_body (9 ∷ []) 16 (omega arith) (omega arith)

read-wrap_compressed_payload_example :
    read_compressed (wrap_compressed_payload 9000 small_body 16 ++ (9 ∷ []))
    ≡ some (record { body = small_body; data_len = 9000 })
read-wrap_compressed_payload_example =
    read-wrap_compressed_payload 9000 small_body (9 ∷ []) 16 (omega arith) (omega arith)
      (omega arith) (omega arith)
