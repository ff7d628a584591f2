-- ===== src/Packet/Frame.antt =====
-- mc_packet.c: frames around packet bodies. A function that fills `dst` returns the bytes that it
-- stores there; their number is its return value, and `[]` stands for a return of 0.
use starrysky_mc_server.Prelude.{
  ℕ, ◌-◌, List, [], ◌∷◌, ◌++◌, Bool, ◌||◌, Option, none, some, length, take, drop, ltb, ◌==◌,
  if◌then◌else◌,
}
use starrysky_mc_server.Config.{max_packet_body, int32_max, is_negative}
use starrysky_mc_server.Varint.{encode, decode}
use starrysky_mc_server.Ringbuf.{add_size}

unfoldable pub wrap : List ℕ → ℕ → List ℕ
wrap body dst_cap =
    let body_len = length body in
    let prefix = encode body_len 5 in
    let prefix_len = length prefix in
    if ltb max_packet_body body_len || ltb int32_max body_len
    then []
    else if prefix_len == 0 || ltb dst_cap prefix_len || ltb (dst_cap - prefix_len) body_len
    then []
    else prefix ++ body

unfoldable pub frame_len : ℕ → ℕ
frame_len body_len =
    let prefix_len = length (encode body_len 5) in
    if ltb max_packet_body body_len || ltb int32_max body_len
    then 0
    else if prefix_len == 0
    then 0
    else add_size prefix_len body_len

unfoldable pub compressed_plain_frame_len : ℕ → ℕ
compressed_plain_frame_len body_len =
    let inner_len = add_size 1 body_len in
    let outer_len = length (encode inner_len 5) in
    if ltb max_packet_body body_len || ltb int32_max inner_len || outer_len == 0
    then 0
    else add_size outer_len inner_len

-- `uncompressed_body_len <= 0`, of a 32-bit pattern, or a length above the limit.
abbrev pub bad_data_len : ℕ → Bool
bad_data_len n = is_negative n || n == 0 || ltb max_packet_body n

unfoldable pub compressed_payload_frame_len : ℕ → ℕ → ℕ
compressed_payload_frame_len uncompressed_body_len payload_len =
    let data_len_len = length (encode uncompressed_body_len 5) in
    let inner_len = add_size data_len_len payload_len in
    let outer_len = length (encode inner_len 5) in
    if bad_data_len uncompressed_body_len || ltb max_packet_body payload_len
    then 0
    else if data_len_len == 0 || ltb (int32_max - data_len_len) payload_len
    then 0
    else if outer_len == 0
    then 0
    else add_size outer_len inner_len

unfoldable pub wrap_compressed_plain : List ℕ → ℕ → List ℕ
wrap_compressed_plain body dst_cap =
    let inner_len = add_size 1 (length body) in
    let outer = encode inner_len 5 in
    if ltb max_packet_body (length body) || ltb int32_max inner_len
    then []
    else if length outer == 0 || ltb dst_cap (add_size (length outer) inner_len)
    then []
    else outer ++ (0 ∷ body)

unfoldable pub wrap_compressed_payload : ℕ → List ℕ → ℕ → List ℕ
wrap_compressed_payload uncompressed_body_len payload dst_cap =
    let payload_len = length payload in
    let data_len = encode uncompressed_body_len 5 in
    let data_len_len = length data_len in
    let inner_len = add_size data_len_len payload_len in
    let outer = encode inner_len 5 in
    if bad_data_len uncompressed_body_len || ltb max_packet_body payload_len
    then []
    else if data_len_len == 0 || ltb (int32_max - data_len_len) payload_len
    then []
    else if length outer == 0 || ltb dst_cap (add_size (length outer) inner_len)
    then []
    else outer ++ (data_len ++ payload)

-- What `mc_packet_get_compressed_body` reports; `body` is `body[0 .. body_len)`.
pub record CompressedBody : Type 0 where
  pub body : List ℕ
  pub data_len : ℕ

unfoldable pub get_compressed_body : List ℕ → Option CompressedBody
get_compressed_body frame_body = elim (decode frame_body) [
  | none ↦ none
  | some (decoded, used) ↦
      if ltb (length frame_body) used
      then none
      else if is_negative decoded || ltb max_packet_body decoded
      then none
      else some (record { body = drop used frame_body; data_len = decoded })
]

-- `mc_packet_t`; `body` is `body[0 .. body_len)`.
pub record Packet : Type 0 where
  pub body : List ℕ
  pub frame_len : ℕ

unfoldable pub try_read : List ℕ → Option Packet
try_read src = elim (decode src) [
  | none ↦ none
  | some (body_len, prefix_len) ↦
      if is_negative body_len || ltb max_packet_body body_len
      then none
      else if ltb (length src) (add_size prefix_len body_len)
      then none
      else some (record {
        body = take body_len (drop prefix_len src);
        frame_len = add_size prefix_len body_len;
      })
]
