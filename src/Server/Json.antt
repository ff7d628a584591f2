-- ===== src/Server/Json.antt =====
-- core/src/mc_server.c: chat lines as JSON.
use starrysky_mc_server.Commands.Handle.{command_text_cap}
use starrysky_mc_server.Commands.Text.{Builder}
use starrysky_mc_server.Packet.Writer.{write_u8, write_varint, write_string}
use starrysky_mc_server.Prelude.{
  ℕ, ◌+◌, ◌-◌, ◌*◌, ◌/◌, ◌%◌, true, false, ◌||◌, Option, none, some, List, [], ◌∷◌, ◌++◌, length,
  leb, ltb, ◌==◌, if◌then◌else◌, codes, Act, ◌>>◌, success,
}
use starrysky_mc_server.Server.Packets.{build}

-- `text` is `dst[0 .. *pos)`, and `cap` is `dst_cap`.
unfoldable pub json_append_char : ℕ → Act Builder
json_append_char ch b =
    if leb b.cap (length b.text + 1)
    then (false, b)
    else (true, record b { text = b.text ++ (ch ∷ []) })

unfoldable pub json_append_cstr : List ℕ → Act Builder
unfolding json_append_char
json_append_cstr [] = success
json_append_cstr (ch ∷ text) = json_append_char ch >> json_append_cstr text

unfoldable pub hex_digit : ℕ → ℕ
hex_digit value = let low : ℕ = value % 16 in if ltb low 10 then b'0' + low else b'A' + (low - 10)

-- One round of the loop of `json_escape_text`.
unfoldable pub escape_char : ℕ → Act Builder
unfolding json_append_char hex_digit
escape_char ch =
    if ltb ch 0x20
    then json_append_char b'\\'
      >> json_append_char b'u'
      >> json_append_char b'0'
      >> json_append_char b'0'
      >> json_append_char (hex_digit (ch / 16))
      >> json_append_char (hex_digit ch)
    else if ch == b'"' || ch == b'\\'
    then json_append_char b'\\' >> json_append_char ch
    else json_append_char ch

unfoldable pub escape_loop : List ℕ → Act Builder
unfolding escape_char
escape_loop [] = success
escape_loop (ch ∷ text) = escape_char ch >> escape_loop text

-- The escaped text, or `none` for a return of 0.
unfoldable pub json_escape_text : List ℕ → ℕ → Option (List ℕ)
unfolding escape_loop
json_escape_text text dst_cap =
    let (ok, b) = escape_loop text (record { cap = dst_cap; text = [] }) in
    if (dst_cap == 0) then none else if ok then some b.text else none

unfoldable pub build_chat_json : List ℕ → ℕ → Option (List ℕ)
unfolding json_append_cstr
build_chat_json escaped dst_cap =
    let (ok, b) =
      (json_append_cstr (codes "{\"text\":\"")
          >> json_append_cstr escaped
          >> json_append_cstr (codes "\"}"))
        (record { cap = dst_cap; text = [] }) in
    if (dst_cap == 0) then none else if ok then some b.text else none

unfoldable pub chat_packet_body : ℕ → List ℕ → Option (List ℕ)
unfolding build
chat_packet_body body_cap json =
    build body_cap (write_varint 0x02 >> write_string json >> write_u8 0)

unfoldable pub chat_body : ℕ → List ℕ → Option (List ℕ)
unfolding json_escape_text build_chat_json chat_packet_body
chat_body body_cap text = elim (json_escape_text text (command_text_cap * 6)) [
  | none ↦ none
  | some escaped ↦ elim (build_chat_json escaped (command_text_cap * 6 + 16)) [
    | none ↦ none
    | some json ↦ chat_packet_body body_cap json
  ]
]
