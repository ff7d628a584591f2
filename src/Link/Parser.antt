-- ===== src/Link/Parser.antt =====
-- mc_link.c: the parser, which gathers the received bytes into frames.
pub mod Bounds
pub mod Delivery
use starrysky_mc_server.Prelude.{
  ℕ, zero, suc, ◌+◌, ◌-◌, ◌%◌, List, [], ◌∷◌, ◌++◌, Bool, true, false, not, ◌&&◌, ◌||◌, Option,
  none, some, length, take, drop, leb, ltb, ◌==◌, if◌then◌else◌, u32_mod,
}
use starrysky_mc_server.Link.Frame.{Frame, max_encoded_len, decode_frame, bytes_contain}

-- `mc_link_parser_t`; `buf` is `buf[0 .. len)`.
pub record Parser : Type 0 where
  pub buf : List ℕ
  pub crc_error_count : ℕ
  pub length_error_count : ℕ
  pub resync_count : ℕ
  pub discarding : Bool

unfoldable pub parser_init : Parser
parser_init = record {
  buf = [];
  crc_error_count = 0;
  length_error_count = 0;
  resync_count = 0;
  discarding = false;
}

unfoldable pub parser_drop : Parser → ℕ → Parser
parser_drop parser count =
    if leb (length parser.buf) count
    then record parser { buf = [] }
    else record parser { buf = drop count parser.buf }

-- The first index at which the loop of `parser_try_one` stops.
unfoldable pub find_delimiter : List ℕ → Option ℕ
find_delimiter [] = none
find_delimiter (b ∷ buf) = elim (find_delimiter buf) [
  | none ↦ if b == 0 then some 0 else none
  | some i ↦ if b == 0 then some 0 else some (suc i)
]

-- The four assignments by which the parser gives up what it has gathered.
unfoldable pub overflow : Parser → Parser
overflow parser = record parser {
  length_error_count = (parser.length_error_count + 1) % u32_mod;
  resync_count = (parser.resync_count + 1) % u32_mod;
  buf = [];
  discarding = true;
}

-- What is counted for the piece that the delimiter at `i` ends and that is no frame.
unfoldable pub count_error : Parser → ℕ → Parser
count_error parser i =
    if i == 0 || ltb max_encoded_len (i + 1)
    then record parser {
      resync_count = (parser.resync_count + 1) % u32_mod;
      length_error_count = (parser.length_error_count + 1) % u32_mod;
    }
    else record parser {
      resync_count = (parser.resync_count + 1) % u32_mod;
      crc_error_count = (parser.crc_error_count + 1) % u32_mod;
    }

-- `parser_try_one`; `none` is MC_LINK_PARSE_NEED_MORE.
unfoldable pub try_one : Parser → Option Frame × Parser
try_one parser = elim (find_delimiter parser.buf) [
  | some i ↦ elim (decode_frame (take (suc i) parser.buf)) [
    | some frame ↦ (some frame, parser_drop parser (suc i))
    | none ↦ (none, parser_drop (count_error parser i) (suc i))
  ]
  | none ↦ if length parser.buf == max_encoded_len then (none, overflow parser) else (none, parser)
]

-- The loop over the frames that are in the buffer already; the first argument bounds its rounds.
unfoldable pub drain : ℕ → Parser → Option Frame × Parser
drain zero parser = (none, parser)
drain (suc rounds) parser =
    let (result, parser') = try_one parser in
    let rest = drain rounds parser' in
    elim result [
      | some frame ↦ (some frame, parser')
      | none ↦ if length parser'.buf == length parser.buf then (none, parser') else rest
    ]

-- What is done with the input behind a frame.
unfoldable pub stash : Parser → List ℕ → Parser
stash parser remaining =
    let capacity = max_encoded_len - length parser.buf in
    if length remaining == 0
    then parser
    else if ltb capacity (length remaining)
    then overflow parser
    else if length remaining == capacity && not (bytes_contain 0 remaining)
    then overflow (record parser { buf = parser.buf ++ remaining })
    else record parser { buf = parser.buf ++ remaining }

-- One round of the loop over the input.
unfoldable pub feed_byte : Parser → ℕ → Option Frame × Parser
feed_byte parser byte =
    let appended = record parser { buf = parser.buf ++ (byte ∷ []) } in
    if parser.discarding
    then (if byte == 0 then (none, record parser { discarding = false }) else (none, parser))
    else if byte == 0
    then try_one appended
    else if length appended.buf == max_encoded_len
    then (none, overflow appended)
    else (none, appended)

unfoldable pub feed_loop : Parser → List ℕ → Option Frame × Parser
feed_loop parser [] = try_one parser
feed_loop parser (byte ∷ src) =
    let (result, parser') = feed_byte parser byte in
    let rest = feed_loop parser' src in
    elim result [ some frame ↦ (some frame, stash parser' src) | none ↦ rest ]

-- `mc_link_parser_feed`. A round that goes on shortens the buffer, so one more than its length is
-- enough.
unfoldable pub feed : Parser → List ℕ → Option Frame × Parser
feed parser src =
    let (result, parser') = drain (suc (length parser.buf)) parser in
    if parser.discarding
    then feed_loop (record parser { buf = [] }) src
    else elim result [ some frame ↦ (some frame, parser') | none ↦ feed_loop parser' src ]
