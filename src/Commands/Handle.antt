-- ===== src/Commands/Handle.antt =====
-- core/src/mc_commands.c and core/include/mc_commands.h: the replies and actions of chat lines.
pub mod Replies
pub mod Teleport
pub mod Chat
pub mod Answers
pub mod Coordinates
use starrysky_mc_server.Commands.Decimal.{parse_decimal, parse_time_ticks}
use starrysky_mc_server.Commands.Fixed.{Fixed2, double_to_fixed2, float_to_fixed2}
use starrysky_mc_server.Commands.Text.{
  Builder, builder_init, append_char, append_cstr, append_i32, append_fixed2_scaled,
}
use starrysky_mc_server.Commands.Tokens.{Split, token_eq, split_spaces}
use starrysky_mc_server.Config.{is_negative}
use starrysky_mc_server.Prelude.{
  ℕ, ◌+◌, Bool, true, false, not, ◌&&◌, ◌||◌, Option, none, some, List, [], ◌∷◌, length, leb, ltb,
  ◌==◌, if◌then◌else◌, get_or, codes, Act, ◌>>◌,
}

abbrev pub command_text_cap : ℕ
command_text_cap = 160

pub data Weather : Type 0 where
  clear rain thunder : Weather

-- The bits of doubles and floats.
pub record Position : Type 0 where
  pub x : ℕ
  pub y : ℕ
  pub z : ℕ
  pub yaw : ℕ
  pub pitch : ℕ

pub record Context : Type 0 where
  pub position : Position
  pub time_of_day : ℕ
  pub weather : Weather

-- The type of a result with the member of the union that it selects.
pub data Outcome : Type 0 where
  chat_only : Outcome
  teleport : Position → Outcome
  set_time : ℕ → Outcome
  set_weather : Weather → Outcome

pub record Result : Type 0 where
  pub outcome : Outcome
  pub chat : List ℕ

-- 0.5, 32.0 and 0.5; a float 0.
abbrev pub default_position : Position
default_position = record {
  x = 0x3fe0000000000000;
  y = 0x4040000000000000;
  z = 0x3fe0000000000000;
  yaw = 0;
  pitch = 0;
}

abbrev pub default_time : ℕ
default_time = 6000

abbrev pub default_context : Context
default_context = record {
  position = default_position;
  time_of_day = default_time;
  weather = clear;
}

-- The reply is written to `result->chat` by a chain of appends.
unfoldable pub reply : Outcome → Act Builder → Bool × Result
unfolding builder_init
reply outcome write =
    let (ok, b) = write (builder_init command_text_cap) in
    (ok, record { outcome = outcome; chat = b.text })

unfoldable pub copy_chat : Outcome → List ℕ → Bool × Result
unfolding reply append_cstr
copy_chat outcome text = reply outcome (append_cstr text)

unfoldable pub set_chat : List ℕ → Bool × Result
unfolding copy_chat
set_chat text = copy_chat chat_only text

unfoldable pub plain_chat : List ℕ → List ℕ → Bool × Result
unfolding reply append_char append_cstr
plain_chat username message =
    reply chat_only
      (append_char b'<' >> append_cstr username >> append_cstr (codes "> ") >> append_cstr message)

unfoldable pub handle_spawn : Bool × Result
unfolding copy_chat
handle_spawn = copy_chat (teleport default_position) (codes "Teleported to spawn.")

-- The three numbers of `/tp`, the second and third read only if those before are numbers.
unfoldable pub parse_three : List (List ℕ) → Option ((ℕ × Bool) × (ℕ × Bool) × (ℕ × Bool))
unfolding parse_decimal
parse_three tokens = elim (parse_decimal (get_or tokens 1 [])) [
  | none ↦ none
  | some x ↦ elim (parse_decimal (get_or tokens 2 [])) [
    | none ↦ none
    | some y ↦ elim (parse_decimal (get_or tokens 3 [])) [ none ↦ none | some z ↦ some (x, y, z) ]
  ]
]

unfoldable pub teleport_to : Context → Option ((ℕ × Bool) × (ℕ × Bool) × (ℕ × Bool)) → Bool × Result
unfolding set_chat copy_chat
teleport_to ctx none = set_chat (codes "Invalid number.")
teleport_to ctx (some (x, y, z)) =
    if x.1 || y.1 || z.1
    then set_chat (codes "Coordinate out of range.")
    else copy_chat (teleport (record ctx.position { x = x.0; y = y.0; z = z.0 }))
        (codes "Teleported.")

unfoldable pub handle_tp : List (List ℕ) → ℕ → Context → Bool × Result
unfolding set_chat parse_three teleport_to
handle_tp tokens count ctx =
    if not (count == 4)
    then set_chat (codes "Usage: /tp <x> <y> <z>")
    else teleport_to ctx (parse_three tokens)

unfoldable pub append_fixed2 : Fixed2 → Act Builder
unfolding append_fixed2_scaled
append_fixed2 f = append_fixed2_scaled f.negative f.scaled

-- The line of `/pos`.
unfoldable pub append_position : Fixed2 → Fixed2 → Fixed2 → Fixed2 → Fixed2 → Act Builder
unfolding append_cstr append_fixed2
append_position x y z yaw pitch =
    append_cstr (codes "Known position: x=")
    >> append_fixed2 x
    >> append_cstr (codes " y=")
    >> append_fixed2 y
    >> append_cstr (codes " z=")
    >> append_fixed2 z
    >> append_cstr (codes " yaw=")
    >> append_fixed2 yaw
    >> append_cstr (codes " pitch=")
    >> append_fixed2 pitch

unfoldable pub report_position :
    Option Fixed2 → Option Fixed2 → Option Fixed2 → Option Fixed2 → Option Fixed2 → Bool × Result
unfolding set_chat reply append_position
report_position (some x) (some y) (some z) (some yaw) (some pitch) =
    reply chat_only (append_position x y z yaw pitch)
report_position _ _ _ _ _ = set_chat (codes "Known position unavailable.")

unfoldable pub handle_pos : Context → Bool × Result
unfolding report_position double_to_fixed2 float_to_fixed2
handle_pos ctx =
    report_position (double_to_fixed2 p.x) (double_to_fixed2 p.y) (double_to_fixed2 p.z)
      (float_to_fixed2 p.yaw) (float_to_fixed2 p.pitch)
  where
    p : Position
    p = ctx.position

unfoldable pub time_result : ℕ → Bool × Result
unfolding reply append_cstr append_i32 append_char
time_result ticks =
    reply (set_time ticks)
      (append_cstr (codes "Time set to ") >> append_i32 ticks >> append_char b'.')

-- A tick count that is a number.
unfoldable pub time_ticks : Option ℕ → Bool × Result
unfolding set_chat time_result
time_ticks none = set_chat (codes "Invalid number.")
time_ticks (some ticks) =
    if is_negative ticks || ltb 24000 ticks
    then set_chat (codes "Time must be 0..24000.")
    else time_result ticks

unfoldable pub handle_time : List (List ℕ) → ℕ → Bool × Result
unfolding set_chat time_result token_eq time_ticks parse_time_ticks
handle_time tokens count =
    if not (count == 2)
    then set_chat (codes "Usage: /time <day|noon|night|midnight|ticks>")
    else if token_eq (get_or tokens 1 []) (codes "day")
    then time_result 1000
    else if token_eq (get_or tokens 1 []) (codes "noon")
    then time_result 6000
    else if token_eq (get_or tokens 1 []) (codes "night")
    then time_result 13000
    else if token_eq (get_or tokens 1 []) (codes "midnight")
    then time_result 18000
    else time_ticks (parse_time_ticks (get_or tokens 1 []))

unfoldable pub weather_result : Weather → List ℕ → Bool × Result
unfolding reply append_cstr append_char
weather_result weather name =
    reply (set_weather weather)
      (append_cstr (codes "Weather set to ") >> append_cstr name >> append_char b'.')

abbrev weather_usage : List ℕ
weather_usage = codes "Usage: /weather <clear|rain|thunder>"

unfoldable pub handle_weather : List (List ℕ) → ℕ → Bool × Result
unfolding set_chat weather_result token_eq
handle_weather tokens count =
    if not (count == 2)
    then set_chat weather_usage
    else if token_eq (get_or tokens 1 []) (codes "clear")
    then weather_result clear (codes "clear")
    else if token_eq (get_or tokens 1 []) (codes "rain")
    then weather_result rain (codes "rain")
    else if token_eq (get_or tokens 1 []) (codes "thunder")
    then weather_result thunder (codes "thunder")
    else set_chat weather_usage

abbrev pub help_text : List ℕ
help_text =
    codes
      "Commands: /help, /spawn, /tp <x> <y> <z>, /pos, /time <day|noon|night|midnight|ticks>, /weather <clear|rain|thunder>"

unfoldable pub unknown_command : Bool × Result
unfolding set_chat
unknown_command = set_chat (codes "Unknown command. Use /help.")

-- The command of a line whose tokens fit the array.
unfoldable pub dispatch : List (List ℕ) → ℕ → Context → Bool × Result
unfolding token_eq unknown_command set_chat handle_spawn handle_tp handle_pos handle_time
    handle_weather
dispatch tokens count ctx =
    if token_eq name (codes "/help")
    then (if not (count == 1) then unknown_command else set_chat help_text)
    else if token_eq name (codes "/spawn")
    then (if not (count == 1) then unknown_command else handle_spawn)
    else if token_eq name (codes "/tp")
    then handle_tp tokens count ctx
    else if token_eq name (codes "/pos")
    then (if not (count == 1) then unknown_command else handle_pos ctx)
    else if token_eq name (codes "/time")
    then handle_time tokens count
    else if token_eq name (codes "/weather")
    then handle_weather tokens count
    else unknown_command
  where
    name : List ℕ
    name = get_or tokens 0 []

unfoldable pub command : List ℕ → Context → Bool × Result
unfolding split_spaces dispatch unknown_command
command message ctx =
    let s = split_spaces message 5 in
    if s.count == 0 || s.too_many then unknown_command else dispatch s.tokens s.count ctx

-- The result of the call, and what it leaves in `*result`.
unfoldable pub handle_chat : List ℕ → List ℕ → Context → Bool × Result
unfolding plain_chat command
handle_chat username message ctx =
    if not (get_or message 0 0 == b'/') then plain_chat username message else command message ctx
