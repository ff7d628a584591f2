-- ===== src/Commands/Handle/Answers.antt =====
-- core/src/mc_commands.c: every command is answered, and what it asks for is within bounds.
use starrysky_mc_server.Commands.Decimal.Finite.{IsFinite, parse_decimal-IsFinite}
use starrysky_mc_server.Commands.Decimal.{parse_decimal, parse_time_ticks}
use starrysky_mc_server.Commands.Fixed.{Fixed2}
use starrysky_mc_server.Commands.Handle.Replies.{
  copy_chat_fits, time_result_fits, weather_result_fits, length-time_text, IsShort,
  length-position_text, report_position_fits, double_to_fixed2-IsShort, float_to_fixed2-IsShort,
}
use starrysky_mc_server.Commands.Handle.{
  Weather, clear, rain, thunder, Context, Outcome, chat_only, teleport, set_time, set_weather,
  Result, copy_chat, set_chat, default_position, handle_spawn, parse_three, teleport_to, handle_tp,
  report_position, handle_pos, time_result, time_ticks, handle_time, weather_result, handle_weather,
  help_text, unknown_command, dispatch, command,
}
use starrysky_mc_server.Commands.Tokens.{token_eq, split_spaces}
use starrysky_mc_server.Config.{is_negative}
use starrysky_mc_server.Prelude.{
  ℕ, ◌<◌, ◌≤◌, Bool, true, false, not, ◌||◌, Option, none, some, List, [], ◌∷◌, ◌≡◌, refl, ap, ◌∙◌,
  length, ltb, ◌==◌, if◌then◌else◌, get_or, codes, arith, length-append, Bool-cases, Option-cases,
  inl, inr,
}

-- A time of day in range, or a place with finite coordinates.
abbrev pub IsAction : Outcome → Type 0
IsAction chat_only = Unit {0}
IsAction (teleport p) = IsFinite p.x × IsFinite p.y × IsFinite p.z
IsAction (set_time ticks) = ticks ≤ 24000
IsAction (set_weather weather) = Unit {0}

-- The call succeeds, with a reply that fits and an action within bounds.
pub record Answers (r : Bool × Result) : Type 0 where
  pub ok : r.0 ≡ true
  pub short : length r.1.chat < 160
  pub action : IsAction r.1.outcome

copy_chat-Answers :
    (o : Outcome) (t : List ℕ) → length t < 160 → IsAction o → Answers (copy_chat o t)
copy_chat-Answers o t h a = rw (copy_chat_fits o t h) (record { ok = refl; short = h; action = a })

set_chat-Answers : (t : List ℕ) → length t < 160 → Answers (set_chat t)
unfolding set_chat
set_chat-Answers t h = copy_chat-Answers chat_only t h tt

time_result-Answers : (ticks : ℕ) → ticks ≤ 24000 → Answers (time_result ticks)
time_result-Answers ticks h =
    rw (time_result_fits ticks h)
      (record { ok = refl; short = length-time_text ticks h; action = h })

weather_result-Answers :
    (w : Weather) (name : List ℕ) → length name < 100 → Answers (weather_result w name)
weather_result-Answers w name h =
    rw (weather_result_fits w name h)
      (record { ok = refl; short = rw (length-append name (b'.' ∷ [])) (omega arith); action = tt })

-- A branch on a test.
if-Answers : (b : Bool) {r s : Bool × Result} → Answers r → Answers s → Answers (if b then r else s)
if-Answers true p q = p
if-Answers false p q = q

unknown_command-Answers : Answers unknown_command
unfolding unknown_command
unknown_command-Answers = set_chat-Answers (codes "Unknown command. Use /help.") (omega arith)

handle_spawn-Answers : Answers handle_spawn
unfolding handle_spawn
handle_spawn-Answers =
    copy_chat-Answers (teleport default_position) (codes "Teleported to spawn.") (omega arith)
      (omega arith)

-- The coordinates of three numbers, if all are in range.
abbrev AreFinite : Option ((ℕ × Bool) × (ℕ × Bool) × (ℕ × Bool)) → Type 0
AreFinite none = Unit {0}
AreFinite (some (x, y, z)) =
    (x.1 ≡ false → IsFinite x.0) × (y.1 ≡ false → IsFinite y.0) × (z.1 ≡ false → IsFinite z.0)

token-IsFinite :
    (token : List ℕ) (x : ℕ × Bool) → parse_decimal token ≡ some x → x.1 ≡ false → IsFinite x.0
token-IsFinite token (bits, out) e f =
    parse_decimal-IsFinite token bits (e ∙ ap (λ o. some (bits, o)) f)

parse_three-AreFinite : (tokens : List (List ℕ)) → AreFinite (parse_three tokens)
unfolding parse_three
parse_three-AreFinite tokens = elim (Option-cases (parse_decimal (get_or tokens 1 []))) [
  | inl e ↦ rw (parse_three, e) tt
  | inr (x, ex) ↦ elim (Option-cases (parse_decimal (get_or tokens 2 []))) [
    | inl e ↦ rw (parse_three, ex, e) tt
    | inr (y, ey) ↦ elim (Option-cases (parse_decimal (get_or tokens 3 []))) [
      | inl e ↦ rw (parse_three, ex, ey, e) tt
      | inr (z, ez) ↦
          rw (parse_three, ex, ey, ez)
            (
              token-IsFinite (get_or tokens 1 []) x ex,
              token-IsFinite (get_or tokens 2 []) y ey,
              token-IsFinite (get_or tokens 3 []) z ez,
            )
    ]
  ]
]

teleport_to-Answers :
    (ctx : Context) (o : Option ((ℕ × Bool) × (ℕ × Bool) × (ℕ × Bool)))
    → AreFinite o
    → Answers (teleport_to ctx o)
unfolding teleport_to
teleport_to-Answers ctx none f = set_chat-Answers (codes "Invalid number.") (omega arith)
teleport_to-Answers ctx (some ((x, true), y, z)) f =
    set_chat-Answers (codes "Coordinate out of range.") (omega arith)
teleport_to-Answers ctx (some ((x, false), (y, true), z)) f =
    set_chat-Answers (codes "Coordinate out of range.") (omega arith)
teleport_to-Answers ctx (some ((x, false), (y, false), (z, true))) f =
    set_chat-Answers (codes "Coordinate out of range.") (omega arith)
teleport_to-Answers ctx (some ((x, false), (y, false), (z, false))) f =
    copy_chat-Answers _ (codes "Teleported.") (omega arith) (f.0 refl, f.1 refl, f.2 refl)

handle_tp-Answers :
    (tokens : List (List ℕ)) (n : ℕ) (ctx : Context) → Answers (handle_tp tokens n ctx)
unfolding handle_tp
handle_tp-Answers tokens n ctx =
    if-Answers (not (n == 4)) (set_chat-Answers (codes "Usage: /tp <x> <y> <z>") (omega arith))
      (teleport_to-Answers ctx (parse_three tokens) (parse_three-AreFinite tokens))

-- The five numbers of a position, where they can be shown.
abbrev AllShort : Option Fixed2 → Type 0
AllShort none = Unit {0}
AllShort (some f) = IsShort f

unavailable : Answers (set_chat (codes "Known position unavailable."))
unavailable = set_chat-Answers (codes "Known position unavailable.") (omega arith)

report_position-Answers :
    (x y z yaw pitch : Option Fixed2)
    → AllShort x
    → AllShort y
    → AllShort z
    → AllShort yaw
    → AllShort pitch
    → Answers (report_position x y z yaw pitch)
unfolding report_position
report_position-Answers (some x) (some y) (some z) (some yaw) (some pitch) hx hy hz hyaw hpitch =
    rw (report_position_fits x y z yaw pitch hx hy hz hyaw hpitch) (record {
      ok = refl;
      short = length-position_text x y z yaw pitch hx hy hz hyaw hpitch;
      action = tt;
    })
report_position-Answers none _ _ _ _ _ _ _ _ _ = unavailable
report_position-Answers (some _) none _ _ _ _ _ _ _ _ = unavailable
report_position-Answers (some _) (some _) none _ _ _ _ _ _ _ = unavailable
report_position-Answers (some _) (some _) (some _) none _ _ _ _ _ _ = unavailable
report_position-Answers (some _) (some _) (some _) (some _) none _ _ _ _ _ = unavailable

shown-AllShort : (o : Option Fixed2) → ((f : Fixed2) → o ≡ some f → IsShort f) → AllShort o
shown-AllShort none h = tt
shown-AllShort (some f) h = h f refl

handle_pos-Answers : (ctx : Context) → Answers (handle_pos ctx)
unfolding handle_pos
handle_pos-Answers ctx =
    report_position-Answers _ _ _ _ _ (shown-AllShort _ (double_to_fixed2-IsShort ctx.position.x))
      (shown-AllShort _ (double_to_fixed2-IsShort ctx.position.y))
      (shown-AllShort _ (double_to_fixed2-IsShort ctx.position.z))
      (shown-AllShort _ (float_to_fixed2-IsShort ctx.position.yaw))
      (shown-AllShort _ (float_to_fixed2-IsShort ctx.position.pitch))

time_ticks-Answers : (o : Option ℕ) → Answers (time_ticks o)
unfolding time_ticks
time_ticks-Answers none = set_chat-Answers (codes "Invalid number.") (omega arith)
time_ticks-Answers (some ticks) = elim (Bool-cases (is_negative ticks || ltb 24000 ticks)) [
  | inl e ↦ rw e (set_chat-Answers (codes "Time must be 0..24000.") (omega arith))
  | inr e ↦ rw e (time_result-Answers ticks (ground arith))
]

handle_time-Answers : (tokens : List (List ℕ)) (n : ℕ) → Answers (handle_time tokens n)
unfolding handle_time
handle_time-Answers tokens n =
    let token = get_or tokens 1 [] in
    if-Answers (not (n == 2))
      (set_chat-Answers (codes "Usage: /time <day|noon|night|midnight|ticks>") (omega arith))
      (if-Answers (token_eq token (codes "day")) (time_result-Answers 1000 (omega arith)) (
        if-Answers (token_eq token (codes "noon")) (time_result-Answers 6000 (omega arith)) (
          if-Answers (token_eq token (codes "night")) (time_result-Answers 13000 (omega arith)) (
            if-Answers (token_eq token (codes "midnight")) (time_result-Answers 18000 (omega arith))
              (time_ticks-Answers (parse_time_ticks token))))))

weather_usage-Answers : Answers (set_chat (codes "Usage: /weather <clear|rain|thunder>"))
weather_usage-Answers =
    set_chat-Answers (codes "Usage: /weather <clear|rain|thunder>") (omega arith)

handle_weather-Answers : (tokens : List (List ℕ)) (n : ℕ) → Answers (handle_weather tokens n)
unfolding handle_weather
handle_weather-Answers tokens n =
    let token = get_or tokens 1 [] in
    if-Answers (not (n == 2)) weather_usage-Answers (
      if-Answers (token_eq token (codes "clear"))
        (weather_result-Answers clear (codes "clear") (omega arith))
        (if-Answers (token_eq token (codes "rain"))
          (weather_result-Answers rain (codes "rain") (omega arith))
          (if-Answers (token_eq token (codes "thunder"))
            (weather_result-Answers thunder (codes "thunder") (omega arith))
            weather_usage-Answers)))

dispatch-Answers :
    (tokens : List (List ℕ)) (n : ℕ) (ctx : Context) → Answers (dispatch tokens n ctx)
unfolding dispatch
dispatch-Answers tokens n ctx =
    let name = get_or tokens 0 [] in
    if-Answers (token_eq name (codes "/help"))
      (if-Answers (not (n == 1)) unknown_command-Answers (set_chat-Answers help_text (omega arith)))
      (if-Answers (token_eq name (codes "/spawn"))
        (if-Answers (not (n == 1)) unknown_command-Answers handle_spawn-Answers)
        (if-Answers (token_eq name (codes "/tp")) (handle_tp-Answers tokens n ctx) (
          if-Answers (token_eq name (codes "/pos"))
            (if-Answers (not (n == 1)) unknown_command-Answers (handle_pos-Answers ctx))
            (if-Answers (token_eq name (codes "/time")) (handle_time-Answers tokens n) (
              if-Answers (token_eq name (codes "/weather")) (handle_weather-Answers tokens n)
                unknown_command-Answers)))))

-- Whatever follows the slash and whatever the context.
pub command-Answers : (message : List ℕ) (ctx : Context) → Answers (command message ctx)
unfolding command
command-Answers message ctx =
    let s = split_spaces message 5 in
    if-Answers (s.count == 0 || s.too_many) unknown_command-Answers
      (dispatch-Answers s.tokens s.count ctx)
