-- ===== src/Commands/Handle/Replies.antt =====
-- core/src/mc_commands.c: every reply fits its buffer.
use starrysky_mc_server.Commands.Fixed.{
  Fixed2, fixed2_of, scaled_of, finish_fixed2, binary_to_fixed2, double_to_fixed2, float_to_fixed2,
  frac_of_double,
}
use starrysky_mc_server.Commands.Handle.{
  Weather, Outcome, chat_only, set_time, set_weather, reply, copy_chat, plain_chat, append_fixed2,
  append_position, report_position, time_result, weather_result, command_text_cap,
}
use starrysky_mc_server.Commands.Text.Appends.{
  Appends, append_char-Appends, append_cstr-Appends, chain-Appends, append_i32-Appends,
  append_fixed2_scaled-Appends, fixed2_text, length-fixed2_text,
}
use starrysky_mc_server.Commands.Text.Numbers.{decimal, length-decimal}
use starrysky_mc_server.Commands.Text.{Builder, builder_init, append_cstr, append_char}
use starrysky_mc_server.Prelude.{
  ℕ, ◌+◌, ◌<◌, ◌≤◌, ◌^◌, ◌%◌, ◌/◌, Bool, true, false, Option, none, some, List, [], ◌∷◌, ◌++◌, ◌≡◌,
  ap, length, leb, codes, Act, ◌>>◌, arith, length-append,
}

reply_fits :
    (o : Outcome) (m : Act Builder) (t : List ℕ)
    → Appends m t
    → length t < 160
    → reply o m ≡ (true, record { outcome = o; chat = t })
unfolding reply builder_init
reply_fits o m t a h =
    ap (λ (r : Bool × Builder). (r.0, record { outcome = o; chat = r.1.text }))
      (a.fits (record { cap = command_text_cap; text = [] }) (omega arith))

pub copy_chat_fits :
    (o : Outcome) (t : List ℕ)
    → length t < 160
    → copy_chat o t ≡ (true, record { outcome = o; chat = t })
unfolding copy_chat
copy_chat_fits o t h = reply_fits o (append_cstr t) t (append_cstr-Appends t) h

-- `<username> message`.
unfoldable pub chat_line : List ℕ → List ℕ → List ℕ
chat_line username message = (((b'<' ∷ []) ++ username) ++ codes "> ") ++ message

plain_chat-Appends :
    (username message : List ℕ)
    → Appends
        (append_char b'<'
          >> append_cstr username
          >> append_cstr (codes "> ")
          >> append_cstr message)
        (chat_line username message)
unfolding chat_line
plain_chat-Appends username message =
    chain-Appends _ _
      (chain-Appends _ _
        (chain-Appends _ _ (append_char-Appends b'<') (append_cstr-Appends username))
        (append_cstr-Appends (codes "> ")))
      (append_cstr-Appends message)

length-chat_line :
    (username message : List ℕ)
    → length (chat_line username message) ≡ length username + length message + 3
unfolding chat_line
length-chat_line username message = omega (
  arith,
  length-append ((((b'<' ∷ []) ++ username) ++ codes "> ")) message,
  length-append ((b'<' ∷ []) ++ username) (codes "> "),
)

pub plain_chat_fits :
    (username message : List ℕ)
    → length username + length message < 157
    → plain_chat username message
      ≡ (true, record { outcome = chat_only; chat = chat_line username message })
unfolding plain_chat
plain_chat_fits username message h =
    reply_fits chat_only _ _ (plain_chat-Appends username message)
      (omega (arith, length-chat_line username message))

pub plain_chat_refused :
    (username message : List ℕ)
    → 157 ≤ length username + length message
    → (plain_chat username message).0 ≡ false
unfolding plain_chat reply builder_init
plain_chat_refused username message h =
    (plain_chat-Appends username message).refuses (record { cap = command_text_cap; text = [] })
      (omega arith) (omega (arith, length-chat_line username message))

-- `Time set to 1000.`
unfoldable pub time_text : ℕ → List ℕ
unfolding decimal
time_text ticks = (codes "Time set to " ++ decimal ticks) ++ (b'.' ∷ [])

pub length-time_text : (ticks : ℕ) → ticks ≤ 24000 → length (time_text ticks) < 160
unfolding time_text
length-time_text ticks h = omega (
  arith,
  length-decimal 4 ticks (omega arith),
  length-append (codes "Time set to ") (decimal ticks),
  length-append (codes "Time set to " ++ decimal ticks) (b'.' ∷ []),
)

pub time_result_fits :
    (ticks : ℕ)
    → ticks ≤ 24000
    → time_result ticks ≡ (true, record { outcome = set_time ticks; chat = time_text ticks })
unfolding time_result time_text
time_result_fits ticks h =
    reply_fits (set_time ticks) _ _
      (chain-Appends _ _
        (chain-Appends _ _ (append_cstr-Appends (codes "Time set to "))
          (append_i32-Appends ticks (ground arith)))
        (append_char-Appends b'.'))
      (length-time_text ticks h)

pub weather_result_fits :
    (weather : Weather) (name : List ℕ)
    → length name < 100
    → weather_result weather name ≡ (
      true,
      record {
        outcome = set_weather weather;
        chat = (codes "Weather set to " ++ name) ++ (b'.' ∷ []);
      },
    )
unfolding weather_result
weather_result_fits weather name h =
    reply_fits (set_weather weather) _ _
      (chain-Appends _ _
        (chain-Appends _ _ (append_cstr-Appends (codes "Weather set to "))
          (append_cstr-Appends name))
        (append_char-Appends b'.'))
      (omega (
        arith,
        length-append (codes "Weather set to ") name,
        length-append (codes "Weather set to " ++ name) (b'.' ∷ []),
      ))

-- `12.50`, or `-12.50`.
abbrev pub shown : Fixed2 → List ℕ
shown f = fixed2_text f.negative f.scaled

-- The line of `/pos`.
unfoldable pub position_text : Fixed2 → Fixed2 → Fixed2 → Fixed2 → Fixed2 → List ℕ
position_text x y z yaw pitch =
    ((((((((codes "Known position: x=" ++ shown x) ++ codes " y=") ++ shown y) ++ codes " z=")
            ++ shown z)
          ++ codes " yaw=")
        ++ shown yaw)
      ++ codes " pitch=")
    ++ shown pitch

abbrev pub IsShort : Fixed2 → Type 0
IsShort f = f.scaled ≤ 3_000_000_000

module _ (x y z yaw pitch : Fixed2) where
  position-Appends : Appends (append_position x y z yaw pitch) (position_text x y z yaw pitch)
  unfolding append_position position_text append_fixed2
  position-Appends =
      chain-Appends _ _
        (chain-Appends _ _
          (chain-Appends _ _
            (chain-Appends _ _
              (chain-Appends _ _
                (chain-Appends _ _
                  (chain-Appends _ _
                    (chain-Appends _ _
                      (chain-Appends _ _ (append_cstr-Appends (codes "Known position: x="))
                        (append_fixed2_scaled-Appends x.negative x.scaled))
                      (append_cstr-Appends (codes " y=")))
                    (append_fixed2_scaled-Appends y.negative y.scaled))
                  (append_cstr-Appends (codes " z=")))
                (append_fixed2_scaled-Appends z.negative z.scaled))
              (append_cstr-Appends (codes " yaw=")))
            (append_fixed2_scaled-Appends yaw.negative yaw.scaled))
          (append_cstr-Appends (codes " pitch=")))
        (append_fixed2_scaled-Appends pitch.negative pitch.scaled)

  pub length-position_text :
      IsShort x
      → IsShort y
      → IsShort z
      → IsShort yaw
      → IsShort pitch
      → length (position_text x y z yaw pitch) < 160
  unfolding position_text
  length-position_text hx hy hz hyaw hpitch = simp length-append (
      omega (
        arith,
        length-fixed2_text x.negative x.scaled hx,
        length-fixed2_text y.negative y.scaled hy,
        length-fixed2_text z.negative z.scaled hz,
        length-fixed2_text yaw.negative yaw.scaled hyaw,
        length-fixed2_text pitch.negative pitch.scaled hpitch,
      ))

  pub report_position_fits :
      IsShort x
      → IsShort y
      → IsShort z
      → IsShort yaw
      → IsShort pitch
      → report_position (some x) (some y) (some z) (some yaw) (some pitch)
        ≡ (true, record { outcome = chat_only; chat = position_text x y z yaw pitch })
  unfolding report_position
  report_position_fits hx hy hz hyaw hpitch =
      reply_fits chat_only _ _ position-Appends (length-position_text hx hy hz hyaw hpitch)

fixed2_of-IsShort :
    (negative : Bool) (scaled : ℕ) (f : Fixed2) → fixed2_of negative scaled ≡ some f → IsShort f
unfolding fixed2_of
fixed2_of-IsShort negative scaled f h = ground arith

finish_fixed2-IsShort :
    (negative : Bool) (o : Option ℕ) (f : Fixed2) → finish_fixed2 negative o ≡ some f → IsShort f
unfolding finish_fixed2
finish_fixed2-IsShort negative none f h = cc
finish_fixed2-IsShort negative (some scaled) f h = fixed2_of-IsShort negative scaled f h

binary_to_fixed2-IsShort :
    (negative : Bool) (e bias m bits : ℕ) (f : Fixed2)
    → binary_to_fixed2 negative e bias m bits ≡ some f
    → IsShort f
unfolding binary_to_fixed2
binary_to_fixed2-IsShort negative e bias m bits f =
    finish_fixed2-IsShort negative (scaled_of e bias m bits) f

pub double_to_fixed2-IsShort : (bits : ℕ) (f : Fixed2) → double_to_fixed2 bits ≡ some f → IsShort f
unfolding double_to_fixed2
double_to_fixed2-IsShort bits f h = ground (
  arith,
  binary_to_fixed2-IsShort (leb 9223372036854775808 bits) (bits / 2 ^ 52 % 2048) 1023
      (2 ^ 52 + frac_of_double bits) 52 f,
)

pub float_to_fixed2-IsShort : (bits : ℕ) (f : Fixed2) → float_to_fixed2 bits ≡ some f → IsShort f
unfolding float_to_fixed2
float_to_fixed2-IsShort bits f h = ground (
  arith,
  binary_to_fixed2-IsShort (leb 2147483648 bits) (bits / 2 ^ 23 % 256) 127 (2 ^ 23 + bits % 2 ^ 23)
      23 f,
)
