-- ===== src/Commands/Decimal.antt =====
-- core/src/mc_commands.c: decimal coordinates and tick counts read from a token.
pub mod Bits
pub mod Digits
pub mod Shown
pub mod Reading
pub mod Ticks
pub mod Finite
use starrysky_mc_server.Prelude.{
  ℕ, zero, suc, ◌+◌, ◌-◌, ◌*◌, ◌/◌, ◌%◌, ◌^◌, Bool, true, false, not, ◌&&◌, ◌||◌, Option, none,
  some, List, [], ◌∷◌, ◌++◌, length, leb, ltb, ◌==◌, if◌then◌else◌, is_digit, shl, get_or, u32_mod,
  bit_or,
}
use starrysky_mc_server.Commands.Fixed.{round_shift_u64, double_sign_bit, frac_of_double}

abbrev pub coord_limit_whole : ℕ
coord_limit_whole = 30_000_000

abbrev pub max_frac_digits : ℕ
max_frac_digits = 9

-- The digits before the point; `whole` keeps its value once it would pass the limit.
pub record Whole : Type 0 where
  pub whole : ℕ
  pub range_error : Bool
  pub int_digits : ℕ

unfoldable pub whole_step : ℕ → Whole → Whole
whole_step digit s =
    if ltb ((coord_limit_whole - digit) / 10) s.whole
    then record s { range_error = true; int_digits = (s.int_digits + 1) % u32_mod }
    else if not s.range_error
    then record s { whole = s.whole * 10 + digit; int_digits = (s.int_digits + 1) % u32_mod }
    else record s { int_digits = (s.int_digits + 1) % u32_mod }

-- What is left of the token stands beside the state.
unfoldable pub whole_loop : List ℕ → Whole → Whole × List ℕ
unfolding whole_step
whole_loop [] s = (s, [])
whole_loop (c ∷ token) s =
    let rest = whole_loop token (whole_step (c - b'0') s) in
    if is_digit c then rest else (s, c ∷ token)

-- The digits after the point.
pub record Frac : Type 0 where
  pub frac : ℕ
  pub scale : ℕ
  pub frac_digits : ℕ
  pub discarded_nonzero : Bool

unfoldable pub frac_step : Bool → ℕ → Frac → Frac
frac_step range_error c s =
    if not range_error && ltb s.frac_digits max_frac_digits
    then record s {
      frac = (s.frac * 10 + (c - b'0')) % u32_mod;
      scale = s.scale * 10 % u32_mod;
      frac_digits = (s.frac_digits + 1) % u32_mod;
    }
    else if not (c == b'0')
    then record s { discarded_nonzero = true; frac_digits = (s.frac_digits + 1) % u32_mod }
    else record s { frac_digits = (s.frac_digits + 1) % u32_mod }

unfoldable pub frac_loop : Bool → List ℕ → Frac → Frac × List ℕ
unfolding frac_step
frac_loop range_error [] s = (s, [])
frac_loop range_error (c ∷ token) s =
    let rest = frac_loop range_error token (frac_step range_error c s) in
    if is_digit c then rest else (s, c ∷ token)

abbrev pub frac_q32_place : List ℕ
frac_q32_place = 429496730 ∷ 42949673 ∷ 4294967 ∷ 429497 ∷ 42950 ∷ 4295 ∷ 430 ∷ 43 ∷ 4 ∷ []

-- `while (scale > 1 && i < 9)`: the digits, the last one first.
unfoldable pub frac_digits_of : ℕ → ℕ → ℕ → List ℕ
frac_digits_of zero value scale = []
frac_digits_of (suc room) value scale = elim (ltb 1 scale) [
  | true ↦ (value % 10) ∷ frac_digits_of room (value / 10) (scale / 10)
  | false ↦ []
]

-- `while (digit_count > 0)`: the digit at `digit_count` has place `i - digit_count - 1`.
unfoldable pub frac_q32_sum : ℕ → ℕ → List ℕ → ℕ
frac_q32_sum i at [] = 0
frac_q32_sum i at (d ∷ ds) = frac_q32_sum i (at + 1) ds + d * get_or frac_q32_place (i - at - 1) 0

unfoldable pub frac_q32 : ℕ → ℕ → ℕ
unfolding frac_digits_of frac_q32_sum
frac_q32 frac scale =
    if frac == 0
    then 0
    else let digits = frac_digits_of max_frac_digits frac scale in
      frac_q32_sum (length digits) 0 digits

-- `while ((q32 >> msb) > 1) msb++`, on fuel: a 64-bit number has 64 positions.
unfoldable pub msb_loop : ℕ → ℕ → ℕ → ℕ
msb_loop zero q32 msb = msb
msb_loop (suc fuel) q32 msb = elim (ltb 1 (q32 / 2 ^ msb)) [
  | true ↦ msb_loop fuel q32 (msb + 1)
  | false ↦ msb
]

-- The mantissa, and whether rounding carried into the exponent.
unfoldable pub mantissa_of : ℕ → ℕ → ℕ × ℕ
unfolding round_shift_u64
mantissa_of q32 msb =
    if leb msb 52
    then (q32 * 2 ^ (52 - msb), 0)
    else let mantissa = round_shift_u64 q32 (msb - 52) in
      if not (mantissa / 2 ^ 53 == 0) then (mantissa / 2, 1) else (mantissa, 0)

-- The bits of the double; the biased exponent is `msb - 32 + 1023`, and the fields are disjoint.
unfoldable pub double_of_q32 : Bool → ℕ → ℕ
unfolding msb_loop mantissa_of frac_of_double
double_of_q32 negative q32 =
    if q32 == 0
    then 0
    else let msb = msb_loop 64 q32 0 in
      let (mantissa, carry) = mantissa_of q32 msb in
      (if negative then double_sign_bit else 0)
      + (msb + carry + 991) * 2 ^ 52
      + frac_of_double mantissa

unfoldable pub decimal_to_double : Bool → ℕ → ℕ → ℕ → ℕ
unfolding double_of_q32 frac_q32
decimal_to_double negative whole frac scale =
    double_of_q32 negative (whole * 2 ^ 32 + frac_q32 frac scale)

-- What the token's digits say: `none` is a token that is no number.
pub record Number : Type 0 where
  pub negative : Bool
  pub whole : Whole
  pub frac : Frac

abbrev pub whole_init : Whole
whole_init = record { whole = 0; range_error = false; int_digits = 0 }

abbrev pub frac_init : Frac
frac_init = record { frac = 0; scale = 1; frac_digits = 0; discarded_nonzero = false }

-- After the digits of the whole part.
unfoldable pub read_frac : Bool → Whole → List ℕ → Option Number
unfolding frac_loop
read_frac negative w [] = some (record { negative = negative; whole = w; frac = frac_init })
read_frac negative w (c ∷ rest) =
    let (f, left) = frac_loop w.range_error rest frac_init in
    if not (c == b'.') || (f.frac_digits == 0) || not (length left == 0)
    then none
    else some (record { negative = negative; whole = w; frac = f })

unfoldable pub read_number : Bool → List ℕ → Option Number
unfolding whole_loop read_frac
read_number negative token =
    let (w, rest) = whole_loop token whole_init in
    if w.int_digits == 0 then none else read_frac negative w rest

-- The sign; a sign alone is no number.
unfoldable pub read_signed : List ℕ → Option Number
unfolding read_number
read_signed [] = none
read_signed (c ∷ token) =
    if c == b'-' || c == b'+'
    then (if length token == 0 then none else read_number (c == b'-') token)
    else read_number false (c ∷ token)

-- The last test of the range.
unfoldable pub out_of_range : Number → Bool
out_of_range n =
    n.whole.range_error
    || ltb coord_limit_whole n.whole.whole
    || (n.whole.whole == coord_limit_whole && (not (n.frac.frac == 0) || n.frac.discarded_nonzero))

-- The bits of the double, and `*out_of_range`; `none` is the result 0.
unfoldable pub parse_decimal : List ℕ → Option (ℕ × Bool)
unfolding read_signed out_of_range decimal_to_double
parse_decimal token = elim (read_signed token) [
  | none ↦ none
  | some n ↦ some (
    (if out_of_range n
        then 0
        else decimal_to_double n.negative n.whole.whole n.frac.frac n.frac.scale),
    out_of_range n,
  )
]

-- The value stays once it has passed 24000, so it never grows beyond 240009.
unfoldable pub ticks_loop : List ℕ → ℕ → Option ℕ
ticks_loop [] value = some value
ticks_loop (ch ∷ token) value =
    let rest = ticks_loop token (if leb value 24000 then value * 10 + (ch - b'0') else value) in
    if is_digit ch then rest else none

unfoldable pub parse_time_ticks : List ℕ → Option ℕ
unfolding ticks_loop
parse_time_ticks token = if length token == 0 then none else ticks_loop token 0
