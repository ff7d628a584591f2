-- ===== src/Commands/Fixed.antt =====
-- core/src/mc_commands.c: a float or double, read by its bits, in hundredths.
pub mod Rounding
use starrysky_mc_server.Prelude.{
  ℕ, ◌+◌, ◌-◌, ◌*◌, ◌/◌, ◌%◌, ◌^◌, Bool, true, false, not, ◌&&◌, ◌||◌, Option, none, some, leb, ltb,
  ◌==◌, if◌then◌else◌,
}

abbrev pub fixed2_max_scaled : ℕ
fixed2_max_scaled = 3_000_000_000

abbrev pub double_sign_bit : ℕ
double_sign_bit = 9223372036854775808

-- `bits & FRAC_MASK`.
unfoldable pub frac_of_double : ℕ → ℕ
frac_of_double bits = bits % 2 ^ 52

-- Round half to even.
unfoldable pub round_shift_u64 : ℕ → ℕ → ℕ
round_shift_u64 value shift =
    if shift == 0
    then value
    else if leb 64 shift
    then 0
    else let quotient = value / 2 ^ shift in
      let remainder = value % 2 ^ shift in
      let half = 2 ^ (shift - 1) in
      if ltb half remainder || (remainder == half && not (quotient % 2 == 0))
      then quotient + 1
      else quotient

pub record Fixed2 : Type 0 where
  pub negative : Bool
  pub scaled : ℕ

-- The end of `mc_binary_to_fixed2`.
unfoldable pub fixed2_of : Bool → ℕ → Option Fixed2
fixed2_of negative scaled =
    if ltb fixed2_max_scaled scaled
    then none
    else some (record { negative = negative && not (scaled == 0); scaled = scaled })

-- `exponent` is given with its bias, and `shift` is `exponent - bias - mantissa_bits`; the three
-- shifts of the mantissa add up to a hundred times it, in 64 bits. `none` is too large.
unfoldable pub scaled_of : ℕ → ℕ → ℕ → ℕ → Option ℕ
unfolding round_shift_u64
scaled_of exp_bits bias mantissa mantissa_bits =
    let base = mantissa * 2 ^ 6 + mantissa * 2 ^ 5 + mantissa * 2 ^ 2 in
    if ltb (18446744073709551615 / 100) mantissa
    then none
    else if leb (bias + mantissa_bits) exp_bits
    then (let shift = exp_bits - bias - mantissa_bits in
        if leb 64 shift || ltb (fixed2_max_scaled / 2 ^ shift) base
        then none
        else some (base * 2 ^ shift))
    else some (round_shift_u64 base (bias + mantissa_bits - exp_bits))

-- With the last test on what was scaled.
unfoldable pub finish_fixed2 : Bool → Option ℕ → Option Fixed2
unfolding fixed2_of
finish_fixed2 negative none = none
finish_fixed2 negative (some scaled) = fixed2_of negative scaled

unfoldable pub binary_to_fixed2 : Bool → ℕ → ℕ → ℕ → ℕ → Option Fixed2
unfolding scaled_of finish_fixed2
binary_to_fixed2 negative exp_bits bias mantissa mantissa_bits =
    finish_fixed2 negative (scaled_of exp_bits bias mantissa mantissa_bits)

unfoldable pub double_to_fixed2 : ℕ → Option Fixed2
unfolding binary_to_fixed2 frac_of_double
double_to_fixed2 bits =
    let exp_bits = bits / 2 ^ 52 % 2048 in
    if exp_bits == 2047
    then none
    else if exp_bits == 0
    then some (record { negative = false; scaled = 0 })
    else binary_to_fixed2 (leb double_sign_bit bits) exp_bits 1023 (2 ^ 52 + frac_of_double bits) 52

unfoldable pub float_to_fixed2 : ℕ → Option Fixed2
unfolding binary_to_fixed2
float_to_fixed2 bits =
    let exp_bits = bits / 2 ^ 23 % 256 in
    if exp_bits == 255
    then none
    else if exp_bits == 0
    then some (record { negative = false; scaled = 0 })
    else binary_to_fixed2 (leb 2147483648 bits) exp_bits 127 (2 ^ 23 + bits % 2 ^ 23) 23
