-- ===== src/Commands/Decimal/Finite.antt =====
-- core/src/mc_commands.c: a coordinate that is read is a finite double below 2^26.
use native.Mathlib.Nat.{mul-le-mul}
use mathlib.Core.Path.{subst}
use starrysky_mc_server.Commands.Decimal.Reading.{parse_decimal_by, parse_decimal-none}
use starrysky_mc_server.Commands.Decimal.Bits.{
  IsTop, IsTop-lt, msb_loop-IsTop, mantissa_exact, rounded_cases,
}
use starrysky_mc_server.Commands.Decimal.{
  coord_limit_whole, max_frac_digits, frac_q32_place, frac_digits_of, frac_q32_sum, frac_q32,
  msb_loop, mantissa_of, double_of_q32, decimal_to_double, Number, read_signed, out_of_range,
  parse_decimal,
}
use starrysky_mc_server.Commands.Fixed.{double_sign_bit, frac_of_double}
use starrysky_mc_server.Prelude.{
  ℕ, zero, suc, ◌+◌, ◌-◌, ◌*◌, ◌/◌, ◌%◌, ◌^◌, ◌<◌, ◌≤◌, Bool, true, false, Option, some, List, [],
  ◌∷◌, ◌≡◌, ◌∙◌, sym, length, ltb, ◌==◌, if◌then◌else◌, get_or, All, arith, Bool-cases, inl, inr,
  Option-cases,
}

-- A double that is no infinity and no NaN: its exponent is at most 25.
pub record IsFinite (bits : ℕ) : Type 0 where
  pub word : bits < 2 ^ 64
  pub exponent : bits / 2 ^ 52 % 2048 ≤ 1048

frac_digits_of-All : (room value scale : ℕ) → All (λ d. d ≤ 9) (frac_digits_of room value scale)
unfolding frac_digits_of
frac_digits_of-All zero value scale = tt
frac_digits_of-All (suc room) value scale = elim (Bool-cases (ltb 1 scale)) [
  | inl e ↦ rw (frac_digits_of, e) (omega arith, frac_digits_of-All room (value / 10) (scale / 10))
  | inr e ↦ rw (frac_digits_of, e) tt
]

length-frac_digits_of : (room value scale : ℕ) → length (frac_digits_of room value scale) ≤ room
unfolding frac_digits_of
length-frac_digits_of zero value scale = omega arith
length-frac_digits_of (suc room) value scale = elim (Bool-cases (ltb 1 scale)) [
  | inl e ↦
      rw (frac_digits_of, e) (omega (arith, length-frac_digits_of room (value / 10) (scale / 10)))
  | inr e ↦ rw (frac_digits_of, e) (omega arith)
]

get_or-le : (xs : List ℕ) (i n : ℕ) → All (λ x. x ≤ n) xs → get_or xs i 0 ≤ n
get_or-le [] i n h = omega arith
get_or-le (x ∷ xs) zero n h = h.0
get_or-le (x ∷ xs) (suc i) n h = get_or-le xs i n h.1

frac_q32_sum-le :
    (i k : ℕ) (ds : List ℕ) → All (λ d. d ≤ 9) ds → frac_q32_sum i k ds ≤ length ds * 3_865_470_570
unfolding frac_q32_sum
frac_q32_sum-le i k [] h = omega arith
frac_q32_sum-le i k (d ∷ ds) h =
    let place = get_or-le frac_q32_place (i - k - 1) 429496730 (omega arith) in
    omega (arith, frac_q32_sum-le i (k + 1) ds h.1, mul-le-mul h.0 place)

frac_q32-le : (frac scale : ℕ) → frac_q32 frac scale ≤ 34_789_235_130
unfolding frac_q32
frac_q32-le frac scale =
    let digits = frac_digits_of max_frac_digits frac scale in
    let bound =
      frac_q32_sum-le (length digits) 0 digits (frac_digits_of-All max_frac_digits frac scale) in
    let short = length-frac_digits_of max_frac_digits frac scale in
    elim (frac == 0)
      as (λ b. (if b then 0 else frac_q32_sum (length digits) 0 digits) ≤ 34_789_235_130) [
        | true ↦ omega arith
        | false ↦ omega arith
      ]

sign-IsFinite :
    (negative : Bool) (e m : ℕ)
    → e ≤ 1048
    → IsFinite ((if negative then double_sign_bit else 0) + e * 2 ^ 52 + frac_of_double m)
unfolding frac_of_double
sign-IsFinite true e m h = omega arith
sign-IsFinite false e m h = omega arith

-- The exponent that rounding gives.
mantissa_carry : (q msb : ℕ) → msb < 57 → IsTop q msb → msb + (mantissa_of q msb).1 ≤ 57
mantissa_carry q msb h top = elim (Bool-cases (ltb msb 53)) [
  | inl e ↦ rw (mantissa_exact q msb (ground arith)) (omega arith)
  | inr e ↦
      let split : msb ≡ 53 + (msb - 53) = ground arith in
      let r = rounded_cases q (msb - 53) (omega arith) (rw split at top) in
      rw split (elim r [ inl a ↦ rw a.0 (omega arith) | inr b ↦ rw b.0 (omega arith) ])
]

zero-IsFinite : IsFinite 0
zero-IsFinite = omega arith

double_of_q32-IsFinite :
    (negative : Bool) (q : ℕ) → q < 2 ^ 57 → IsFinite (double_of_q32 negative q)
unfolding double_of_q32
double_of_q32-IsFinite negative q short = elim (Bool-cases (q == 0)) [
  | inl e ↦ rw e zero-IsFinite
  | inr e ↦
      let msb = msb_loop 64 q 0 in
      let top = msb_loop-IsTop 64 q 0 (ground arith) (omega arith) in
      rw e (
        sign-IsFinite negative (msb + (mantissa_of q msb).1 + 991) (mantissa_of q msb).0
          (omega (arith, mantissa_carry q msb (IsTop-lt 57 q msb short top) top)))
]

out_of_range-whole : (n : Number) → out_of_range n ≡ false → n.whole.whole ≤ coord_limit_whole
unfolding out_of_range
out_of_range-whole n h = ground arith

decimal_to_double-IsFinite :
    (negative : Bool) (whole frac scale : ℕ)
    → whole ≤ coord_limit_whole
    → IsFinite (decimal_to_double negative whole frac scale)
unfolding decimal_to_double
decimal_to_double-IsFinite negative whole frac scale h =
    double_of_q32-IsFinite negative (whole * 2 ^ 32 + frac_q32 frac scale)
      (omega (arith, frac_q32-le frac scale))

-- The two parts of the result, when the token is a number.
in_range_parts :
    (n : Number) (bits b : ℕ)
    → ◌≡◌ {A = Option (ℕ × Bool)}
        (some ((if out_of_range n then 0 else b), out_of_range n))
        (some (bits, false))
    → (out_of_range n ≡ false) × (b ≡ bits)
in_range_parts n bits b h = elim (Bool-cases (out_of_range n)) [
  | inl e ↦ ground arith
  | inr e ↦ (e, ground arith)
]

-- Whatever the token, a coordinate in range is finite.
pub parse_decimal-IsFinite :
    (token : List ℕ) (bits : ℕ) → parse_decimal token ≡ some (bits, false) → IsFinite bits
parse_decimal-IsFinite token bits h = elim (Option-cases (read_signed token)) [
  | inl e ↦ cc (parse_decimal-none token e)
  | inr (n, e) ↦
      let parts = in_range_parts n bits _ (sym (parse_decimal_by token n e) ∙ h) in
      subst (IsFinite) parts.1 (
        decimal_to_double-IsFinite n.negative n.whole.whole n.frac.frac n.frac.scale
          (out_of_range-whole n parts.0))
]
