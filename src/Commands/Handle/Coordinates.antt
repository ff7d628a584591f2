-- ===== src/Commands/Handle/Coordinates.antt =====
-- core/src/mc_commands.c: a coordinate that `/pos` prints, given to `/tp`, prints the same again.
use starrysky_mc_server.Commands.Decimal.Reading.{decimal_token, parse_decimal_reads}
use starrysky_mc_server.Commands.Decimal.Shown.{IsNear, double_of_q32_shown}
use starrysky_mc_server.Commands.Decimal.{
  parse_decimal, decimal_to_double, double_of_q32, frac_q32, frac_q32_sum, frac_digits_of,
}
use starrysky_mc_server.Commands.Fixed.{double_to_fixed2, fixed2_max_scaled}
use starrysky_mc_server.Commands.Text.Appends.{sign_text, fixed2_text}
use starrysky_mc_server.Commands.Text.Numbers.{
  decimal, decimal_cons, numeral-decimal, decimal-AllDigits, length-decimal,
}
use mathlib.Core.Path.{subst}
use starrysky_mc_server.Prelude.{
  AllDigits, ap₂, ℕ, ◌+◌, ◌*◌, ◌/◌, ◌%◌, ◌^◌, ◌<◌, ◌≤◌, Bool, true, false, not, ◌&&◌, some, List,
  [], ◌∷◌, ◌++◌, ◌≡◌, refl, ap, ◌∙◌, sym, length, ◌==◌, numeral, arith, append_assoc, Bool-cases,
  inl, inr,
}

-- Two digits after the point, in steps of 2^-32.
frac_q32_two : (f : ℕ) → f < 100 → frac_q32 f 100 ≡ f / 10 * 429496730 + f % 10 * 42949673
unfolding frac_q32 frac_digits_of frac_q32_sum
frac_q32_two f h = elim (Bool-cases (f == 0)) [
  | inl e ↦ rw e (ground arith)
  | inr e ↦ rw e (omega arith)
]

zero_shown :
    (negative : Bool)
    → double_to_fixed2 (decimal_to_double negative 0 0 100)
      ≡ some (record { negative = negative && not (0 * 100 + 0 == 0); scaled = 0 * 100 + 0 })
unfolding decimal_to_double double_of_q32 frac_q32 double_to_fixed2
zero_shown true = refl
zero_shown false = refl

module _ (w f : ℕ) (hw : w ≤ 30_000_000) (hf : f < 100) (le : w * 100 + f ≤ 3_000_000_000) where
  near : IsNear (w * 2 ^ 32 + frac_q32 f 100) (w * 100 + f)
  near = rw (frac_q32_two f hf) (record { above = omega arith; below = omega arith; small = le })

  pub shown_again :
      (negative : Bool)
      → double_to_fixed2 (decimal_to_double negative w f 100)
        ≡ some (record { negative = negative && not (w * 100 + f == 0); scaled = w * 100 + f })
  unfolding decimal_to_double
  shown_again negative = elim (Bool-cases (w * 100 + f == 0)) [
    | inl e ↦
        rw ((let t : w ≡ 0 = ground arith in t), (let t : f ≡ 0 = ground arith in t))
          (zero_shown negative)
    | inr e ↦
        double_of_q32_shown negative (w * 2 ^ 32 + frac_q32 f 100) (w * 100 + f) near
          (rw (frac_q32_two f hf) (ground arith)) (rw (frac_q32_two f hf) (omega arith))
  ]

and_twice : (a b : Bool) → ((a && b) && b) ≡ (a && b)
and_twice true true = refl
and_twice true false = refl
and_twice false b = refl

-- The text as a token.
fixed2_text_token :
    (negative : Bool) (scaled d : ℕ) (ds : List ℕ)
    → decimal (scaled / 100) ≡ d ∷ ds
    → fixed2_text negative scaled
      ≡ decimal_token
          (negative && not (scaled == 0))
          d
          ds
          (b'0' + scaled % 100 / 10)
          ((b'0' + scaled % 100 % 10) ∷ [])
unfolding fixed2_text
fixed2_text_token negative scaled d ds e =
    let sign = sign_text negative scaled in
    let a : ℕ = b'0' + scaled % 100 / 10 in
    let b : ℕ = b'0' + scaled % 100 % 10 in
    ap (λ l. (((sign ++ l) ++ (b'.' ∷ [])) ++ (a ∷ [])) ++ (b ∷ [])) e ∙ simp append_assoc refl

module _ (negative : Bool) (scaled : ℕ) (le : scaled ≤ fixed2_max_scaled) where
  -- Every coordinate text of `/pos` is read by `/tp` as a double that shows the same hundredths.
  pub parse_decimal-fixed2_text :
      (bits : ℕ) × (parse_decimal (fixed2_text negative scaled) ≡ some (bits, false))
      × (double_to_fixed2 bits
          ≡ some (record { negative = negative && not (scaled == 0); scaled = scaled }))
  parse_decimal-fixed2_text =
      let (d, ds, e) = decimal_cons (scaled / 100) in
      let w : ℕ = scaled / 100 in
      let f : ℕ = scaled % 100 in
      let whole : numeral (d ∷ ds) ≡ w = ap numeral (sym e) ∙ numeral-decimal w (omega arith) in
      let fraction : numeral ((b'0' + f / 10) ∷ (b'0' + f % 10) ∷ []) ≡ f = omega arith in
      let split : w * 100 + f ≡ scaled = omega arith in
      let minus_sign : Bool = negative && not (scaled == 0) in
      (
        decimal_to_double minus_sign w f 100,
        ap parse_decimal (fixed2_text_token negative scaled d ds e)
            ∙ parse_decimal_reads minus_sign d ds (b'0' + f / 10) ((b'0' + f % 10) ∷ [])
                (subst (AllDigits) e (decimal-AllDigits w)) (ground arith, (ground arith, tt))
                (omega (arith, ap length e, length-decimal 7 w (omega arith))) (omega arith)
                (omega (arith, whole, fraction))
            ∙ ap₂ (λ n m. some (decimal_to_double minus_sign n m 100, false)) whole fraction,
        shown_again w f (omega arith) (omega arith) (omega arith) minus_sign
            ∙ ap (λ n. some (record { negative = minus_sign && not (n == 0); scaled = n })) split
            ∙ ap (λ b. some (record { negative = b; scaled = scaled }))
                (and_twice negative (not (scaled == 0))),
      )
