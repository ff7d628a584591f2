-- ===== src/Commands/Decimal/Reading.antt =====
-- core/src/mc_commands.c: which decimals `mc_parse_decimal` reads, and as what.
use native.Mathlib.Nat.{zero-add, one-le-pow, le_of_mul-le-mul_right}
use starrysky_mc_server.Commands.Decimal.Digits.{
  Stops, whole_loop_in, whole_loop-IsOut, frac_loop_in, frac_loop_counts,
}
use starrysky_mc_server.Commands.Decimal.{
  Whole, whole_init, whole_loop, Frac, frac_init, frac_loop, coord_limit_whole, Number, read_frac,
  read_number, read_signed, out_of_range, parse_decimal, decimal_to_double,
}
use starrysky_mc_server.Prelude.{
  AllDigits, ℕ, ◌+◌, ◌*◌, ◌^◌, ◌<◌, ◌≤◌, Bool, true, false, not, ◌&&◌, ◌||◌, Option, none, some,
  List, [], ◌∷◌, ◌++◌, ◌≡◌, refl, ap, ◌∙◌, length, ltb, ◌==◌, if◌then◌else◌, is_digit, numeral,
  arith, u32_mod, pos→ne, Bool-cases, inl, inr, ==→eq,
}

-- `-` for a negative number.
abbrev pub minus : Bool → List ℕ
minus negative = if negative then b'-' ∷ [] else []

-- The tests after the point, on the state and the rest of the token.
abbrev after_point : Bool → Whole → Frac × List ℕ → Option Number
after_point negative w r =
    if not (b'.' == b'.') || (r.0.frac_digits == 0) || not (length r.1 == 0)
    then none
    else some (record { negative = negative; whole = w; frac = r.0 })

abbrev after_whole : Bool → Whole × List ℕ → Option Number
after_whole negative r = if r.0.int_digits == 0 then none else read_frac negative r.0 r.1

read_number_by :
    (negative : Bool) (token rest : List ℕ) (w : Whole) (f : Frac)
    → whole_loop token whole_init ≡ (w, b'.' ∷ rest)
    → 0 < w.int_digits
    → frac_loop w.range_error rest frac_init ≡ (f, [])
    → 0 < f.frac_digits
    → read_number negative token ≡ some (record { negative = negative; whole = w; frac = f })
unfolding read_number read_frac
read_number_by negative token rest w f e pos g pos' =
    ap (after_whole negative) e
    ∙ rw (pos→ne w.int_digits pos)
        (ap (after_point negative w) g ∙ rw (pos→ne f.frac_digits pos') refl)

-- The sign is taken off.
read_signed-minus :
    (negative : Bool) (d : ℕ) (ds rest : List ℕ)
    → is_digit d ≡ true
    → read_signed (minus negative ++ ((d ∷ ds) ++ rest)) ≡ read_number negative ((d ∷ ds) ++ rest)
unfolding read_signed
read_signed-minus true d ds rest h = ground arith
read_signed-minus false d ds rest h = ground arith

-- The call, once the token's digits are known.
pub parse_decimal_by :
    (token : List ℕ) (n : Number)
    → read_signed token ≡ some n
    → parse_decimal token
      ≡ some (
        (if out_of_range n
            then 0
            else decimal_to_double n.negative n.whole.whole n.frac.frac n.frac.scale),
        out_of_range n,
      )
unfolding parse_decimal
parse_decimal_by token n e =
    ap
      (λ (o : Option Number). elim o as (λ _. Option (ℕ × Bool)) [
        | none ↦ none
        | some n ↦ some (
          (if out_of_range n
              then 0
              else decimal_to_double n.negative n.whole.whole n.frac.frac n.frac.scale),
          out_of_range n,
        )
      ])
      e

pub parse_decimal-none : (token : List ℕ) → read_signed token ≡ none → parse_decimal token ≡ none
unfolding parse_decimal
parse_decimal-none token e = rw (parse_decimal, e) refl

-- A decimal with a sign or none, the digits `d ∷ ds`, a point, and the digits `f ∷ fs`.
abbrev pub decimal_token : Bool → ℕ → List ℕ → ℕ → List ℕ → List ℕ
decimal_token negative d ds f fs = minus negative ++ ((d ∷ ds) ++ (b'.' ∷ f ∷ fs))

-- `w + f / p` is at most the limit.
within_whole : (w f p l : ℕ) → 0 < p → w * p + f ≤ l * p → w ≤ l
within_whole w f p l pos h = le_of_mul-le-mul_right {k = p} (omega arith) pos

within_test :
    (w f p l : ℕ)
    → 0 < p
    → w * p + f ≤ l * p
    → (ltb l w || ((w == l) && (not (f == 0) || false))) ≡ false
within_test w f p l pos h = elim (Bool-cases (w == l)) [
  | inl e ↦ ground (arith, (let z : f ≡ 0 = omega (arith, ap (λ t. t * p) (==→eq w l e)) in z))
  | inr e ↦ ground (arith, within_whole w f p l pos h)
]

whole_of : List ℕ → Whole
whole_of ds = record { whole = numeral ds; range_error = false; int_digits = length ds }

frac_of : List ℕ → Frac
frac_of fs = record {
  frac = numeral fs;
  scale = 10 ^ length fs;
  frac_digits = length fs;
  discarded_nonzero = false;
}

whole_reads :
    (ds rest : List ℕ)
    → AllDigits ds
    → Stops rest
    → numeral ds ≤ coord_limit_whole
    → length ds < u32_mod
    → whole_loop (ds ++ rest) whole_init ≡ (whole_of ds, rest)
unfolding whole_of
whole_reads ds rest h stop le short =
    whole_loop_in ds rest whole_init h stop refl le (omega arith)
    ∙ ap (λ k. (record { whole = numeral ds; range_error = false; int_digits = k }, rest))
        (zero-add (length ds))

frac_reads :
    (fs : List ℕ) → AllDigits fs → length fs ≤ 9 → frac_loop false fs frac_init ≡ (frac_of fs, [])
unfolding frac_of
frac_reads fs h le =
    frac_loop_in fs 0 0 h (omega arith) (omega arith)
    ∙ ap
        (λ k. (
          record { frac = numeral fs; scale = 10 ^ k; frac_digits = k; discarded_nonzero = false },
          [],
        ))
        (zero-add (length fs))

module _ (negative : Bool) (d : ℕ) (ds : List ℕ) (f : ℕ) (fs : List ℕ) (whole : AllDigits (d ∷ ds))
    (fraction : AllDigits (f ∷ fs)) (short : length ds + length fs < 4_000_000_000) where
  read_in :
      numeral (d ∷ ds) ≤ coord_limit_whole
      → length fs < 9
      → read_signed (decimal_token negative d ds f fs)
        ≡ some (record { negative = negative; whole = whole_of (d ∷ ds); frac = frac_of (f ∷ fs) })
  unfolding whole_of frac_of
  read_in le few =
      read_signed-minus negative d ds (b'.' ∷ f ∷ fs) whole.0
      ∙ read_number_by negative ((d ∷ ds) ++ (b'.' ∷ f ∷ fs)) (f ∷ fs) (whole_of (d ∷ ds))
          (frac_of (f ∷ fs)) (whole_reads (d ∷ ds) (b'.' ∷ f ∷ fs) whole refl le (omega arith))
          (omega arith) (frac_reads (f ∷ fs) fraction (omega arith)) (omega arith)

  in_range :
      numeral (d ∷ ds) * 10 ^ length (f ∷ fs) + numeral (f ∷ fs)
        ≤ coord_limit_whole * 10 ^ length (f ∷ fs)
      → out_of_range
          (record { negative = negative; whole = whole_of (d ∷ ds); frac = frac_of (f ∷ fs) })
        ≡ false
  unfolding whole_of frac_of out_of_range
  in_range le =
      within_test (numeral (d ∷ ds)) (numeral (f ∷ fs)) (10 ^ length (f ∷ fs)) coord_limit_whole
        (one-le-pow (length (f ∷ fs)) 10 (omega arith)) le

  -- A decimal of at most 30000000 in magnitude, with one to nine digits after the point, is read
  -- as the double that the code makes of its numerals.
  pub parse_decimal_reads :
      length fs < 9
      → numeral (d ∷ ds) * 10 ^ length (f ∷ fs) + numeral (f ∷ fs)
        ≤ coord_limit_whole * 10 ^ length (f ∷ fs)
      → parse_decimal (decimal_token negative d ds f fs)
        ≡ some (
          decimal_to_double negative (numeral (d ∷ ds)) (numeral (f ∷ fs)) (10 ^ length (f ∷ fs)),
          false,
        )
  unfolding whole_of frac_of
  parse_decimal_reads few le =
      parse_decimal_by _ _ (
        read_in
          (within_whole (numeral (d ∷ ds)) (numeral (f ∷ fs)) (10 ^ length (f ∷ fs))
            coord_limit_whole (one-le-pow (length (f ∷ fs)) 10 (omega arith)) le)
          few)
      ∙ rw (in_range le) refl

  -- A decimal with a point whose whole part is above 30000000 is out of range and reads as 0.
  pub parse_decimal_out :
      coord_limit_whole < numeral (d ∷ ds)
      → parse_decimal (decimal_token negative d ds f fs) ≡ some (0, true)
  unfolding out_of_range
  parse_decimal_out gt =
      let token = (d ∷ ds) ++ (b'.' ∷ f ∷ fs) in
      let r = whole_loop token whole_init in
      let past =
        whole_loop-IsOut (d ∷ ds) (b'.' ∷ f ∷ fs) whole_init whole refl refl (omega arith) gt
          (omega arith) in
      let c = frac_loop_counts r.0.range_error (f ∷ fs) frac_init fraction (omega arith) in
      let g = frac_loop r.0.range_error (f ∷ fs) frac_init in
      parse_decimal_by _ (record { negative = negative; whole = r.0; frac = g.0 })
        (read_signed-minus negative d ds (b'.' ∷ f ∷ fs) whole.0
          ∙ read_number_by negative token (f ∷ fs) r.0 g.0 (ap (λ l. (r.0, l)) past.stopped)
              (omega (arith, past.counted)) (ap (λ l. (g.0, l)) c.1) (omega (arith, c.0)))
      ∙ rw (out_of_range, past.error) refl
