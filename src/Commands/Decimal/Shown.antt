-- ===== src/Commands/Decimal/Shown.antt =====
-- core/src/mc_commands.c: the hundredths that a double made from a decimal shows.
use native.Mathlib.Nat.{pow-le-pow_right, pow-succ', one-le-pow}
use starrysky_mc_server.Commands.Decimal.Bits.{
  IsTop, IsTop-lt, msb_loop-IsTop, mantissa_exact, exact-IsMantissa, rounded_cases,
}
use starrysky_mc_server.Commands.Decimal.{msb_loop, mantissa_of, double_of_q32}
use starrysky_mc_server.Commands.Fixed.Rounding.{round_close, round_shift_u64-eq}
use starrysky_mc_server.Commands.Fixed.{
  round_shift_u64, double_sign_bit, frac_of_double, fixed2_of, scaled_of, finish_fixed2,
  binary_to_fixed2, double_to_fixed2, fixed2_max_scaled,
}
use starrysky_mc_server.Prelude.{
  ℕ, zero, suc, ◌+◌, ◌-◌, ◌*◌, ◌/◌, ◌%◌, ◌^◌, ◌<◌, ◌≤◌, Bool, true, false, not, ◌&&◌, some, ◌≡◌,
  refl, ◌∙◌, sym, leb, ltb, ◌==◌, if◌then◌else◌, arith, Bool-cases, inl, inr, two_pow-add, lt→leb,
  le→leb, le→ltb, pos→ne,
}

abbrev sign : Bool → ℕ
sign negative = if negative then double_sign_bit else 0

fields_read :
    (bits : ℕ) (negative : Bool) (e m : ℕ)
    → bits / 2 ^ 52 % 2048 ≡ e
    → leb double_sign_bit bits ≡ negative
    → 2 ^ 52 + frac_of_double bits ≡ m
    → 0 < e
    → e < 2047
    → double_to_fixed2 bits ≡ binary_to_fixed2 negative e 1023 m 52
unfolding double_to_fixed2
fields_read bits negative e m exponent signed mantissa pos small =
    rw (exponent, signed, mantissa, (let t : (e == 2047) ≡ false = ground arith in t), pos→ne e pos)
      refl

-- The fields of a double are read back.
double_fields :
    (negative : Bool) (e m : ℕ)
    → 0 < e
    → e < 2047
    → 2 ^ 52 ≤ m
    → m < 2 ^ 53
    → double_to_fixed2 (sign negative + e * 2 ^ 52 + frac_of_double m)
      ≡ binary_to_fixed2 negative e 1023 m 52
unfolding frac_of_double
double_fields true e m pos small low high =
    fields_read _ true e m (omega arith) (ground arith) (omega arith) pos small
double_fields false e m pos small low high =
    fields_read _ false e m (omega arith) (ground arith) (omega arith) pos small

scaled_of_shift :
    (e m n : ℕ)
    → e < 1075
    → m < 2 ^ 53
    → round_shift_u64 (100 * m) (1075 - e) ≡ n
    → scaled_of e 1023 m 52 ≡ some n
unfolding scaled_of
scaled_of_shift e m n he hm r =
    rw
      (
        le→ltb (18446744073709551615 / 100) m (omega arith),
        lt→leb (1023 + 52) e (omega arith),
        (let t : m * 2 ^ 6 + m * 2 ^ 5 + m * 2 ^ 2 ≡ 100 * m = omega arith in t),
        r,
      )
      refl

fixed2_value :
    (negative : Bool) (e m n : ℕ)
    → e < 1075
    → m < 2 ^ 53
    → n ≤ fixed2_max_scaled
    → round_shift_u64 (100 * m) (1075 - e) ≡ n
    → binary_to_fixed2 negative e 1023 m 52
      ≡ some (record { negative = negative && not (n == 0); scaled = n })
unfolding binary_to_fixed2 finish_fixed2 fixed2_of
fixed2_value negative e m n he hm hn r =
    rw (scaled_of_shift e m n he hm r, le→ltb fixed2_max_scaled n hn) refl

double_of_q32_eq :
    (negative : Bool) (q msb m carry : ℕ)
    → 0 < q
    → msb_loop 64 q 0 ≡ msb
    → mantissa_of q msb ≡ (m, carry)
    → double_of_q32 negative q ≡ sign negative + (msb + carry + 991) * 2 ^ 52 + frac_of_double m
unfolding double_of_q32
double_of_q32_eq negative q msb m carry pos top mantissa = rw (pos→ne q pos, top, mantissa) refl

round_shift_u64_far : (v s : ℕ) → 64 ≤ s → round_shift_u64 v s ≡ 0
unfolding round_shift_u64
round_shift_u64_far v s h = rw (pos→ne s (omega arith), le→leb 64 s h) refl

-- `q` is within `2^-4` hundredths of `n` hundredths.
pub record IsNear (q n : ℕ) : Type 0 where
  pub above : n * 2 ^ 32 < 100 * q + 2 ^ 28
  pub below : 100 * q < n * 2 ^ 32 + 2 ^ 28
  pub small : n ≤ fixed2_max_scaled

scale_lt : (a b p : ℕ) → 0 < p → a < b → a * p < b * p
scale_lt a b p pos h = grind arith

scaled_above :
    (q n p : ℕ) → IsNear q n → 0 < p → suc (n * (2 * (2 ^ 31 * p))) ≤ 100 * (q * p) + 2 ^ 31 * p
scaled_above q n p near pos =
    omega (arith, scale_lt (n * 2 ^ 32) (100 * q + 2 ^ 28) p pos near.above)

scaled_below :
    (q n p : ℕ) → IsNear q n → 0 < p → suc (100 * (q * p)) ≤ n * (2 * (2 ^ 31 * p)) + 2 ^ 31 * p
scaled_below q n p near pos =
    omega (arith, scale_lt (100 * q) (n * 2 ^ 32 + 2 ^ 28) p pos near.below)

-- Rounding twice, first to 53 bits.
rounded_value :
    (s q n : ℕ)
    → s < 4
    → IsNear q n
    → round_shift_u64 (100 * round_shift_u64 q (suc s)) (84 - (53 + s) - 0) ≡ n
rounded_value zero q n h near =
    let c = round_close q 0 (omega arith) in
    round_shift_u64-eq _ 30 n (omega arith) (omega arith) (omega arith)
rounded_value (suc zero) q n h near =
    let c = round_close q 1 (omega arith) in
    round_shift_u64-eq _ 29 n (omega arith) (omega arith) (omega arith)
rounded_value (suc (suc zero)) q n h near =
    let c = round_close q 2 (omega arith) in
    round_shift_u64-eq _ 28 n (omega arith) (omega arith) (omega arith)
rounded_value (suc (suc (suc zero))) q n h near =
    let c = round_close q 3 (omega arith) in
    round_shift_u64-eq _ 27 n (omega arith) (omega arith) (omega arith)
rounded_value (suc (suc (suc (suc s)))) q n h near = absurd (omega arith)

carried_value :
    (s q n : ℕ)
    → s < 4
    → IsNear q n
    → round_shift_u64 q (suc s) ≡ 2 ^ 53
    → round_shift_u64 (100 * 2 ^ 52) (84 - (53 + s) - 1) ≡ n
carried_value zero q n h near e =
    let c = round_close q 0 (omega arith) in
    round_shift_u64-eq _ 29 n (omega arith) (omega arith) (omega arith)
carried_value (suc zero) q n h near e =
    let c = round_close q 1 (omega arith) in
    round_shift_u64-eq _ 28 n (omega arith) (omega arith) (omega arith)
carried_value (suc (suc zero)) q n h near e =
    let c = round_close q 2 (omega arith) in
    round_shift_u64-eq _ 27 n (omega arith) (omega arith) (omega arith)
carried_value (suc (suc (suc zero))) q n h near e =
    let c = round_close q 3 (omega arith) in
    round_shift_u64-eq _ 26 n (omega arith) (omega arith) (omega arith)
carried_value (suc (suc (suc (suc s)))) q n h near e = absurd (omega arith)

module _ (negative : Bool) (q n : ℕ) (near : IsNear q n) (pos : 0 < q) (short : q < 2 ^ 57) where
  -- With the mantissa and its carry known, rounding gives `n`.
  shown_by :
      (msb m carry : ℕ)
      → msb < 57
      → carry ≤ 1
      → msb_loop 64 q 0 ≡ msb
      → mantissa_of q msb ≡ (m, carry)
      → 2 ^ 52 ≤ m
      → m < 2 ^ 53
      → round_shift_u64 (100 * m) (84 - msb - carry) ≡ n
      → double_to_fixed2 (double_of_q32 negative q)
        ≡ some (record { negative = negative && not (n == 0); scaled = n })
  shown_by msb m carry hmsb hcarry top mantissa low high r =
      rw
        (
          double_of_q32_eq negative q msb m carry pos top mantissa,
          double_fields negative (msb + carry + 991) m (omega arith) (omega arith) low high,
        )
        (fixed2_value negative (msb + carry + 991) m n (omega arith) high near.small
          (rw (let e : 1075 - (msb + carry + 991) ≡ 84 - msb - carry = omega arith in e) r))

  -- Too small a number shows as zero.
  shown_tiny :
      (msb : ℕ)
      → msb ≤ 20
      → msb_loop 64 q 0 ≡ msb
      → IsTop q msb
      → double_to_fixed2 (double_of_q32 negative q)
        ≡ some (record { negative = negative && not (n == 0); scaled = n })
  shown_tiny msb h top t =
      let m = exact-IsMantissa q msb (omega arith) t in
      let none_left : n ≡ 0 = omega (
        arith,
        near.above,
        t.high,
        pow-le-pow_right {n = 2} (omega arith) {i = suc msb} {j = 21} (omega arith),
      ) in
      shown_by msb (q * 2 ^ (52 - msb)) 0 (omega arith) (omega arith) top
        (mantissa_exact q msb (omega arith)) m.above m.below
        (round_shift_u64_far _ (84 - msb - 0) (omega arith) ∙ sym none_left)

  shown_exact :
      (msb : ℕ)
      → 20 < msb
      → msb ≤ 52
      → msb_loop 64 q 0 ≡ msb
      → IsTop q msb
      → double_to_fixed2 (double_of_q32 negative q)
        ≡ some (record { negative = negative && not (n == 0); scaled = n })
  shown_exact msb above h top t =
      let m = exact-IsMantissa q msb h t in
      let k : ℕ = 52 - msb in
      let p = 2 ^ k in
      let one_le = one-le-pow k 2 (omega arith) in
      let half : 2 ^ (31 + k) ≡ 2 ^ 31 * p = two_pow-add 31 k in
      shown_by msb (q * p) 0 (omega arith) (omega arith) top (mantissa_exact q msb h) m.above
        m.below
        (rw (let e : 84 - msb - 0 ≡ suc (31 + k) = omega arith in e) (
          round_shift_u64-eq (100 * (q * p)) (31 + k) n (omega arith)
            (rw (pow-succ' 2 (31 + k), half) (scaled_above q n p near one_le))
            (rw (pow-succ' 2 (31 + k), half) (scaled_below q n p near one_le))))

  module _ (s : ℕ) (narrow : s < 4) (top : msb_loop 64 q 0 ≡ 53 + s) (t : IsTop q (53 + s)) where
    shown_rounded :
        double_to_fixed2 (double_of_q32 negative q)
        ≡ some (record { negative = negative && not (n == 0); scaled = n })
    shown_rounded = elim (rounded_cases q s (omega arith) t) [
      | inl e ↦
          shown_by (53 + s) (round_shift_u64 q (suc s)) 0 (omega arith) (omega arith) top e.0 e.1
            e.2 (rounded_value s q n narrow near)
      | inr e ↦
          shown_by (53 + s) (2 ^ 52) 1 (omega arith) (omega arith) top e.0 (omega arith)
            (omega arith) (carried_value s q n narrow near e.1)
    ]

  pub double_of_q32_shown :
      double_to_fixed2 (double_of_q32 negative q)
      ≡ some (record { negative = negative && not (n == 0); scaled = n })
  double_of_q32_shown =
      let msb = msb_loop 64 q 0 in
      let t = msb_loop-IsTop 64 q 0 (omega arith) (omega arith) in
      let bound = IsTop-lt 57 q msb short t in
      elim (Bool-cases (ltb msb 21)) [
        | inl tiny ↦ shown_tiny msb (ground arith) refl t
        | inr wide ↦ elim (Bool-cases (ltb msb 53)) [
          | inl exact ↦ shown_exact msb (ground arith) (ground arith) refl t
          | inr rounded ↦
              let e : msb ≡ 53 + (msb - 53) = ground arith in
              shown_rounded (msb - 53) (ground arith) e (rw e at t)
        ]
      ]
