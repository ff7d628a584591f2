-- ===== src/Commands/Decimal/Bits.antt =====
-- core/src/mc_commands.c: the double of a number in 2^-32 steps is finite, and normalised.
use native.Mathlib.Nat.{
  mul-le-mul_right, mul_assoc, add-zero, suc-add, add-suc, pow-le-pow_right, pow-succ',
  div-mul-le_self, lt-div-mul-add, one-le-pow,
}
use starrysky_mc_server.Commands.Decimal.{msb_loop, mantissa_of}
use starrysky_mc_server.Commands.Fixed.Rounding.{product_lt, round_close}
use starrysky_mc_server.Commands.Fixed.{round_shift_u64}
use starrysky_mc_server.Prelude.{
  ℕ, zero, suc, ◌+◌, ◌-◌, ◌*◌, ◌/◌, ◌^◌, ◌<◌, ◌≤◌, not, ◌≡◌, ◌⊎◌, ap, ◌∙◌, ltb, ◌==◌, if◌then◌else◌,
  arith, Bool-cases, inl, inr, two_pow-add, ltb→lt, ltb→le,
}

-- `2^msb ≤ q < 2^(msb + 1)`.
pub record IsTop (q msb : ℕ) : Type 0 where
  pub low : 2 ^ msb ≤ q
  pub high : q < 2 ^ suc msb

msb_loop_step :
    (fuel q msb : ℕ) → 1 < q / 2 ^ msb → msb_loop (suc fuel) q msb ≡ msb_loop fuel q (suc msb)
unfolding msb_loop
msb_loop_step fuel q msb h = ground arith

msb_loop_stop : (fuel q msb : ℕ) → q / 2 ^ msb ≤ 1 → msb_loop (suc fuel) q msb ≡ msb
unfolding msb_loop
msb_loop_stop fuel q msb h = ground arith

quotient_large : (q p : ℕ) → 1 < q / p → 2 * p ≤ q
quotient_large q p h = grind (arith, div-mul-le_self q p)

quotient_small : (q p : ℕ) → 0 < p → q / p ≤ 1 → q < 2 * p
quotient_small q p pos h = grind (arith, lt-div-mul-add {a = q} pos)

pub msb_loop-IsTop :
    (fuel q msb : ℕ) → 2 ^ msb ≤ q → q < 2 ^ (msb + fuel) → IsTop q (msb_loop fuel q msb)
msb_loop-IsTop zero q msb low high = absurd (omega (arith, ap (λ k. 2 ^ k) (add-zero msb)))
msb_loop-IsTop (suc fuel) q msb low high = elim (Bool-cases (ltb 1 (q / 2 ^ msb))) [
  | inl e ↦ rw (msb_loop_step fuel q msb (ltb→lt _ _ e)) (
      msb_loop-IsTop fuel q (suc msb)
        (omega (arith, pow-succ' 2 msb, quotient_large q (2 ^ msb) (ltb→lt _ _ e)))
        (rw (suc-add msb fuel, ← add-suc msb fuel) high))
  | inr e ↦ rw (msb_loop_stop fuel q msb (ltb→le _ _ e)) (record {
    low = low;
    high = omega (
      arith,
      pow-succ' 2 msb,
      quotient_small q (2 ^ msb) (one-le-pow msb 2 (omega arith)) (ltb→le _ _ e),
    );
  })
]

pub IsTop-lt : (k q msb : ℕ) → q < 2 ^ k → IsTop q msb → msb < k
IsTop-lt k q msb h top = elim (Bool-cases (ltb msb k)) [
  | inl e ↦ ltb→lt _ _ e
  | inr e ↦ absurd (omega (arith, top.low, pow-le-pow_right {n = 2} (omega arith) (ltb→le _ _ e)))
]

-- A mantissa of 53 bits, with a carry of at most one.
pub record IsMantissa (m : ℕ × ℕ) : Type 0 where
  pub above : 2 ^ 52 ≤ m.0
  pub below : m.0 < 2 ^ 53
  pub carry : m.1 ≤ 1

pub mantissa_exact : (q msb : ℕ) → msb ≤ 52 → mantissa_of q msb ≡ (q * 2 ^ (52 - msb), 0)
unfolding mantissa_of
mantissa_exact q msb h = ground arith

scale_low : (a b p : ℕ) → a ≤ b → a * p ≤ b * p
scale_low a b p h = mul-le-mul_right p h

scale_high : (a b p : ℕ) → 0 < p → a < b → a * p < b * p
scale_high a b p pos h = grind arith

pub exact-IsMantissa : (q msb : ℕ) → msb ≤ 52 → IsTop q msb → IsMantissa (q * 2 ^ (52 - msb), 0)
exact-IsMantissa q msb h top =
    let p = 2 ^ (52 - msb) in
    let whole : 2 ^ 52 ≡ 2 ^ msb * p =
      ap (λ k. 2 ^ k) (let e : 52 ≡ msb + (52 - msb) = omega arith in e)
      ∙ two_pow-add msb (52 - msb) in
    record {
      above = omega (arith, whole, scale_low (2 ^ msb) q p top.low);
      below = omega (
        arith,
        whole,
        pow-succ' 2 msb,
        mul_assoc 2 (2 ^ msb) p,
        scale_high q (2 ^ suc msb) p (one-le-pow (52 - msb) 2 (omega arith)) top.high,
        ap (λ t. t * p) (pow-succ' 2 msb),
      );
      carry = omega arith;
    }

-- The rounded mantissa of a number of more than 53 bits; it may be `2^53`.
module _ (q s : ℕ) (narrow : s < 63) (top : IsTop q (53 + s)) where
  unit : 2 ^ (53 + s) ≡ 2 ^ 52 * 2 ^ suc s
  unit = ap (λ k. 2 ^ k) (let e : 53 + s ≡ 52 + suc s = omega arith in e) ∙ two_pow-add 52 (suc s)

  pub rounded_low : 2 ^ 52 ≤ round_shift_u64 q (suc s)
  rounded_low = product_lt (2 ^ 52) (round_shift_u64 q (suc s)) (2 ^ suc s) (
      omega (
        arith,
        unit,
        top.low,
        (round_close q s narrow).1,
        pow-succ' 2 s,
        one-le-pow s 2 (omega arith),
      ))

  pub rounded_high : round_shift_u64 q (suc s) ≤ 2 ^ 53
  rounded_high = product_lt (round_shift_u64 q (suc s)) (2 ^ 53) (2 ^ suc s) (
      omega (
        arith,
        unit,
        top.high,
        pow-succ' 2 (53 + s),
        (round_close q s narrow).0,
        pow-succ' 2 s,
        one-le-pow s 2 (omega arith),
      ))

mantissa_rounded :
    (q msb : ℕ)
    → 53 ≤ msb
    → mantissa_of q msb ≡ (
        let r = round_shift_u64 q (msb - 52) in
        if not (r / 2 ^ 53 == 0) then (r / 2, 1) else (r, 0))
unfolding mantissa_of
mantissa_rounded q msb h = ground arith

-- Either the rounded number is the mantissa, or it was `2^53`.
pub rounded_cases :
    (q s : ℕ)
    → s < 10
    → IsTop q (53 + s)
    → let r = round_shift_u64 q (suc s) in
      ((mantissa_of q (53 + s) ≡ (r, 0)) × (2 ^ 52 ≤ r) × (r < 2 ^ 53))
      ⊎ ((mantissa_of q (53 + s) ≡ (2 ^ 52, 1)) × (r ≡ 2 ^ 53))
rounded_cases q s h top =
    let r = round_shift_u64 q (suc s) in
    let low = rounded_low q s (omega arith) top in
    let high = rounded_high q s (omega arith) top in
    let m : mantissa_of q (53 + s) ≡ (if not (r / 2 ^ 53 == 0) then (r / 2, 1) else (r, 0)) =
      mantissa_rounded q (53 + s) (omega arith)
      ∙ ap
          (λ k. let t = round_shift_u64 q k in if not (t / 2 ^ 53 == 0) then (t / 2, 1) else (t, 0))
          (let e : 53 + s - 52 ≡ suc s = omega arith in e) in
    elim (Bool-cases (ltb r (2 ^ 53))) [
      | inl e ↦ inl (m ∙ ground arith, low, ltb→lt _ _ e)
      | inr e ↦ inr (m ∙ ground arith, omega (arith, ltb→le _ _ e))
    ]
