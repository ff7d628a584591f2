-- ===== src/Commands/Fixed/Rounding.antt =====
-- core/src/mc_commands.c: rounding a shifted number to the nearest.
use native.Mathlib.Nat.{pow-succ', mod-lt, div-add-mod', add-mul, one-le-pow}
use starrysky_mc_server.Commands.Fixed.{round_shift_u64}
use starrysky_mc_server.Prelude.{
  ℕ, suc, ◌+◌, ◌-◌, ◌*◌, ◌/◌, ◌%◌, ◌^◌, ◌<◌, ◌≤◌, false, not, ◌&&◌, ◌||◌, ◌≡◌, ◌⊎◌, refl, ltb, ◌==◌,
  if◌then◌else◌, arith, Bool-cases, inl, inr, lt→leb,
}

-- The test for rounding up, on the remainder `r`, the half and the quotient `q`.
abbrev nearest : ℕ → ℕ → ℕ → ℕ
nearest q r half = if ltb half r || (r == half && not (q % 2 == 0)) then q + 1 else q

nearest_cases :
    (q r half : ℕ)
    → ((nearest q r half ≡ q) × (r ≤ half)) ⊎ ((nearest q r half ≡ q + 1) × (half ≤ r))
nearest_cases q r half = elim (Bool-cases (ltb half r || (r == half && not (q % 2 == 0)))) [
  | inl e ↦ inr (rw e refl, ground arith)
  | inr e ↦ inl (rw e refl, ground arith)
]

round_nearest :
    (v s : ℕ) → s < 63 → round_shift_u64 v (suc s) ≡ nearest (v / 2 ^ suc s) (v % 2 ^ suc s) (2 ^ s)
unfolding round_shift_u64
round_nearest v s h =
    rw
      (
        lt→leb 64 (suc s) (omega arith),
        (let e : (suc s == 0) ≡ false = ground arith in e),
        (let e : suc s - 1 ≡ s = omega arith in e),
      )
      refl

-- The rounded number is within half a step of the exact one.
pub round_close :
    (v s : ℕ)
    → s < 63
    → (round_shift_u64 v (suc s) * 2 ^ suc s ≤ v + 2 ^ s)
      × (v ≤ round_shift_u64 v (suc s) * 2 ^ suc s + 2 ^ s)
round_close v s h =
    rw (round_nearest v s h) (elim (nearest_cases (v / 2 ^ suc s) (v % 2 ^ suc s) (2 ^ s)) [
      | inl e ↦ rw e.0 (omega (arith, e.1, div-add-mod' v (2 ^ suc s), pow-succ' 2 s))
      | inr e ↦ rw e.0 (
          omega (
            arith,
            e.1,
            div-add-mod' v (2 ^ suc s),
            pow-succ' 2 s,
            add-mul (v / 2 ^ suc s) 1 (2 ^ suc s),
            mod-lt v (one-le-pow (suc s) 2 (omega arith)),
          ))
    ])

pub product_lt : (a b p : ℕ) → a * p < b * p + p → a ≤ b
product_lt a b p h = grind arith

-- A number less than half a step away is the one that rounding gives.
pub round_shift_u64-eq :
    (v s n : ℕ)
    → s < 63
    → n * 2 ^ suc s < v + 2 ^ s
    → v < n * 2 ^ suc s + 2 ^ s
    → round_shift_u64 v (suc s) ≡ n
round_shift_u64-eq v s n h above below =
    let close = round_close v s h in
    omega (
      arith,
      product_lt (round_shift_u64 v (suc s)) n (2 ^ suc s) (omega (arith, close.0, pow-succ' 2 s)),
      product_lt n (round_shift_u64 v (suc s)) (2 ^ suc s) (omega (arith, close.1, pow-succ' 2 s)),
    )
