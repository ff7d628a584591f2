-- ===== src/Led/Blinking.antt =====
-- firmware/mc_activity_led.c: the lamp shows the parity of the half periods that have passed, however
-- irregular the ticks are.
use starrysky_mc_server.Prelude.{
  ℕ, ◌+◌, ◌-◌, ◌*◌, ◌/◌, ◌%◌, ◌≤◌, ◌<◌, ◌≡◌, refl, ap, sym, ◌∙◌, arith, Bool, true, false, not, leb,
  ◌==◌, if◌then◌else◌, bit_and, bit_and-mask, le→leb, lt→ltb, leb→le, leb→lt, ap₂, u32_mod,
  Bool-cases, inl, inr,
}
use native.Mathlib.Nat.{add-mul, add-mul-div_right, div-eq_of_lt, div-mul-le_self}
use starrysky_mc_server.Led.{Led, class_half_period, same_level, set_led, sub_ticks, advance}

-- Whether a number of half periods is even, in which case the lamp is lit.
abbrev pub is_even : ℕ → Bool
is_even n = n % 2 == 0

-- A blink that began at the time `start`, counted without wrapping round, with `count` half periods
-- done; the lamp has the level that the code believes it has.
pub record IsBlinking (half start count : ℕ) (led : Led) : Type 0 where
  pub period : class_half_period led.traffic ≡ half
  pub phase : led.phase_start_ticks ≡ (start + count * half) % u32_mod
  pub lit : led.on ≡ is_even count
  pub level_is : led.level ≡ led.on

pub set_led-on : (on : Bool) (led : Led) → (set_led on led).on ≡ on
unfolding set_led same_level
set_led-on true led = ground arith
set_led-on false led = ground arith

pub set_led-level : (on : Bool) (led : Led) → led.level ≡ led.on → (set_led on led).level ≡ on
unfolding set_led same_level
set_led-level true led e = ground arith
set_led-level false led e = ground arith

pub set_led-phase :
    (on : Bool) (led : Led) → (set_led on led).phase_start_ticks ≡ led.phase_start_ticks
unfolding set_led
set_led-phase on led = ground arith

pub set_led-traffic : (on : Bool) (led : Led) → (set_led on led).traffic ≡ led.traffic
unfolding set_led
set_led-traffic on led = elim (Bool-cases (same_level led.on on)) [
  | inl e ↦ rw e refl
  | inr e ↦ rw e refl
]

advance_waits :
    (now : ℕ) (led : Led)
    → leb (class_half_period led.traffic) (sub_ticks now led.phase_start_ticks) ≡ false
    → advance now led ≡ led
unfolding advance
advance_waits now led h = ground arith

advance_moves :
    (now half elapsed : ℕ) (led : Led)
    → class_half_period led.traffic ≡ half
    → sub_ticks now led.phase_start_ticks ≡ elapsed
    → 0 < half
    → half ≤ elapsed
    → let hp = elapsed / half in
      let led' = record led {
        phase_start_ticks = (led.phase_start_ticks + hp * half % u32_mod) % u32_mod;
      } in
      advance now led ≡ (if is_even hp then led' else set_led (not led.on) led')
unfolding advance
advance_moves now half elapsed led e f h k =
    let parity : bit_and (elapsed / half) 1 ≡ (elapsed / half) % 2 =
      bit_and-mask 1 (elapsed / half) in
    rw (e, f, parity, le→leb half elapsed k, lt→ltb 0 half h) (ground arith)

pub elapsed_lem :
    (p n : ℕ) → p ≤ n → n - p < u32_mod → sub_ticks (n % u32_mod) (p % u32_mod) ≡ n - p
elapsed_lem p n h k = omega arith

is_even-not : (a b : ℕ) → is_even b ≡ false → not (is_even a) ≡ is_even (a + b)
is_even-not a b h = ground arith

is_even-same : (a b : ℕ) → is_even b ≡ true → is_even a ≡ is_even (a + b)
is_even-same a b h = ground arith

flip_or_keep :
    (half start count hp : ℕ) (led : Led) (phase : ℕ)
    → IsBlinking half start count led
    → phase ≡ (start + (count + hp) * half) % u32_mod
    → let led' = record led { phase_start_ticks = phase } in
      IsBlinking half start (count + hp) (if is_even hp then led' else set_led (not led.on) led')
flip_or_keep half start count hp led phase b e =
    let led' = record led { phase_start_ticks = phase } in
    elim (Bool-cases (is_even hp)) [
      | inl k ↦ rw k (record {
        period = b.period;
        phase = e;
        lit = b.lit ∙ is_even-same count hp k;
        level_is = b.level_is;
      })
      | inr k ↦ rw k (record {
        period = ap class_half_period (set_led-traffic (not led.on) led') ∙ b.period;
        phase = set_led-phase (not led.on) led' ∙ e;
        lit = set_led-on (not led.on) led' ∙ ap not b.lit ∙ is_even-not count hp k;
        level_is = set_led-level (not led.on) led' b.level_is ∙ sym (set_led-on (not led.on) led');
      })
    ]

-- A blink of which `count` half periods were done is looked at again at the time `n`, less than 2^32
-- ticks after the last of these: then all the half periods that have passed are done, the lamp is lit
-- just where their number is even, and the phase has not drifted.
pub advance-IsBlinking :
    (half start count n : ℕ) (led : Led)
    → IsBlinking half start count led
    → 0 < half
    → start + count * half ≤ n
    → n - (start + count * half) < u32_mod
    → IsBlinking half start ((n - start) / half) (advance (n % u32_mod) led)
advance-IsBlinking half start count n led b h from soon =
    let p = start + count * half in
    let elapsed = n - p in
    let hp = elapsed / half in
    let e : sub_ticks (n % u32_mod) led.phase_start_ticks ≡ elapsed =
      ap (sub_ticks (n % u32_mod)) b.phase ∙ elapsed_lem p n from soon in
    let split : n - start ≡ elapsed + count * half = omega arith in
    let total : (n - start) / half ≡ count + hp =
      ap (λ k. k / half) split ∙ add-mul-div_right elapsed count h ∙ omega arith in
    elim (Bool-cases (leb half elapsed)) [
      | inr early ↦
          let none_passed : hp ≡ 0 = div-eq_of_lt (leb→lt half elapsed early) in
          let same : (n - start) / half ≡ count = total ∙ omega arith in
          let test : leb (class_half_period led.traffic)
                (sub_ticks (n % u32_mod) led.phase_start_ticks)
              ≡ false =
            ap₂ leb b.period e ∙ early in
          rw (same, advance_waits (n % u32_mod) led test) b
      | inl late ↦
          let fits = div-mul-le_self elapsed half in
          let sum : count * half + hp * half ≡ (count + hp) * half = sym (add-mul count hp half) in
          rw
            (
              total,
              advance_moves (n % u32_mod) half elapsed led b.period e h (leb→le half elapsed late),
            )
            (flip_or_keep half start count hp led _ b (omega (arith, b.phase, sum, fits)))
    ]
