-- ===== src/Led/Showing.antt =====
-- firmware/mc_activity_led.c: the state of the code for a lamp that is dark or blinks.
use starrysky_mc_server.Prelude.{
  ℕ, ◌==◌, if◌then◌else◌, ◌+◌, ◌-◌, ◌*◌, ◌/◌, ◌%◌, ◌≤◌, ◌<◌, ◌≡◌, ◌⊎◌, refl, ap, sym, ◌∙◌, arith,
  true, false, leb, u32_mod, Bool-cases, inl, inr,
}
use mathlib.Core.Bool.{true≢false}
use mathlib.Core.Path.{subst}
use native.Mathlib.Nat.{div-eq_of_lt, div-mul-le_self, lt-div-mul-add}
use starrysky_mc_server.Led.{
  Led, Traffic, idle, low, medium, high, sample_ticks, classify_bytes, class_half_period,
  same_class, sub_ticks, advance, apply_class, tick,
}
use starrysky_mc_server.Led.Blinking.{
  IsBlinking, set_led-on, set_led-level, set_led-phase, set_led-traffic, advance-IsBlinking,
}

-- The state of the code for a lamp that is dark, and for one that blinks.
pub record IsDark (led : Led) : Type 0 where
  pub no_traffic : led.traffic ≡ idle
  pub off : led.on ≡ false
  pub level_off : led.level ≡ false

pub record IsLively (now half began : ℕ) (led : Led) : Type 0 where
  pub blinking : IsBlinking half began ((now - began) / half) led
  pub positive : 0 < half
  pub bounded : half ≤ 36000000
  pub begun : began ≤ now

abbrev pub Shows : ℕ → ℕ → ℕ → Led → Type 0
Shows now half began led = ((half ≡ 0) × IsDark led) ⊎ IsLively now half began led

level-Shows : (now half began : ℕ) (led : Led) → Shows now half began led → led.level ≡ led.on
level-Shows now half began led (inl (z, d)) = d.level_off ∙ sym d.off
level-Shows now half began led (inr l) = l.blinking.level_is

pub half-Shows :
    (now half began : ℕ) (led : Led)
    → Shows now half began led
    → class_half_period led.traffic ≡ half
half-Shows now half began led (inl (z, d)) =
    ap class_half_period d.no_traffic ∙ (unfold class_half_period in sym z)
half-Shows now half began led (inr l) = l.blinking.period

same_class-eq : (a b : Traffic) → same_class a b ≡ true → a ≡ b
unfolding same_class
same_class-eq idle idle h = refl
same_class-eq low low h = refl
same_class-eq medium medium h = refl
same_class-eq high high h = refl
same_class-eq idle low h = cc
same_class-eq idle medium h = cc
same_class-eq idle high h = cc
same_class-eq low idle h = cc
same_class-eq low medium h = cc
same_class-eq low high h = cc
same_class-eq medium idle h = cc
same_class-eq medium low h = cc
same_class-eq medium high h = cc
same_class-eq high idle h = cc
same_class-eq high low h = cc
same_class-eq high medium h = cc

-- Two classes are the same where their half periods are.
same_class_half : (a b : Traffic) → same_class a b ≡ (class_half_period a == class_half_period b)
unfolding same_class class_half_period
same_class_half idle idle = refl
same_class_half idle low = refl
same_class_half idle medium = refl
same_class_half idle high = refl
same_class_half low idle = refl
same_class_half low low = refl
same_class_half low medium = refl
same_class_half low high = refl
same_class_half medium idle = refl
same_class_half medium low = refl
same_class_half medium medium = refl
same_class_half medium high = refl
same_class_half high idle = refl
same_class_half high low = refl
same_class_half high medium = refl
same_class_half high high = refl

half_period-bounds :
    (c : Traffic)
    → same_class c idle ≡ false
    → (0 < class_half_period c) × (class_half_period c ≤ 36000000)
unfolding same_class class_half_period
half_period-bounds idle h = absurd cc
half_period-bounds low h = (omega arith, omega arith)
half_period-bounds medium h = (omega arith, omega arith)
half_period-bounds high h = (omega arith, omega arith)

becomes-IsDark :
    (c : Traffic) (now : ℕ) (led : Led)
    → same_class c idle ≡ true
    → led.level ≡ led.on
    → IsDark (apply_class c now led)
unfolding apply_class
becomes-IsDark c now led h e =
    let led' = record led { traffic = c } in
    rw h (record {
      no_traffic = set_led-traffic false led' ∙ same_class-eq c idle h;
      off = set_led-on false led';
      level_off = set_led-level false led' e;
    })

starts_blinking :
    (c : Traffic) (now : ℕ) (led : Led)
    → same_class c idle ≡ false
    → same_class c led.traffic ≡ false
    → led.level ≡ led.on
    → IsLively now (class_half_period c) now (apply_class c (now % u32_mod) led)
unfolding apply_class
starts_blinking c now led h k e =
    let led' = record led { traffic = c; phase_start_ticks = now % u32_mod } in
    let (positive, bounded) = half_period-bounds c h in
    let none_yet : (now - now) / class_half_period c ≡ 0 = div-eq_of_lt (omega (arith, positive)) in
    let blinking : IsBlinking (class_half_period c) now 0 (apply_class c (now % u32_mod) led) =
      rw (h, k)
        (record {
          period = ap class_half_period (set_led-traffic true led');
          phase = set_led-phase true led' ∙ omega arith;
          lit = set_led-on true led' ∙ refl;
          level_is = set_led-level true led' e ∙ sym (set_led-on true led');
        }) in
    record {
      blinking =
          subst (λ q. IsBlinking (class_half_period c) now q (apply_class c (now % u32_mod) led))
            (sym none_yet) blinking;
      positive = positive;
      bounded = bounded;
      begun = omega arith;
    }

apply_class_goes_on :
    (c : Traffic) (now : ℕ) (led : Led)
    → same_class c idle ≡ false
    → same_class c led.traffic ≡ true
    → apply_class c now led ≡ advance now led
unfolding apply_class
apply_class_goes_on c now led h k = ground arith

goes_on_blinking :
    (c : Traffic) (now later half began : ℕ) (led : Led)
    → same_class c idle ≡ false
    → same_class c led.traffic ≡ true
    → now ≤ later
    → later - now ≤ 2147483648
    → IsLively now half began led
    → IsLively later half began (apply_class c (later % u32_mod) led)
goes_on_blinking c now later half began led h k order soon l =
    let low_end = div-mul-le_self (now - began) half in
    let high_end : now - began < (now - began) / half * half + half = lt-div-mul-add l.positive in
    rw (apply_class_goes_on c (later % u32_mod) led h k) (record {
      blinking =
          advance-IsBlinking half began ((now - began) / half) later led l.blinking l.positive
            (omega (arith, l.begun, low_end)) (omega (arith, l.begun, high_end, l.bounded));
      positive = l.positive;
      bounded = l.bounded;
      begun = omega (arith, l.begun);
    })

pub apply_class-Shows :
    (c : Traffic) (now later half began : ℕ) (led : Led)
    → now ≤ later
    → later - now ≤ 2147483648
    → Shows now half began led
    → Shows later
        (class_half_period c)
        (if class_half_period c == half then began else later)
        (apply_class c (later % u32_mod) led)
apply_class-Shows c now later half began led order soon shown =
    let e = level-Shows now half began led shown in
    let period = half-Shows now half began led shown in
    let test : same_class c led.traffic ≡ (class_half_period c == half) =
      same_class_half c led.traffic ∙ ap (λ k. class_half_period c == k) period in
    elim (Bool-cases (same_class c idle)) [
      | inl quiet ↦ inl (
        ap class_half_period (same_class-eq c idle quiet) ∙ (unfold class_half_period in refl),
        becomes-IsDark c (later % u32_mod) led quiet e,
      )
      | inr busy ↦ elim (Bool-cases (same_class c led.traffic)) [
        | inr other ↦ rw (sym test ∙ other) (inr (starts_blinking c later led busy other e))
        | inl same ↦ elim shown [
          | inl (z, d) ↦ absurd (true≢false (sym same ∙ ap (same_class c) d.no_traffic ∙ busy))
          | inr l ↦
              let half_is : half ≡ class_half_period c =
                sym period ∙ ap class_half_period (sym (same_class-eq c led.traffic same)) in
              rw (sym test ∙ same) (
                inr (
                  subst (λ k. IsLively later k began (apply_class c (later % u32_mod) led)) half_is
                    (goes_on_blinking c now later half began led busy same order soon l)))
        ]
      ]
    ]

pub tick_samples :
    (now : ℕ) (led : Led)
    → leb sample_ticks (sub_ticks now led.sample_start_ticks) ≡ true
    → tick now led
      ≡ record (apply_class
          (classify_bytes led.window_bytes)
          now
          (record led { sample_start_ticks = now })) { window_bytes = 0 }
unfolding tick
tick_samples now led h = rw h refl

pub tick_goes_on :
    (now : ℕ) (led : Led)
    → leb sample_ticks (sub_ticks now led.sample_start_ticks) ≡ false
    → tick now led ≡ apply_class led.traffic now led
unfolding tick
tick_goes_on now led h = rw h refl

-- The fields that a sample changes are of no account for the lamp.
pub Shows-alike :
    (now half began : ℕ) (a b : Led)
    → b.traffic ≡ a.traffic
    → b.phase_start_ticks ≡ a.phase_start_ticks
    → b.on ≡ a.on
    → b.level ≡ a.level
    → Shows now half began a
    → Shows now half began b
Shows-alike now half began a b t p o l (inl (z, d)) =
    inl (z, record { no_traffic = t ∙ d.no_traffic; off = o ∙ d.off; level_off = l ∙ d.level_off })
Shows-alike now half began a b t p o l (inr v) = inr (record {
  blinking = record {
    period = ap class_half_period t ∙ v.blinking.period;
    phase = p ∙ v.blinking.phase;
    lit = o ∙ v.blinking.lit;
    level_is = l ∙ v.blinking.level_is ∙ sym o;
  };
  positive = v.positive;
  bounded = v.bounded;
  begun = v.begun;
})
