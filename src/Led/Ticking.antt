-- ===== src/Led/Ticking.antt =====
-- firmware/mc_activity_led.c: the lamp over a run of ticks.
pub mod Runs
use starrysky_mc_server.Prelude.{
  ℕ, Bool, ◌==◌, ==-refl, pos→ne, leb→lt, ltb, not, ◌&&◌, bit_and, if◌then◌else◌, ◌+◌, ◌-◌, ◌*◌,
  ◌/◌, ◌%◌, ◌≤◌, ◌<◌, ◌≡◌, refl, ap, ◌∙◌, arith, true, false, leb, u32_mod, Bool-cases, inl, inr,
}
use mathlib.Core.Path.{subst}
use starrysky_mc_server.Led.{
  set_led, same_level, Led, Traffic, idle, classify_bytes, class_half_period, same_class, sub_ticks,
  advance, apply_class, tick,
}
use starrysky_mc_server.Led.Blinking.{elapsed_lem}
use starrysky_mc_server.Led.Lamp.{Lamp, half_of, began_at, lamp_tick, lit}
use starrysky_mc_server.Led.Showing.{
  Shows, half-Shows, apply_class-Shows, tick_samples, tick_goes_on, Shows-alike,
}

-- The state of the code stands for the lamp at the time `now`.
pub record StandsFor (now : ℕ) (l : Lamp) (led : Led) : Type 0 where
  pub window : led.window_bytes ≡ l.window
  pub sample : led.sample_start_ticks ≡ l.sampled % u32_mod
  pub sampled_in : l.sampled ≤ now
  pub recent : now - l.sampled < 7200000
  pub shown : Shows now l.half l.began led

classify_half : (bytes : ℕ) → class_half_period (classify_bytes bytes) ≡ half_of bytes
unfolding classify_bytes class_half_period
classify_half bytes = ground arith

-- The lamp is not concerned with the window and its sample.
abbrev Keeps : Led → Led → Type 0
Keeps led t = (t.window_bytes ≡ led.window_bytes) × (t.sample_start_ticks ≡ led.sample_start_ticks)

if-Keeps : (b : Bool) (led x y : Led) → Keeps led x → Keeps led y → Keeps led (if b then x else y)
if-Keeps true led x y h k = h
if-Keeps false led x y h k = k

set_led-Keeps : (on : Bool) (led : Led) → Keeps led (set_led on led)
unfolding set_led
set_led-Keeps on led =
    if-Keeps (same_level led.on on) led led (record led { on = on; level = on }) (refl, refl)
      (refl, refl)

advance-Keeps : (now : ℕ) (led : Led) → Keeps led (advance now led)
unfolding advance
advance-Keeps now led =
    let half_period = class_half_period led.traffic in
    let elapsed_ticks = sub_ticks now led.phase_start_ticks in
    let half_periods = elapsed_ticks / half_period in
    let phase = (led.phase_start_ticks + half_periods * half_period % u32_mod) % u32_mod in
    let led' = record led { phase_start_ticks = phase } in
    if-Keeps (ltb 0 half_period && leb half_period elapsed_ticks) led
      (if not (bit_and half_periods 1 == 0) then set_led (not led'.on) led' else led') led
      (if-Keeps (not (bit_and half_periods 1 == 0)) led (set_led (not led'.on) led') led'
        (set_led-Keeps (not led'.on) led') (refl, refl))
      (refl, refl)

apply_class-Keeps : (c : Traffic) (now : ℕ) (led : Led) → Keeps led (apply_class c now led)
unfolding apply_class
apply_class-Keeps c now led =
    let dark = record led { traffic = c } in
    let fresh = record led { traffic = c; phase_start_ticks = now } in
    if-Keeps (same_class c idle) led (set_led false dark)
      (if not (same_class c led.traffic) then set_led true fresh else advance now led)
      (set_led-Keeps false dark)
      (if-Keeps (not (same_class c led.traffic)) led (set_led true fresh) (advance now led)
        (set_led-Keeps true fresh) (advance-Keeps now led))

-- Between two samples the blink goes on.
goes_on-Shows :
    (now later half began : ℕ) (led : Led)
    → now ≤ later
    → later - now ≤ 2147483648
    → Shows now half began led
    → Shows later half began (apply_class led.traffic (later % u32_mod) led)
goes_on-Shows now later half began led order soon shown =
    let led' = apply_class led.traffic (later % u32_mod) led in
    subst (λ b. Shows later half (if b then began else later) led') (==-refl half)
      (subst (λ k. Shows later k (if k == half then began else later) led')
        (half-Shows now half began led shown)
        (apply_class-Shows led.traffic now later half began led order soon shown))

tick-StandsFor :
    (now later : ℕ) (l : Lamp) (led : Led)
    → now ≤ later
    → later - now ≤ 2147483648
    → StandsFor now l led
    → StandsFor later (lamp_tick later l) (tick (later % u32_mod) led)
tick-StandsFor now later l led order soon s =
    let due : sub_ticks (later % u32_mod) led.sample_start_ticks ≡ later - l.sampled =
      ap (sub_ticks (later % u32_mod)) s.sample
      ∙ elapsed_lem l.sampled later (omega (arith, s.sampled_in))
          (omega (arith, s.recent, s.sampled_in)) in
    elim (Bool-cases (leb 7200000 (later - l.sampled))) [
      | inr h ↦
          let (window, sample) = apply_class-Keeps led.traffic (later % u32_mod) led in
          rw (h, tick_goes_on (later % u32_mod) led (ap (leb 7200000) due ∙ h))
            (record {
              window = window ∙ s.window;
              sample = sample ∙ s.sample;
              sampled_in = omega (arith, s.sampled_in);
              recent = leb→lt _ _ h;
              shown = goes_on-Shows now later l.half l.began led order soon s.shown;
            })
      | inl h ↦
          let led' = record led { sample_start_ticks = later % u32_mod } in
          let c = classify_bytes led.window_bytes in
          let half_is : class_half_period c ≡ half_of l.window =
            classify_half led.window_bytes ∙ ap half_of s.window in
          let (window, sample) = apply_class-Keeps c (later % u32_mod) led' in
          let shown' = Shows-alike now l.half l.began led led' refl refl refl refl s.shown in
          rw (h, tick_samples (later % u32_mod) led (ap (leb 7200000) due ∙ h))
            (record {
              window = refl;
              sample = sample;
              sampled_in = omega arith;
              recent = omega arith;
              shown =
                  Shows-alike later (half_of l.window) (began_at (half_of l.window) later l)
                    (apply_class c (later % u32_mod) led') _ refl refl refl refl
                    (subst
                      (λ k.
                        Shows later k (began_at k later l) (apply_class c (later % u32_mod) led'))
                      half_is
                      (apply_class-Shows c now later l.half l.began led' order soon shown'));
            })
    ]

-- What is seen of the lamp is what it is to do.
pub lit-StandsFor : (now : ℕ) (l : Lamp) (led : Led) → StandsFor now l led → led.level ≡ lit now l
lit-StandsFor now l led s = elim s.shown [
  | inl (z, d) ↦ d.level_off ∙ rw z refl
  | inr v ↦ v.blinking.level_is ∙ v.blinking.lit ∙ rw (pos→ne l.half v.positive) refl
]
