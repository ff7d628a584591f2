-- ===== src/Led.antt =====
-- firmware/mc_activity_led.c: the lamp that blinks with the traffic.
pub mod Blinking
pub mod Lamp
pub mod Showing
pub mod Ticking
mod Tests
use starrysky_mc_server.Prelude.{
  ℕ, ◌+◌, ◌-◌, ◌*◌, ◌/◌, ◌%◌, Bool, true, false, not, ◌&&◌, leb, ltb, ◌==◌, if◌then◌else◌, bit_and,
  u32_mod, size_mod,
}

-- `mc_activity_led_class_t`.
pub data Traffic : Type 0 where
  idle : Traffic
  low : Traffic
  medium : Traffic
  high : Traffic

-- The static variables; `level` is what the lamp was last set to by the platform's calls.
pub record Led : Type 0 where
  pub sample_start_ticks : ℕ
  pub phase_start_ticks : ℕ
  pub window_bytes : ℕ
  pub traffic : Traffic
  pub on : Bool
  pub level : Bool

-- Fractions of MC_SERVER_TICKS_PER_SECOND, which is 72000000.
abbrev pub sample_ticks : ℕ
sample_ticks = 7200000

unfoldable pub classify_bytes : ℕ → Traffic
classify_bytes bytes =
    if bytes == 0
    then idle
    else if leb bytes 64
    then low
    else if leb bytes 512
    then medium
    else high

unfoldable pub class_half_period : Traffic → ℕ
class_half_period low = 36000000
class_half_period medium = 12000000
class_half_period high = 6000000
class_half_period idle = 0

unfoldable pub same_class : Traffic → Traffic → Bool
same_class idle idle = true
same_class low low = true
same_class medium medium = true
same_class high high = true
same_class _ _ = false

unfoldable pub same_level : Bool → Bool → Bool
same_level true b = b
same_level false b = not b

unfoldable pub set_led : Bool → Led → Led
set_led on led = if same_level led.on on then led else record led { on = on; level = on }

-- `a - b` on `uint32_t`.
abbrev pub sub_ticks : ℕ → ℕ → ℕ
sub_ticks a b = (a + u32_mod - b) % u32_mod

-- The last part of `apply_class`, for a class that goes on.
unfoldable pub advance : ℕ → Led → Led
advance now_ticks led =
    let half_period = class_half_period led.traffic in
    let elapsed_ticks = sub_ticks now_ticks led.phase_start_ticks in
    let half_periods = elapsed_ticks / half_period in
    let phase = (led.phase_start_ticks + half_periods * half_period % u32_mod) % u32_mod in
    let led' = record led { phase_start_ticks = phase } in
    if ltb 0 half_period && leb half_period elapsed_ticks
    then (if not (bit_and half_periods 1 == 0) then set_led (not led'.on) led' else led')
    else led

unfoldable pub apply_class : Traffic → ℕ → Led → Led
apply_class next_class now_ticks led =
    if same_class next_class idle
    then set_led false (record led { traffic = next_class })
    else if not (same_class next_class led.traffic)
    then set_led true (record led { traffic = next_class; phase_start_ticks = now_ticks })
    else advance now_ticks led

unfoldable pub led_init : ℕ → Led
led_init now_ticks = record {
  sample_start_ticks = now_ticks;
  phase_start_ticks = now_ticks;
  window_bytes = 0;
  traffic = idle;
  on = false;
  level = false;
}

unfoldable pub observe_bytes : ℕ → Led → Led
observe_bytes bytes led = record led { window_bytes = (led.window_bytes + bytes) % size_mod }

unfoldable pub tick : ℕ → Led → Led
tick now_ticks led =
    let sampled =
      apply_class (classify_bytes led.window_bytes) now_ticks
        (record led { sample_start_ticks = now_ticks }) in
    if leb sample_ticks (sub_ticks now_ticks led.sample_start_ticks)
    then record sampled { window_bytes = 0 }
    else apply_class led.traffic now_ticks led
