-- ===== src/Led/Ticking/Runs.antt =====
-- firmware/mc_activity_led.c: the lamp over a run of ticks and of traffic.
use starrysky_mc_server.Prelude.{
  ℕ, ◌+◌, ◌%◌, ◌^◌, ◌≤◌, ◌≡◌, refl, ap, arith, u32_mod, List, [], ◌∷◌, inl,
}
use starrysky_mc_server.Led.{Led, led_init, observe_bytes, tick}
use starrysky_mc_server.Led.Lamp.{Lamp, lamp_tick, lit}
use starrysky_mc_server.Led.Showing.{Shows-alike}
use starrysky_mc_server.Led.Ticking.{StandsFor, tick-StandsFor, lit-StandsFor}

-- What happens between a lamp and its next tick.
pub data Event : Type 0 where
  observed : ℕ → Event
  ticked : ℕ → Event

-- The lamp and the time after a run of events; a tick comes that many ticks after the one before.
unfoldable pub run_events : List Event → ℕ → Led → ℕ × Led
run_events [] now led = (now, led)
run_events (observed bytes ∷ events) now led = run_events events now (observe_bytes bytes led)
run_events (ticked gap ∷ events) now led =
    run_events events (now + gap) (tick ((now + gap) % u32_mod) led)

-- Ticks that come within 2^31 ticks of each other.
unfoldable pub IsSteady : List Event → Type 0
IsSteady [] = Unit
IsSteady (observed bytes ∷ events) = IsSteady events
IsSteady (ticked gap ∷ events) = (gap ≤ 2147483648) × IsSteady events

-- The same run of what the lamp is to do, with its time.
unfoldable pub run_lamp : List Event → ℕ → Lamp → ℕ × Lamp
run_lamp [] now l = (now, l)
run_lamp (observed bytes ∷ events) now l =
    run_lamp events now (record l { window = (l.window + bytes) % 2 ^ 32 })
run_lamp (ticked gap ∷ events) now l = run_lamp events (now + gap) (lamp_tick (now + gap) l)

-- The lamp is dark at first.
abbrev pub dark_at : ℕ → Lamp
dark_at now = record { window = 0; sampled = now; half = 0; began = now }

observe-StandsFor :
    (now bytes : ℕ) (l : Lamp) (led : Led)
    → StandsFor now l led
    → StandsFor now (record l { window = (l.window + bytes) % 2 ^ 32 }) (observe_bytes bytes led)
unfolding observe_bytes
observe-StandsFor now bytes l led s = record {
  window = ap (λ n. (n + bytes) % 2 ^ 32) s.window;
  sample = s.sample;
  sampled_in = s.sampled_in;
  recent = s.recent;
  shown = Shows-alike now l.half l.began led _ refl refl refl refl s.shown;
}

run-StandsFor :
    (events : List Event) (now : ℕ) (l : Lamp) (led : Led)
    → IsSteady events
    → StandsFor now l led
    → StandsFor (run_lamp events now l).0 (run_lamp events now l).1 (run_events events now led).1
unfolding run_events run_lamp IsSteady
run-StandsFor [] now l led h s = s
run-StandsFor (observed bytes ∷ events) now l led h s =
    run-StandsFor events now _ (observe_bytes bytes led) h (observe-StandsFor now bytes l led s)
run-StandsFor (ticked gap ∷ events) now l led h s =
    run-StandsFor events (now + gap) (lamp_tick (now + gap) l) (tick ((now + gap) % u32_mod) led)
      h.1 (tick-StandsFor now (now + gap) l led (omega arith) (omega (arith, h.0)) s)

led_init-StandsFor : (now : ℕ) → StandsFor now (dark_at now) (led_init (now % u32_mod))
unfolding led_init
led_init-StandsFor now = record {
  window = refl;
  sample = refl;
  sampled_in = omega arith;
  recent = omega arith;
  shown = inl (refl, record { no_traffic = refl; off = refl; level_off = refl });
}

-- From the initialisation on, over any run of observed traffic and of ticks within 2^31 ticks of
-- each other, the level of the lamp is the one of a description that counts in unbounded time:
-- dark after a sample without traffic, otherwise lit just where the number of half periods (half
-- a second, a sixth or a twelfth of one, by the bytes of the last sample) that have passed since
-- the half period last changed is even.
pub run_events_refines :
    (events : List Event) (now : ℕ)
    → IsSteady events
    → let (later, l) = run_lamp events now (dark_at now) in
      (run_events events now (led_init (now % u32_mod))).1.level ≡ lit later l
run_events_refines events now h =
    lit-StandsFor (run_lamp events now (dark_at now)).0 (run_lamp events now (dark_at now)).1
      (run_events events now (led_init (now % u32_mod))).1
      (run-StandsFor events now (dark_at now) (led_init (now % u32_mod)) h (led_init-StandsFor now))
