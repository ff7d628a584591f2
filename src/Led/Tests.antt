-- ===== src/Led/Tests.antt =====
-- mc_activity_led.c at a concrete run.
use starrysky_mc_server.Prelude.{List, [], ◌∷◌, ◌≡◌, refl, arith, false}
use starrysky_mc_server.Led.{
  tick, led_init, observe_bytes, apply_class, advance, set_led, classify_bytes, class_half_period,
  same_class, same_level,
}
use starrysky_mc_server.Led.Lamp.{lit}
use starrysky_mc_server.Led.Ticking.Runs.{
  observed, ticked, Event, run_events, run_lamp, dark_at, IsSteady, run_events_refines,
}

-- The ticks wrap round after the first of them.
abbrev events : List Event
events = observed 20 ∷ ticked 7200000 ∷ observed 30 ∷ ticked 36000000 ∷ []

events-IsSteady : IsSteady events
unfolding IsSteady
events-IsSteady = omega arith

events_run : (run_events events 4294960000 (led_init 4294960000)).1.on ≡ false
unfolding run_events tick led_init observe_bytes apply_class advance set_led classify_bytes
    class_half_period same_class same_level
events_run = refl

lamp_run : (run_lamp events 4294960000 (dark_at 4294960000)).1.half ≡ 36000000
unfolding run_lamp
lamp_run = refl

run_events_refines_example :
    let (later, l) = run_lamp events 4294960000 (dark_at 4294960000) in
    (run_events events 4294960000 (led_init 4294960000)).1.level ≡ lit later l
run_events_refines_example = run_events_refines events 4294960000 events-IsSteady
