-- ===== src/Led/Lamp.antt =====
-- firmware/mc_activity_led.c: what the lamp is to do, described apart from the code.
use starrysky_mc_server.Prelude.{ℕ, Bool, ◌==◌, if◌then◌else◌, ◌-◌, ◌/◌, false, leb}
use starrysky_mc_server.Led.Blinking.{is_even}

-- What the lamp is to do, in times that do not wrap round: the bytes since the last sample and its
-- time, the half period of the blink, which is 0 while the lamp is dark, and when the blink began.
pub record Lamp : Type 0 where
  pub window : ℕ
  pub sampled : ℕ
  pub half : ℕ
  pub began : ℕ

-- The half period for the bytes of a sample: half a second, a sixth, or a twelfth, at 72 MHz.
abbrev pub half_of : ℕ → ℕ
half_of bytes =
    if bytes == 0
    then 0
    else if leb bytes 64
    then 36000000
    else if leb bytes 512
    then 12000000
    else 6000000

-- A blink begins when the half period changes, and goes on otherwise.
abbrev pub began_at : ℕ → ℕ → Lamp → ℕ
began_at half now l = if half == l.half then l.began else now

-- A sample is taken every tenth of a second.
abbrev pub lamp_tick : ℕ → Lamp → Lamp
lamp_tick now l =
    if leb 7200000 (now - l.sampled)
    then record {
      window = 0;
      sampled = now;
      half = half_of l.window;
      began = began_at (half_of l.window) now l;
    }
    else l

-- The lamp is lit in the first half period of a blink, and in every other one after it.
abbrev pub lit : ℕ → Lamp → Bool
lit now l = if l.half == 0 then false else is_even ((now - l.began) / l.half)
