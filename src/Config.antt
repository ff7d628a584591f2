-- ===== src/Config.antt =====
-- core/include/mc_config.h: the compile-time constants of the core, at their default values.
use starrysky_mc_server.Prelude.{ℕ, Bool, leb}

abbrev pub max_packet_body : ℕ
max_packet_body = 32768

abbrev pub max_username : ℕ
max_username = 16

abbrev pub max_string_bytes : ℕ
max_string_bytes = 32767

abbrev pub tx_ring_cap : ℕ
tx_ring_cap = 49152

abbrev pub compression_threshold_default : ℕ
compression_threshold_default = 8192

abbrev pub keepalive_interval_ticks : ℕ
keepalive_interval_ticks = 720_000_000

abbrev pub int32_max : ℕ
int32_max = 2147483647

-- `value < 0`, of an `int32_t` read as its 32-bit pattern.
abbrev pub is_negative : ℕ → Bool
is_negative value = leb 2147483648 value
