-- ===== src/Packet/Writer.antt =====
-- mc_packet.c: the packet writer. Integers and floats are their bit patterns; a C string is the list
-- of its bytes before the terminating zero.
use starrysky_mc_server.Prelude.{
  ℕ, zero, suc, ◌-◌, ◌*◌, ◌%◌, List, Bool, true, false, not, ◌&&◌, length, set, copy_at, leb, ltb,
  ◌==◌, if◌then◌else◌, shr, Act, ◌>>◌, success, failure,
}
use starrysky_mc_server.Config.{max_string_bytes}
use starrysky_mc_server.Varint.{encode}
use starrysky_mc_server.Ringbuf.{add_size}

-- `mc_writer_t`; `buf` is all of the caller's buffer, written up to `len`.
pub record Writer : Type 0 where
  pub buf : List ℕ
  pub cap : ℕ
  pub len : ℕ

unfoldable pub writer_init : List ℕ → ℕ → Writer
writer_init buf cap = record { buf = buf; cap = cap; len = 0 }

unfoldable pub has_space : ℕ → Writer → Bool
has_space len w = leb w.len w.cap && leb len (w.cap - w.len)

unfoldable pub write_raw : ℕ → Act Writer
unfolding has_space
write_raw byte w =
    if not (has_space 1 w)
    then (false, w)
    else (true, record w { buf = set w.buf w.len byte; len = add_size w.len 1 })

-- `if (!mc_writer_has_space(w, len)) return 0;` before a write.
abbrev pub guarded : ℕ → Act Writer → Act Writer
guarded len act w = if has_space len w then act w else (false, w)

unfoldable pub write_u8 : ℕ → Act Writer
write_u8 value = write_raw value

unfoldable pub write_i8 : ℕ → Act Writer
write_i8 value = write_raw (value % 256)

unfoldable pub write_u16 : ℕ → Act Writer
write_u16 value = guarded 2 do write_raw (shr value 8 % 256); write_raw (value % 256)

unfoldable pub write_i16 : ℕ → Act Writer
write_i16 value = write_u16 value

unfoldable pub write_i32 : ℕ → Act Writer
write_i32 v = guarded 4 do
  write_raw (shr v 24 % 256)
  write_raw (shr v 16 % 256)
  write_raw (shr v 8 % 256)
  write_raw (v % 256)

-- `for (int shift = 56; shift >= 0; shift -= 8)`, at `shift = 8 * (rounds left - 1)`.
unfoldable pub write_shifts : ℕ → ℕ → Act Writer
write_shifts zero v = success
write_shifts (suc n) v = do write_raw (shr v (8 * n) % 256); write_shifts n v

unfoldable pub write_i64 : ℕ → Act Writer
write_i64 v = guarded 8 (write_shifts 8 v)

unfoldable pub write_f32 : ℕ → Act Writer
write_f32 bits = write_i32 bits

unfoldable pub write_f64 : ℕ → Act Writer
write_f64 bits = guarded 8 (write_shifts 8 bits)

unfoldable pub write_bool : Bool → Act Writer
write_bool value = write_raw (if value then 1 else 0)

unfoldable pub write_bytes : List ℕ → Act Writer
write_bytes src =
    guarded (length src)
      λ w. (true, record w { buf = copy_at w.buf w.len src; len = add_size w.len (length src) })

unfoldable pub write_varint : ℕ → Act Writer
write_varint value =
    let tmp = encode value 5 in if length tmp == 0 then failure else write_bytes tmp

-- `w->len = start;` where the chain has failed.
abbrev pub or_rewind : ℕ → Bool × Writer → Bool × Writer
or_rewind start (true, w) = (true, w)
or_rewind start (false, w) = (false, record w { len = start })

unfoldable pub write_string : List ℕ → Act Writer
write_string str w =
    if ltb max_string_bytes (length str)
    then (false, w)
    else or_rewind w.len ((do write_varint (length str); write_bytes str) w)
