-- ===== src/Varint.antt =====
-- core/src/mc_varint.c: the Minecraft VarInt codec.
pub mod RoundTrip
pub mod Input
mod Tests
use starrysky_mc_server.Prelude.{
  ℕ, zero, suc, ◌+◌, ◌%◌, List, [], ◌∷◌, Bool, true, false, not, ◌&&◌,
}
use starrysky_mc_server.Prelude.{Option, none, some, bit_and, bit_or, shr, shl, take, u32_mod}
use starrysky_mc_server.Prelude.{leb, ◌==◌, if◌then◌else◌}

-- `mc_varint_encode`: the return value, and the bytes stored from `dst[0]` on. An `int32_t` is its
-- 32-bit pattern `v`; the first argument bounds the rounds, and a 32-bit value takes five at most.
encode_loop : ℕ → ℕ → ℕ → ℕ → ℕ × List ℕ
encode_loop zero v written dst_cap = (0, [])
encode_loop (suc rounds) v written dst_cap =
    let low = bit_and v 0x7f in
    let v' = shr v 7 in
    let byte = if not (v' == 0) then bit_or low 0x80 else low in
    let (n, bytes) = encode_loop rounds v' (written + 1) dst_cap in
    if leb dst_cap written
    then (0, [])
    else if v' == 0
    then (written + 1, byte ∷ [])
    else (n, byte ∷ bytes)

unfoldable pub encode_into : ℕ → ℕ → ℕ × List ℕ
unfolding encode_loop
encode_into value dst_cap = encode_loop 5 value 0 dst_cap

-- What the callers use: `dst[0 .. return value)`. It is empty when the call returns 0.
unfoldable pub encode : ℕ → ℕ → List ℕ
unfolding encode_into
encode value dst_cap = let (n, bytes) = encode_into value dst_cap in take n bytes

-- `mc_varint_decode` from index `i` on: the value and `used`, or `none` for a return of 0.
unfoldable pub decode_loop : List ℕ → ℕ → ℕ → ℕ → Option (ℕ × ℕ)
decode_loop [] i result shift = none
decode_loop (byte ∷ src) i result shift =
    let result' = bit_or result (shl (bit_and byte 0x7f) shift % u32_mod) in
    let more = decode_loop src (i + 1) result' (shift + 7) in
    if leb 5 i
    then none
    else if bit_and byte 0x80 == 0
    then if i == 4 && not (bit_and byte 0x70 == 0) then none else some (result', i + 1)
    else more

unfoldable pub decode : List ℕ → Option (ℕ × ℕ)
unfolding decode_loop
decode src = decode_loop src 0 0 0
