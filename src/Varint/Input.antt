-- ===== src/Varint/Input.antt =====
-- mc_varint_decode on any input, well formed or not.
use starrysky_mc_server.Prelude.{
  ℕ, ◌+◌, ◌*◌, ◌%◌, ◌^◌, ◌≤◌, ◌<◌, ◌≡◌, refl, arith, List, [], ◌∷◌, ◌++◌, none, some, bit_and,
  bit_or, bit_and-top, bit_and-high, length, IsByte, All, shl, u32_mod,
}
use starrysky_mc_server.Varint.{decode_loop, decode}
use starrysky_mc_server.Varint.RoundTrip.{add_group, pow_seven}
use native.Mathlib.Nat.{pow-le-pow_right, mul-le-mul_right}

-- The value after a round, where the byte is no fifth one or the fifth byte's high bits are clear.
gathered : ℕ → ℕ → ℕ → ℕ
gathered res byte shift = bit_or res (shl (bit_and byte 0x7f) shift % u32_mod)

gathered_lt :
    (res byte shift : ℕ)
    → res < 2 ^ shift
    → (shift ≤ 21
        → (gathered res byte shift < 2 ^ (shift + 7)) × (gathered res byte shift < 2 ^ 32))
      × (shift ≤ 28 → byte % 128 < 16 → gathered res byte shift < 2 ^ 32)
unfolding gathered
gathered_lt res byte shift hr = (
  λ h.
      let p : 2 ^ shift ≤ 2 ^ 21 = pow-le-pow_right {n = 2} (omega arith) h in
      let group : byte % 128 * 2 ^ shift ≤ 127 * 2 ^ shift = mul-le-mul_right _ (omega arith) in
      omega (arith, add_group res shift byte hr, pow_seven shift),
  λ h small.
      let p : 2 ^ shift ≤ 2 ^ 28 = pow-le-pow_right {n = 2} (omega arith) h in
      let group : byte % 128 * 2 ^ shift ≤ 15 * 2 ^ shift = mul-le-mul_right _ (omega arith) in
      omega (arith, add_group res shift byte hr),
)

decode_loop_takes :
    (src : List ℕ) (i res shift v used : ℕ)
    → All IsByte src
    → shift ≡ 7 * i
    → (i < 5 → res < 2 ^ shift)
    → decode_loop src i res shift ≡ some (v, used)
    → (v < 2 ^ 32) × (i < used) × (used ≤ 5) × (used ≤ i + length src)
unfolding decode_loop gathered
decode_loop_takes [] i res shift v used hb hs hr e = cc
decode_loop_takes (byte ∷ src) i res shift v used hb hs hr e = ground (
  arith,
  bit_and-top byte,
  bit_and-high byte,
  gathered_lt res byte shift,
  decode_loop_takes src (i + 1) (gathered res byte shift) (shift + 7) v used,
)

-- Where bytes are decoded to a value, it is below 2^32 and takes from one to five bytes, all of
-- them of the input.
pub decode_takes :
    (src : List ℕ) (v used : ℕ)
    → All IsByte src
    → decode src ≡ some (v, used)
    → (v < 2 ^ 32) × (1 ≤ used) × (used ≤ 5) × (used ≤ length src)
unfolding decode
decode_takes src v used h e =
    omega (arith, decode_loop_takes src 0 0 0 v used h refl (λ _. omega arith) e)

decode_loop-append :
    (src more : List ℕ) (i res shift v used : ℕ)
    → decode_loop src i res shift ≡ some (v, used)
    → decode_loop (src ++ more) i res shift ≡ some (v, used)
unfolding decode_loop gathered
decode_loop-append [] more i res shift v used e = cc
decode_loop-append (byte ∷ src) more i res shift v used e =
    ground (arith, decode_loop-append src more (i + 1) (gathered res byte shift) (shift + 7) v used)

-- Bytes that follow a decoded value do not change the result.
pub decode-append :
    (src more : List ℕ) (v used : ℕ)
    → decode src ≡ some (v, used)
    → decode (src ++ more) ≡ some (v, used)
unfolding decode
decode-append src more v used e = decode_loop-append src more 0 0 0 v used e

decode_loop_continues :
    (i : ℕ) (src rest : List ℕ) (res shift : ℕ)
    → All (λ b. (128 ≤ b) × (b < 256)) src
    → 5 ≤ i + length src
    → decode_loop (src ++ rest) i res shift ≡ none
unfolding decode_loop gathered
decode_loop_continues i [] [] res shift h n = refl
decode_loop_continues i [] (r ∷ rest) res shift h n = ground arith
decode_loop_continues i (b ∷ src) rest res shift h n = ground (
  arith,
  bit_and-top b,
  decode_loop_continues (i + 1) src rest (gathered res b shift) (shift + 7),
)

-- Five bytes or more with the continuation bit set are no VarInt, whatever follows.
pub decode_five_continued :
    (src rest : List ℕ)
    → All (λ b. (128 ≤ b) × (b < 256)) src
    → 5 ≤ length src
    → decode (src ++ rest) ≡ none
unfolding decode
decode_five_continued src rest h n = decode_loop_continues 0 src rest 0 0 h (omega arith)
