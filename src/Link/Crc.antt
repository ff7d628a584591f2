-- ===== src/Link/Crc.antt =====
-- mc_link.c: the CRC16/CCITT-FALSE of a frame's body.
use starrysky_mc_server.Prelude.{
  ℕ, zero, suc, ◌%◌, ◌^◌, ◌<◌, ◌≡◌, refl, arith, List, [], ◌∷◌, ◌++◌, not, bit_and, bit_xor, shl,
  u16_mod, ◌==◌, if◌then◌else◌,
}
use native.Mathlib.Nat.{mod-lt}

unfoldable pub crc_bit : ℕ → ℕ
crc_bit crc =
    if not (bit_and crc 0x8000 == 0)
    then bit_xor (shl crc 1) 0x1021 % u16_mod
    else shl crc 1 % u16_mod

unfoldable pub crc_bits : ℕ → ℕ → ℕ
crc_bits zero crc = crc
crc_bits (suc n) crc = crc_bits n (crc_bit crc)

unfoldable pub crc16_update : ℕ → List ℕ → ℕ
unfolding crc_bits crc_bit
crc16_update crc [] = crc
crc16_update crc (byte ∷ src) = crc16_update (crc_bits 8 (bit_xor crc (shl byte 8) % u16_mod)) src

unfoldable pub crc16 : List ℕ → ℕ
unfolding crc16_update
crc16 src = crc16_update 0xffff src

crc_bit-lt : (crc : ℕ) → crc_bit crc < 2 ^ 16
unfolding crc_bit
crc_bit-lt crc = ground arith

crc_bits-lt : (n crc : ℕ) → crc < 2 ^ 16 → crc_bits n crc < 2 ^ 16
unfolding crc_bits
crc_bits-lt zero crc h = h
crc_bits-lt (suc n) crc h = crc_bits-lt n (crc_bit crc) (crc_bit-lt crc)

pub crc16_update-lt : (src : List ℕ) (crc : ℕ) → crc < 2 ^ 16 → crc16_update crc src < 2 ^ 16
unfolding crc16_update
crc16_update-lt [] crc h = h
crc16_update-lt (byte ∷ src) crc h =
    crc16_update-lt src _ (crc_bits-lt 8 _ (mod-lt _ {m = 2 ^ 16} (omega arith)))

-- The sum over a frame's header and then its payload is the sum over both.
pub crc16_update-append :
    (xs ys : List ℕ) (crc : ℕ) → crc16_update crc (xs ++ ys) ≡ crc16_update (crc16_update crc xs) ys
unfolding crc16_update
crc16_update-append [] ys crc = refl
crc16_update-append (x ∷ xs) ys crc = crc16_update-append xs ys _

-- The check value of the algorithm, at "123456789".
crc16_check : crc16 (49 ∷ 50 ∷ 51 ∷ 52 ∷ 53 ∷ 54 ∷ 55 ∷ 56 ∷ 57 ∷ []) ≡ 0x29b1
unfolding crc16
crc16_check = refl
