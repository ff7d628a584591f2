-- ===== src/Prelude/Bits.antt =====
-- `&` with a low mask, `|` of disjoint fields, and the tests of single bits of a byte, as arithmetic.
use Prim.Native.Nat.{ℕ, zero, suc, ◌+◌, ◌-◌, ◌*◌, ◌/◌, ◌%◌, ◌^◌, ◌≤◌, ◌<◌, min, max}
use Prim.Native.Nat.{bit_and, bit_or, bit_and-bitwise, bit_or-bitwise, digits}
use mathlib.Core.Path.{◌≡◌, refl, ap, ◌∙◌}
use mathlib.Core.Bool.{Bool, true, ◌&&◌}
use native.Mathlib.Omega.{arith}
use native.Mathlib.Nat.{pow-suc, one-le-pow, add-zero, add-suc, mul_assoc}
use starrysky_mc_server.Prelude.Tests.{◌==◌, ==→eq}

-- `x >> k` and `x << k`.
abbrev pub shr : ℕ → ℕ → ℕ
shr x k = x / 2 ^ k

abbrev pub shl : ℕ → ℕ → ℕ
shl x k = x * 2 ^ k

-- The count of digits left is of no account once it covers the first number.
module _ (z : ℕ → ℕ) (f : ℕ → ℕ → ℕ) where
  digits_enough : (a b n m : ℕ) → a ≤ n → a ≤ m → digits z f n a b ≡ digits z f m a b
  digits_enough (suc a) b (suc n) (suc m) p q =
      rw (digits_enough (suc a / 2) (b / 2) n m (omega arith) (omega arith))
  digits_enough (suc a) b zero m p q = absurd (omega arith)
  digits_enough (suc a) b (suc n) zero p q = absurd (omega arith)
  digits_enough zero b (suc n) (suc m) p q = refl
  digits_enough zero b (suc n) zero p q = refl
  digits_enough zero b zero (suc m) p q = refl
  digits_enough zero b zero zero p q = refl

  digits_lowest :
      (a b : ℕ)
      → digits z f (suc a) (suc a) b
        ≡ digits z f (suc a / 2) (suc a / 2) (b / 2) * 2 + f (suc a % 2) (b % 2)
  digits_lowest a b =
      omega (arith, digits_enough (suc a / 2) (b / 2) a (suc a / 2) (omega arith) (omega arith))

or_lowest : (a b : ℕ) → bit_or a b ≡ bit_or (a / 2) (b / 2) * 2 + max (a % 2) (b % 2)
or_lowest zero b = simp bit_or-bitwise (omega arith)
or_lowest (suc a) b = simp bit_or-bitwise (digits_lowest (λ y. y) max a b)

and_lowest : (a b : ℕ) → bit_and a b ≡ bit_and (a / 2) (b / 2) * 2 + min (a % 2) (b % 2)
and_lowest zero b = simp bit_and-bitwise (omega arith)
and_lowest (suc a) b = simp bit_and-bitwise (digits_lowest (λ y. 0) min a b)

or-zero : (b : ℕ) → bit_or 0 b ≡ b
or-zero b = simp bit_or-bitwise refl

and_fuel-zero : (n a : ℕ) → a ≤ n → bit_and a 0 ≡ 0
and_fuel-zero n zero h = refl
and_fuel-zero zero (suc a) h = absurd (omega arith)
and_fuel-zero (suc n) (suc a) h =
    omega (arith, and_lowest (suc a) 0, and_fuel-zero n (suc a / 2) (omega arith))

pow_double : (q k : ℕ) → q * 2 ^ suc k ≡ 2 * (q * 2 ^ k)
pow_double q k = omega (arith, ap (λ (t : ℕ). q * t) (pow-suc 2 k))

-- A field shifted past the bits of `r` is added to it.
pub bit_or-shl : (k r q : ℕ) → r < 2 ^ k → bit_or r (q * 2 ^ k) ≡ r + q * 2 ^ k
bit_or-shl zero r q h = ground (arith, or-zero q)
bit_or-shl (suc k) r q h = ground (
  arith,
  or_lowest r (q * 2 ^ suc k),
  pow_double q k,
  pow-suc 2 k,
  bit_or-shl k (r / 2) q (omega (arith, pow-suc 2 k)),
)

and_mask-field : (k q r : ℕ) → r < 2 ^ k → bit_and (q * 2 ^ k + r) (2 ^ k - 1) ≡ r
and_mask-field zero q r h = rw (and_fuel-zero (q * 1 + r) (q * 1 + r) (omega arith)) (omega arith)
and_mask-field (suc k) q r h = ground (
  arith,
  and_lowest (q * 2 ^ suc k + r) (2 ^ suc k - 1),
  pow_double q k,
  pow-suc 2 k,
  and_mask-field k q (r / 2) (omega (arith, pow-suc 2 k)),
)

-- `x & (2^k - 1)`.
pub bit_and-mask : (k x : ℕ) → bit_and x (2 ^ k - 1) ≡ x % 2 ^ k
bit_and-mask k x = ground (arith, one-le-pow k 2, and_mask-field k (x / 2 ^ k) (x % 2 ^ k))

-- A test that all the numbers under a bound pass.
passed_under : (ℕ → Bool) → ℕ → Bool
passed_under test zero = true
passed_under test (suc bound) = passed_under test bound && test bound

passed_under_each :
    (test : ℕ → Bool) (bound : ℕ)
    → passed_under test bound ≡ true
    → (k : ℕ) → k < bound
    → test k ≡ true
unfolding passed_under
passed_under_each test zero passed k small = absurd (omega arith)
passed_under_each test (suc bound) passed k small = ground (arith, passed_under_each test bound _ k)

byte_top_table : passed_under (λ x. bit_and x 0x80 == (x / 128) * 128) 256 ≡ true
unfolding passed_under
byte_top_table = refl

-- The continuation bit of a byte.
pub bit_and-top : (x : ℕ) → x < 256 → bit_and x 0x80 ≡ x / 128 * 128
bit_and-top x h = ==→eq _ _ (passed_under_each _ 256 byte_top_table x h)

byte_70_table : passed_under (λ x. bit_and x 0x70 == x % 128 / 16 * 16) 256 ≡ true
unfolding passed_under
byte_70_table = refl

pub bit_and-high : (x : ℕ) → x < 256 → bit_and x 0x70 ≡ x % 128 / 16 * 16
bit_and-high x h = ==→eq _ _ (passed_under_each _ 256 byte_70_table x h)

pub bit_and-seven : (x : ℕ) → bit_and x 0x7f ≡ x % 128
bit_and-seven x = bit_and-mask 7 x

pub bit_and-eight : (x : ℕ) → bit_and x 0xff ≡ x % 256
bit_and-eight x = bit_and-mask 8 x

pub bit_or-top : (x : ℕ) → x < 128 → bit_or x 0x80 ≡ x + 128
bit_or-top x h = bit_or-shl 7 x 1 h

pub two_pow-add : (a b : ℕ) → 2 ^ (a + b) ≡ 2 ^ a * 2 ^ b
two_pow-add a zero = omega (arith, ap (λ k. 2 ^ k) (add-zero a))
two_pow-add a (suc b) =
    ap (λ k. 2 ^ k) (add-suc a b)
    ∙ (rw (pow-suc 2 (a + b), pow-suc 2 b, two_pow-add a b) (mul_assoc (2 ^ a) (2 ^ b) 2))
