-- ===== src/Prelude/Memory.antt =====
-- Caller-owned byte arrays, `memcpy` into them, and the sizes of the target's integers.
use Prim.Native.Nat.{ℕ, zero, suc, ◌+◌, ◌^◌, ◌≤◌, ◌<◌}
use mathlib.Core.Path.{◌≡◌, refl, ap}
use mathlib.Core.List.{List, [], ◌∷◌, ◌++◌}
use native.Mathlib.Omega.{arith}
use starrysky_mc_server.Prelude.Lists.{length, get_or, take, set}

-- `size_t` of the RV32 target.
abbrev pub size_mod : ℕ
size_mod = 2 ^ 32

abbrev pub u32_mod : ℕ
u32_mod = 2 ^ 32

abbrev pub u16_mod : ℕ
u16_mod = 2 ^ 16

abbrev pub IsByte : ℕ → Type 0
IsByte b = b < 256

module _ {ℓ} {A : Type ℓ} where
  -- `memcpy(mem + off, src, length src)`. What would fall behind the end of `mem` is dropped; the
  -- code's guards are proved to rule that out.
  abbrev pub copy_at : List A → ℕ → List A → List A
  copy_at [] off src = []
  copy_at (m ∷ ms) (suc off) src = m ∷ copy_at ms off src
  copy_at (m ∷ ms) zero [] = m ∷ ms
  copy_at (m ∷ ms) zero (x ∷ xs) = x ∷ copy_at ms zero xs

module _ {ℓ} {A : Type ℓ} where
  pub length-copy_at :
      (mem : List A) (off : ℕ) (src : List A) → length (copy_at mem off src) ≡ length mem
  length-copy_at [] off src = refl
  length-copy_at (m ∷ ms) (suc off) src = ap suc (length-copy_at ms off src)
  length-copy_at (m ∷ ms) zero [] = refl
  length-copy_at (m ∷ ms) zero (x ∷ xs) = ap suc (length-copy_at ms zero xs)

  -- What a copy that fits leaves below its end: the old bytes, then the copied ones.
  pub take-copy_at :
      (mem : List A) (off n : ℕ) (src : List A)
      → n ≡ off + length src
      → n ≤ length mem
      → take n (copy_at mem off src) ≡ take off mem ++ src
  take-copy_at [] zero zero [] e h = refl
  take-copy_at [] zero zero (x ∷ xs) e h = absurd (omega arith)
  take-copy_at [] (suc off) zero src e h = absurd (omega arith)
  take-copy_at [] off (suc n) src e h = absurd (omega arith)
  take-copy_at (m ∷ ms) (suc off) zero src e h = absurd (omega arith)
  take-copy_at (m ∷ ms) (suc off) (suc n) src e h =
      ap (λ l. m ∷ l) (take-copy_at ms off n src (omega arith) (omega arith))
  take-copy_at (m ∷ ms) zero zero [] e h = refl
  take-copy_at (m ∷ ms) zero (suc n) [] e h = absurd (omega arith)
  take-copy_at (m ∷ ms) zero zero (x ∷ xs) e h = absurd (omega arith)
  take-copy_at (m ∷ ms) zero (suc n) (x ∷ xs) e h =
      ap (λ l. x ∷ l) (take-copy_at ms zero n xs (omega arith) (omega arith))

  pub take-suc-set :
      (mem : List A) (i : ℕ) (v : A)
      → i < length mem
      → take (suc i) (set mem i v) ≡ take i mem ++ (v ∷ [])
  take-suc-set [] i v h = absurd (omega arith)
  take-suc-set (m ∷ ms) zero v h = refl
  take-suc-set (m ∷ ms) (suc i) v h = ap (λ l. m ∷ l) (take-suc-set ms i v (omega arith))

  pub take-suc :
      (mem : List A) (i : ℕ) (d : A)
      → i < length mem
      → take (suc i) mem ≡ take i mem ++ (get_or mem i d ∷ [])
  take-suc [] i d h = absurd (omega arith)
  take-suc (m ∷ ms) zero d h = refl
  take-suc (m ∷ ms) (suc i) d h = ap (λ l. m ∷ l) (take-suc ms i d (omega arith))

  pub take-set : (mem : List A) (n i : ℕ) (v : A) → take n (set mem i v) ≡ set (take n mem) i v
  take-set [] zero i v = refl
  take-set [] (suc n) i v = refl
  take-set (m ∷ ms) zero i v = refl
  take-set (m ∷ ms) (suc n) zero v = refl
  take-set (m ∷ ms) (suc n) (suc i) v = ap (λ l. m ∷ l) (take-set ms n i v)

  -- A store to the place behind `xs`.
  pub set-append :
      (xs ys : List A) (i : ℕ) (c v : A) → i ≡ length xs → set (xs ++ (c ∷ ys)) i v ≡ xs ++ (v ∷ ys)
  set-append [] ys zero c v e = refl
  set-append [] ys (suc i) c v e = absurd (omega arith)
  set-append (x ∷ xs) ys zero c v e = absurd (omega arith)
  set-append (x ∷ xs) ys (suc i) c v e = ap (λ l. x ∷ l) (set-append xs ys i c v (omega arith))
