-- ===== src/Ringbuf/Window.antt =====
-- The cells of a ring from an index on, going round at its capacity.
use starrysky_mc_server.Prelude.{
  ℕ, zero, suc, ◌+◌, ◌-◌, ◌/◌, ◌%◌, ◌≤◌, ◌<◌, ◌≡◌, ◌≢◌, refl, ap, ap₂, ◌∙◌, sym, arith, List, [],
  ◌∷◌, ◌++◌, get_or, set, take, drop, length, get_or-set_self, get_or-set_ne,
}
use native.Mathlib.Nat.{mod-add-mod, mod-mod, mod-lt, div-add-mod, mul-le-mul_left}
use native.Mathlib.Decide.{dec_le}

module _ (storage : List ℕ) (cap : ℕ) where
  abbrev pub window : ℕ → ℕ → List ℕ
  window h zero = []
  window h (suc n) = get_or storage (h % cap) 0 ∷ window (h + 1) n

  pub length-window : (h n : ℕ) → length (window h n) ≡ n
  length-window h zero = refl
  length-window h (suc n) = ap suc (length-window (h + 1) n)

  pub window-mod : (h n : ℕ) → window (h % cap) n ≡ window h n
  window-mod h zero = refl
  window-mod h (suc n) = ap₂ ◌∷◌ (ap (λ k. get_or storage k 0) (mod-mod h cap)) (
      sym (window-mod (h % cap + 1) n)
      ∙ ap (λ k. window k n) (mod-add-mod h cap 1)
      ∙ window-mod (h + 1) n)

  window_eq : (h k n m : ℕ) → h ≡ k → n ≡ m → window h n ≡ window k m
  window_eq h k n m p q = ap₂ window p q

  pub drop-window : (k h n : ℕ) → drop k (window h n) ≡ window (h + k) (n - k)
  drop-window zero h n = window_eq h (h + 0) n (n - 0) (omega arith) (omega arith)
  drop-window (suc k) h zero = window_eq (h + suc k) (h + suc k) 0 (0 - suc k) refl (omega arith)
  drop-window (suc k) h (suc n) =
      drop-window k (h + 1) n
      ∙ window_eq (h + 1 + k) (h + suc k) (n - k) (suc n - suc k) (omega arith) (omega arith)

  pub take-window : (k h n : ℕ) → k ≤ n → take k (window h n) ≡ window h k
  take-window zero h n p = refl
  take-window (suc k) h zero p = absurd (omega arith)
  take-window (suc k) h (suc n) p =
      ap (λ l. get_or storage (h % cap) 0 ∷ l) (take-window k (h + 1) n (omega arith))

  cell_eq : (i j : ℕ) → i ≡ j → get_or storage (i % cap) 0 ≡ get_or storage (j % cap) 0
  cell_eq i j e = ap (λ k. get_or storage (k % cap) 0) e

  pub get_or-window :
      (h n k : ℕ) → k < n → get_or (window h n) k 0 ≡ get_or storage ((h + k) % cap) 0
  get_or-window h zero k p = absurd (omega arith)
  get_or-window h (suc n) zero p = cell_eq h (h + 0) (omega arith)
  get_or-window h (suc n) (suc k) p =
      get_or-window (h + 1) n k (omega arith) ∙ cell_eq (h + 1 + k) (h + suc k) (omega arith)

-- Two places less than `cap` apart are different cells.
pub mod-ne : (cap a b : ℕ) → a < b → b < a + cap → a % cap ≢ b % cap
mod-ne cap a b lo hi e = elim (dec_le (b / cap) (a / cap)) [
  | yes p ↦ omega (arith, div-add-mod a cap, div-add-mod b cap, mul-le-mul_left cap p)
  | no p ↦ omega (
    arith,
    div-add-mod a cap,
    div-add-mod b cap,
    mul-le-mul_left {m = a / cap + 1} {n = b / cap} cap (omega arith),
  )
]

-- A store just past a window extends it by that byte.
pub window-set :
    (storage : List ℕ) (cap x n h i : ℕ)
    → cap ≤ length storage
    → 0 < cap
    → n < cap
    → i ≡ (h + n) % cap
    → window (set storage i x) cap h (suc n) ≡ window storage cap h n ++ (x ∷ [])
window-set storage cap x zero h i hs hc hn e =
    let same : i ≡ h % cap = e ∙ ap (λ k. k % cap) (let z : h + 0 ≡ h = omega arith in z) in
    ap (λ v. v ∷ [])
      (rw same (get_or-set_self storage (h % cap) x 0 (omega (arith, mod-lt h {m = cap} hc))))
window-set storage cap x (suc n) h i hs hc hn e =
    ap₂ ◌∷◌
      (get_or-set_ne storage i (h % cap) x 0
        (λ p. mod-ne cap h (h + suc n) (omega arith) (omega arith) (sym p ∙ e)))
      (window-set storage cap x n (h + 1) i hs hc (omega arith)
        (e ∙ ap (λ k. k % cap) (let z : h + suc n ≡ h + 1 + n = omega arith in z)))
