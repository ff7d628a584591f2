-- ===== src/Commands/Text/Numbers.antt =====
-- core/src/mc_commands.c: what the builder holds after it has appended a number.
use native.Mathlib.Nat.{pow-suc}
use starrysky_mc_server.Commands.Text.{
  Builder, append_char, append_bytes, append_backwards, digits_reversed, append_u32,
}
use starrysky_mc_server.Prelude.{
  AllDigits, ℕ, zero, suc, ◌+◌, ◌-◌, ◌*◌, ◌/◌, ◌%◌, ◌^◌, ◌<◌, ◌≤◌, Bool, true, false, List, [], ◌∷◌,
  ◌++◌, ◌≡◌, ◌⊎◌, refl, ap, ◌∙◌, sym, length, ◌==◌, if◌then◌else◌, arith, length-append,
  append_assoc, append-nil, numeral, numeral_from, Bool-cases, All-append, inl, inr,
}

-- The call that appends all of `t`.
abbrev pub extend : Builder → List ℕ → Bool × Builder
extend b t = (true, record b { text = b.text ++ t })

abbrev pub backwards : List ℕ → List ℕ
backwards [] = []
backwards (d ∷ ds) = backwards ds ++ (d ∷ [])

-- The shortest decimal numeral of `value`.
unfoldable pub decimal : ℕ → List ℕ
unfolding digits_reversed
decimal value = if value == 0 then b'0' ∷ [] else backwards (digits_reversed 10 value)

pub append_char_fits :
    (b : Builder) (c : ℕ) → length b.text + 1 < b.cap → append_char c b ≡ extend b (c ∷ [])
unfolding append_char
append_char_fits b c h = ground arith

pub append_bytes_fits :
    (b : Builder) (t : List ℕ) → length b.text + length t < b.cap → append_bytes t b ≡ extend b t
unfolding append_bytes
append_bytes_fits b t h = ground arith

length-backwards : (ds : List ℕ) → length (backwards ds) ≡ length ds
length-backwards [] = refl
length-backwards (d ∷ ds) =
    omega (arith, length-append (backwards ds) (d ∷ []), length-backwards ds)

append_backwards_fits :
    (b : Builder) (ds : List ℕ)
    → length b.text + length ds < b.cap
    → append_backwards ds b ≡ extend b (backwards ds)
unfolding append_backwards
append_backwards_fits b [] h = rw append-nil refl
append_backwards_fits b (d ∷ ds) h = rw (append_backwards_fits b ds (omega arith)) (
    append_char_fits (record b { text = b.text ++ backwards ds }) d
      (omega (arith, length-append b.text (backwards ds), length-backwards ds))
    ∙ ap (λ t. (true, record b { text = t })) (append_assoc b.text (backwards ds) (d ∷ [])))

-- One round of the division loop.
digits_reversed_cases :
    (room value : ℕ)
    → ((value ≡ 0) × (digits_reversed (suc room) value ≡ []))
      ⊎ (digits_reversed (suc room) value ≡ (b'0' + value % 10) ∷ digits_reversed room (value / 10))
unfolding digits_reversed
digits_reversed_cases room value = elim (Bool-cases (value == 0)) [
  | inl e ↦ inl (ground arith, ground arith)
  | inr e ↦ inr (ground arith)
]

pub numeral_from-append :
    (v : ℕ) (s t : List ℕ) → numeral_from v (s ++ t) ≡ numeral_from (numeral_from v s) t
numeral_from-append v [] t = refl
numeral_from-append v (c ∷ s) t = numeral_from-append (v * 10 + (c - b'0')) s t

numeral-backwards :
    (room value : ℕ) → value < 10 ^ room → numeral (backwards (digits_reversed room value)) ≡ value
unfolding digits_reversed
numeral-backwards zero value h = omega arith
numeral-backwards (suc room) value h = elim (digits_reversed_cases room value) [
  | inl e ↦ rw e.1 (sym e.0)
  | inr e ↦ rw e (
      rw
        (numeral_from-append 0 (backwards (digits_reversed room (value / 10)))
          ((b'0' + value % 10) ∷ []))
        (omega (arith, numeral-backwards room (value / 10) (omega (arith, pow-suc 10 room)))))
]

snoc_cons : (xs : List ℕ) (x : ℕ) → (d : ℕ) × (ds : List ℕ) × (xs ++ (x ∷ []) ≡ d ∷ ds)
snoc_cons [] x = (x, [], refl)
snoc_cons (y ∷ ys) x = (y, ys ++ (x ∷ []), refl)

-- Ten digits are enough for 32 bits, and they say the value.
pub numeral-decimal : (value : ℕ) → value < 4294967296 → numeral (decimal value) ≡ value
unfolding decimal
numeral-decimal value h = elim (Bool-cases (value == 0)) [
  | inl e ↦ rw e (ground arith)
  | inr e ↦ rw e (numeral-backwards 10 value (omega arith))
]

length-digits_reversed : (room value : ℕ) → length (digits_reversed room value) ≤ room
unfolding digits_reversed
length-digits_reversed zero value = omega arith
length-digits_reversed (suc room) value = elim (digits_reversed_cases room value) [
  | inl e ↦ rw e.1 (omega arith)
  | inr e ↦ rw e (omega (arith, length-digits_reversed room (value / 10)))
]

digits_narrow : (room k value : ℕ) → value < 10 ^ k → length (digits_reversed room value) ≤ k
unfolding digits_reversed
digits_narrow zero k value h = omega arith
digits_narrow (suc room) zero value h = ground arith
digits_narrow (suc room) (suc k) value h = elim (digits_reversed_cases room value) [
  | inl e ↦ rw e.1 (omega arith)
  | inr e ↦ rw e (omega (arith, digits_narrow room k (value / 10) (omega (arith, pow-suc 10 k))))
]

pub length-decimal : (k value : ℕ) → value < 10 ^ suc k → length (decimal value) ≤ suc k
unfolding decimal
length-decimal k value h = elim (Bool-cases (value == 0)) [
  | inl e ↦ rw e (omega arith)
  | inr e ↦
      rw e (
        omega
          (arith, length-backwards (digits_reversed 10 value), digits_narrow 10 (suc k) value h))
]

pub decimal_cons : (value : ℕ) → (d : ℕ) × (ds : List ℕ) × (decimal value ≡ d ∷ ds)
unfolding decimal
decimal_cons value = elim (Bool-cases (value == 0)) [
  | inl e ↦ (b'0', [], rw e refl)
  | inr e ↦ elim (digits_reversed_cases 9 value) [
    | inl z ↦ absurd (ground arith)
    | inr step ↦
        let (d, ds, split) =
          snoc_cons (backwards (digits_reversed 9 (value / 10))) (b'0' + value % 10) in
        (d, ds, rw (e, step) split)
  ]
]

digits_reversed-AllDigits : (room value : ℕ) → AllDigits (backwards (digits_reversed room value))
unfolding digits_reversed
digits_reversed-AllDigits zero value = tt
digits_reversed-AllDigits (suc room) value = elim (digits_reversed_cases room value) [
  | inl e ↦ rw e.1 tt
  | inr e ↦ rw e (
      All-append _ (backwards (digits_reversed room (value / 10))) ((b'0' + value % 10) ∷ [])
        (digits_reversed-AllDigits room (value / 10)) (ground arith, tt))
]

pub decimal-AllDigits : (value : ℕ) → AllDigits (decimal value)
unfolding decimal
decimal-AllDigits value = elim (Bool-cases (value == 0)) [
  | inl e ↦ rw e (refl, tt)
  | inr e ↦ rw e (digits_reversed-AllDigits 10 value)
]

-- `append_u32` writes the shortest decimal numeral when it fits.
pub append_u32_fits :
    (b : Builder) (value : ℕ)
    → length b.text + length (decimal value) < b.cap
    → append_u32 value b ≡ extend b (decimal value)
unfolding append_u32 decimal
append_u32_fits b value =
    elim (value == 0)
      as (λ z.
        length b.text + length (if z then b'0' ∷ [] else backwards (digits_reversed 10 value))
          < b.cap
        → (if z then append_char b'0' else append_backwards (digits_reversed 10 value)) b
          ≡ extend b (if z then b'0' ∷ [] else backwards (digits_reversed 10 value))) [
            | true ↦ λ h. append_char_fits b b'0' (omega arith)
            | false ↦ λ h.
                append_backwards_fits b (digits_reversed 10 value)
                  (omega (arith, length-backwards (digits_reversed 10 value)))
          ]
