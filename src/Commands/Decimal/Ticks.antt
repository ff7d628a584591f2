-- ===== src/Commands/Decimal/Ticks.antt =====
-- core/src/mc_commands.c: the tick count of a numeral, exact as far as 24000.
use starrysky_mc_server.Commands.Decimal.Digits.{numeral_from-le}
use starrysky_mc_server.Commands.Decimal.{ticks_loop, parse_time_ticks}
use starrysky_mc_server.Prelude.{
  ℕ, suc, ◌+◌, ◌-◌, ◌*◌, ◌<◌, ◌≤◌, true, false, none, some, List, [], ◌∷◌, ◌++◌, ◌≡◌, refl, ◌∙◌,
  length, leb, is_digit, numeral_from, numeral, AllDigits, arith, Bool-cases, inl, inr, le→leb,
  leb→le, leb→lt, pos→ne, length-append,
}

ticks_loop_go :
    (c : ℕ) (token : List ℕ) (value : ℕ)
    → is_digit c ≡ true
    → value ≤ 24000
    → ticks_loop (c ∷ token) value ≡ ticks_loop token (value * 10 + (c - b'0'))
unfolding ticks_loop
ticks_loop_go c token value h le = rw (h, le→leb value 24000 le) refl

ticks_loop_stays :
    (token : List ℕ) (value : ℕ)
    → AllDigits token
    → 24000 < value
    → ticks_loop token value ≡ some value
unfolding ticks_loop
ticks_loop_stays [] value h gt = refl
ticks_loop_stays (c ∷ token) value h gt =
    rw (h.0, (let e : leb value 24000 ≡ false = ground arith in e))
      (ticks_loop_stays token value h.1 gt)

ticks_loop_exact :
    (token : List ℕ) (value : ℕ)
    → AllDigits token
    → numeral_from value token ≤ 24000
    → ticks_loop token value ≡ some (numeral_from value token)
ticks_loop_exact [] value h le = unfold ticks_loop in refl
ticks_loop_exact (c ∷ token) value h le =
    ticks_loop_go c token value h.0 (omega (arith, numeral_from-le value (c ∷ token)))
    ∙ ticks_loop_exact token (value * 10 + (c - b'0')) h.1 le

ticks_loop_large :
    (token : List ℕ) (value : ℕ)
    → AllDigits token
    → value ≤ 24000
    → 24000 < numeral_from value token
    → (v : ℕ) × (ticks_loop token value ≡ some v) × (24000 < v) × (v ≤ 240009)
ticks_loop_large [] value h le gt = absurd (omega arith)
ticks_loop_large (c ∷ token) value h le gt =
    elim (Bool-cases (leb (value * 10 + (c - b'0')) 24000)) [
      | inl small ↦
          let (v, e, above, below) =
            ticks_loop_large token (value * 10 + (c - b'0')) h.1 (leb→le _ _ small) gt in
          (v, ticks_loop_go c token value h.0 le ∙ e, above, below)
      | inr large ↦ (
        value * 10 + (c - b'0'),
        ticks_loop_go c token value h.0 le
            ∙ ticks_loop_stays token (value * 10 + (c - b'0')) h.1 (leb→lt _ _ large),
        leb→lt _ _ large,
        ground (arith, h.0),
      )
    ]

module _ (c : ℕ) (token : List ℕ) (digits : AllDigits (c ∷ token)) where
  pub parse_time_ticks_exact :
      numeral (c ∷ token) ≤ 24000 → parse_time_ticks (c ∷ token) ≡ some (numeral (c ∷ token))
  unfolding parse_time_ticks
  parse_time_ticks_exact le =
      rw (pos→ne (suc (length token)) (omega arith)) (ticks_loop_exact (c ∷ token) 0 digits le)

  -- A count that is too large is still read, as a number that is too large and does not overflow.
  pub parse_time_ticks_large :
      24000 < numeral (c ∷ token)
      → (v : ℕ) × (parse_time_ticks (c ∷ token) ≡ some v) × (24000 < v) × (v ≤ 240009)
  unfolding parse_time_ticks
  parse_time_ticks_large gt =
      rw (pos→ne (suc (length token)) (omega arith))
        (ticks_loop_large (c ∷ token) 0 digits (omega arith) gt)

-- A byte that is no digit, anywhere, makes it no number.
ticks_loop-none :
    (s t : List ℕ) (c value : ℕ) → is_digit c ≡ false → ticks_loop (s ++ (c ∷ t)) value ≡ none
unfolding ticks_loop
ticks_loop-none [] t c value h = rw h refl
ticks_loop-none (d ∷ s) t c value h = elim (Bool-cases (is_digit d)) [
  | inl e ↦ rw e (ticks_loop-none s t c _ h)
  | inr e ↦ rw e refl
]

pub parse_time_ticks-none :
    (s t : List ℕ) (c : ℕ) → is_digit c ≡ false → parse_time_ticks (s ++ (c ∷ t)) ≡ none
unfolding parse_time_ticks
parse_time_ticks-none s t c h =
    rw (pos→ne (length (s ++ (c ∷ t))) (omega (arith, length-append s (c ∷ t))))
      (ticks_loop-none s t c 0 h)
