-- ===== src/Commands/Decimal/Digits.antt =====
-- core/src/mc_commands.c: what the digit loops of `mc_parse_decimal` leave.
use native.Mathlib.Nat.{add-zero, pow-suc, pow-le-pow_right}
use starrysky_mc_server.Commands.Decimal.{
  Whole, whole_step, whole_loop, Frac, frac_step, frac_loop, coord_limit_whole,
}
use starrysky_mc_server.Prelude.{
  AllDigits, ℕ, suc, ◌+◌, ◌-◌, ◌*◌, ◌^◌, ◌<◌, ◌≤◌, Bool, true, false, List, [], ◌∷◌, ◌++◌, ◌≡◌,
  refl, ap, ◌∙◌, sym, length, ltb, is_digit, numeral_from, arith, Bool-cases, inl, inr, u32_mod,
  ltb→lt, ltb→le,
}

-- The digits end here.
abbrev pub Stops : List ℕ → Type 0
Stops [] = Unit {0}
Stops (c ∷ rest) = is_digit c ≡ false

pub numeral_from-le : (v : ℕ) (ds : List ℕ) → v ≤ numeral_from v ds
numeral_from-le v [] = omega arith
numeral_from-le v (c ∷ ds) = omega (arith, numeral_from-le (v * 10 + (c - b'0')) ds)

whole_loop_go :
    (c : ℕ) (token : List ℕ) (s : Whole)
    → is_digit c ≡ true
    → whole_loop (c ∷ token) s ≡ whole_loop token (whole_step (c - b'0') s)
unfolding whole_loop
whole_loop_go c token s h = rw h refl

whole_loop_end : (rest : List ℕ) (s : Whole) → Stops rest → whole_loop rest s ≡ (s, rest)
unfolding whole_loop
whole_loop_end [] s h = refl
whole_loop_end (c ∷ rest) s h = rw h refl

whole_step_in :
    (d : ℕ) (s : Whole)
    → d < 10
    → s.range_error ≡ false
    → s.whole * 10 + d ≤ coord_limit_whole
    → s.int_digits + 1 < u32_mod
    → whole_step d s
      ≡ record { whole = s.whole * 10 + d; range_error = false; int_digits = s.int_digits + 1 }
unfolding whole_step
whole_step_in d s hd ok le short = ground arith

whole_step_out :
    (d : ℕ) (s : Whole)
    → d < 10
    → coord_limit_whole < s.whole * 10 + d
    → (whole_step d s).range_error ≡ true
unfolding whole_step
whole_step_out d s hd gt = ground arith

whole_step_stays : (d : ℕ) (s : Whole) → s.range_error ≡ true → (whole_step d s).range_error ≡ true
unfolding whole_step
whole_step_stays d s e = ground arith

whole_step_counts :
    (d : ℕ) (s : Whole)
    → s.int_digits + 1 < u32_mod
    → (whole_step d s).int_digits ≡ s.int_digits + 1
unfolding whole_step
whole_step_counts d s short = ground arith

-- Digits that stay within the limit are read as their numeral.
pub whole_loop_in :
    (ds rest : List ℕ) (s : Whole)
    → AllDigits ds
    → Stops rest
    → s.range_error ≡ false
    → numeral_from s.whole ds ≤ coord_limit_whole
    → s.int_digits + length ds < u32_mod
    → whole_loop (ds ++ rest) s ≡ (
      record {
        whole = numeral_from s.whole ds;
        range_error = false;
        int_digits = s.int_digits + length ds;
      },
      rest,
    )
whole_loop_in [] rest s h stop ok le short =
    whole_loop_end rest s stop ∙ ap (λ (t : Whole). (t, rest)) (ground arith)
whole_loop_in (c ∷ ds) rest s h stop ok le short =
    let next =
      whole_step_in (c - b'0') s (ground (arith, h.0)) ok
        (omega (arith, numeral_from-le (s.whole * 10 + (c - b'0')) ds)) (omega arith) in
    whole_loop_go c (ds ++ rest) s h.0
    ∙ ap (whole_loop (ds ++ rest)) next
    ∙ whole_loop_in ds rest
        (record {
          whole = s.whole * 10 + (c - b'0');
          range_error = false;
          int_digits = s.int_digits + 1;
        })
        h.1 stop refl le (omega arith)
    ∙ ap
        (λ k. (
          record { whole = numeral_from s.whole (c ∷ ds); range_error = false; int_digits = k },
          rest,
        ))
        (let e : s.int_digits + 1 + length ds ≡ s.int_digits + suc (length ds) = omega arith in e)

-- What is known of a loop that passed the limit.
pub record IsOut (n : ℕ) (rest : List ℕ) (r : Whole × List ℕ) : Type 0 where
  pub stopped : r.1 ≡ rest
  pub error : r.0.range_error ≡ true
  pub counted : r.0.int_digits ≡ n

whole_loop_error :
    (ds rest : List ℕ) (s : Whole)
    → AllDigits ds
    → Stops rest
    → s.range_error ≡ true
    → s.int_digits + length ds < u32_mod
    → IsOut (s.int_digits + length ds) rest (whole_loop (ds ++ rest) s)
whole_loop_error [] rest s h stop err short =
    rw (whole_loop_end rest s stop) (record { stopped = refl; error = err; counted = omega arith })
whole_loop_error (c ∷ ds) rest s h stop err short =
    let n = whole_step_counts (c - b'0') s (omega arith) in
    let r =
      whole_loop_error ds rest (whole_step (c - b'0') s) h.1 stop
        (whole_step_stays (c - b'0') s err) (omega (arith, n)) in
    rw (whole_loop_go c (ds ++ rest) s h.0)
      (record { stopped = r.stopped; error = r.error; counted = omega (arith, n, r.counted) })

-- Digits that pass the limit raise the range error, wherever they pass it.
pub whole_loop-IsOut :
    (ds rest : List ℕ) (s : Whole)
    → AllDigits ds
    → Stops rest
    → s.range_error ≡ false
    → s.whole ≤ coord_limit_whole
    → coord_limit_whole < numeral_from s.whole ds
    → s.int_digits + length ds < u32_mod
    → IsOut (s.int_digits + length ds) rest (whole_loop (ds ++ rest) s)
whole_loop-IsOut [] rest s h stop ok low gt short = absurd (omega arith)
whole_loop-IsOut (c ∷ ds) rest s h stop ok low gt short =
    elim (Bool-cases (ltb coord_limit_whole (s.whole * 10 + (c - b'0')))) [
      | inl past ↦
          let n = whole_step_counts (c - b'0') s (omega arith) in
          let r =
            whole_loop_error ds rest (whole_step (c - b'0') s) h.1 stop
              (whole_step_out (c - b'0') s (ground (arith, h.0)) (ltb→lt _ _ past))
              (omega (arith, n)) in
          rw (whole_loop_go c (ds ++ rest) s h.0)
            (record { stopped = r.stopped; error = r.error; counted = omega (arith, n, r.counted) })
      | inr within ↦
          let next =
            whole_step_in (c - b'0') s (ground (arith, h.0)) ok (ltb→le _ _ within) (omega arith) in
          let r =
            whole_loop-IsOut ds rest
              (record {
                whole = s.whole * 10 + (c - b'0');
                range_error = false;
                int_digits = s.int_digits + 1;
              })
              h.1 stop refl (ltb→le _ _ within) gt (omega arith) in
          rw (whole_loop_go c (ds ++ rest) s h.0, next)
            (record { stopped = r.stopped; error = r.error; counted = omega (arith, r.counted) })
    ]

frac_loop_go :
    (out : Bool) (c : ℕ) (token : List ℕ) (s : Frac)
    → is_digit c ≡ true
    → frac_loop out (c ∷ token) s ≡ frac_loop out token (frac_step out c s)
unfolding frac_loop
frac_loop_go out c token s h = rw h refl

frac_step_in :
    (c : ℕ) (s : Frac)
    → is_digit c ≡ true
    → s.frac_digits < 9
    → s.frac < 100_000_000
    → s.scale ≤ 100_000_000
    → frac_step false c s ≡ record s {
      frac = s.frac * 10 + (c - b'0');
      scale = s.scale * 10;
      frac_digits = s.frac_digits + 1;
    }
unfolding frac_step
frac_step_in c s h n small scale = ground arith

frac_step_counts :
    (out : Bool) (c : ℕ) (s : Frac)
    → s.frac_digits + 1 < u32_mod
    → (frac_step out c s).frac_digits ≡ s.frac_digits + 1
unfolding frac_step
frac_step_counts out c s h = ground arith

-- At most nine digits after the point are all read.
pub frac_loop_in :
    (fs : List ℕ) (n : ℕ) (frac : ℕ)
    → AllDigits fs
    → frac < 10 ^ n
    → n + length fs ≤ 9
    → frac_loop false fs
        (record { frac = frac; scale = 10 ^ n; frac_digits = n; discarded_nonzero = false })
      ≡ (
        record {
          frac = numeral_from frac fs;
          scale = 10 ^ (n + length fs);
          frac_digits = n + length fs;
          discarded_nonzero = false;
        },
        [],
      )
frac_loop_in [] n frac h small le =
    unfold frac_loop in
    ap
      (λ k.
        (record { frac = frac; scale = 10 ^ k; frac_digits = k; discarded_nonzero = false }, []))
      (sym (add-zero n))
frac_loop_in (c ∷ fs) n frac h small le =
    let nine = pow-le-pow_right {n = 10} (omega arith) {i = n} {j = 8} (omega arith) in
    let s : Frac = record {
      frac = frac;
      scale = 10 ^ n;
      frac_digits = n;
      discarded_nonzero = false;
    } in
    frac_loop_go false c fs s h.0
    ∙ ap (frac_loop false fs) (
        frac_step_in c s h.0 (omega arith) (omega (arith, nine)) (omega (arith, nine))
        ∙ ap
            (λ k. record {
              frac = frac * 10 + (c - b'0');
              scale = k;
              frac_digits = n + 1;
              discarded_nonzero = false;
            })
            (sym (pow-suc 10 n))
        ∙ ap
            (λ k. record {
              frac = frac * 10 + (c - b'0');
              scale = 10 ^ suc n;
              frac_digits = k;
              discarded_nonzero = false;
            })
            (let e : n + 1 ≡ suc n = omega arith in e))
    ∙ frac_loop_in fs (suc n) (frac * 10 + (c - b'0')) h.1 (ground (arith, pow-suc 10 n, h.0))
        (omega arith)
    ∙ ap
        (λ k. (
          record {
            frac = numeral_from frac (c ∷ fs);
            scale = 10 ^ k;
            frac_digits = k;
            discarded_nonzero = false;
          },
          [],
        ))
        (let e : suc n + length fs ≡ n + suc (length fs) = omega arith in e)

-- The digits after the point are counted, whatever they are.
pub frac_loop_counts :
    (out : Bool) (fs : List ℕ) (s : Frac)
    → AllDigits fs
    → s.frac_digits + length fs < u32_mod
    → ((frac_loop out fs s).0.frac_digits ≡ s.frac_digits + length fs)
      × ((frac_loop out fs s).1 ≡ [])
frac_loop_counts out [] s h short = unfold frac_loop in (omega arith, refl)
frac_loop_counts out (c ∷ fs) s h short =
    let n = frac_step_counts out c s (omega arith) in
    let r = frac_loop_counts out fs (frac_step out c s) h.1 (omega (arith, n)) in
    rw (frac_loop_go out c fs s h.0) (omega (arith, n, r.0), r.1)
