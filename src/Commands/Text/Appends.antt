-- ===== src/Commands/Text/Appends.antt =====
-- core/src/mc_commands.c: chains of appends write all of their text, or fail.
use starrysky_mc_server.Commands.Text.Numbers.{
  extend, backwards, decimal, append_char_fits, append_bytes_fits, length-decimal,
}
use starrysky_mc_server.Commands.Text.{
  Builder, append_char, append_bytes, append_cstr, append_backwards, digits_reversed, append_u32,
  append_i32, append_fixed2_scaled,
}
use starrysky_mc_server.Config.{is_negative}
use starrysky_mc_server.Prelude.{
  ℕ, ◌+◌, ◌/◌, ◌%◌, ◌<◌, ◌≤◌, Bool, true, false, not, ◌&&◌, List, [], ◌∷◌, ◌++◌, ◌≡◌, refl, ap, ◌∙◌,
  sym, length, ltb, ◌==◌, if◌then◌else◌, Act, ◌>>◌, success, arith, length-append, append_assoc,
  append-nil, Bool-cases, inl, inr,
}

-- `m` appends all of `t`, with room for the final NUL, or fails.
pub record Appends (m : Act Builder) (t : List ℕ) : Type 0 where
  pub fits : (b : Builder) → length b.text + length t < b.cap → m b ≡ extend b t
  pub refuses :
      (b : Builder) → length b.text < b.cap → b.cap ≤ length b.text + length t → (m b).0 ≡ false

pub append_char-Appends : (c : ℕ) → Appends (append_char c) (c ∷ [])
append_char-Appends c = record {
  fits = λ b h. append_char_fits b c (omega arith);
  refuses = λ b w h. unfold append_char in ground arith;
}

pub append_cstr-Appends : (t : List ℕ) → Appends (append_cstr t) t
append_cstr-Appends t = record {
  fits = λ b h. unfold append_cstr in append_bytes_fits b t h;
  refuses = λ b w h. unfold append_cstr append_bytes in ground arith;
}

module _ (m k : Act Builder) {s t : List ℕ} (first : Appends m s) (second : Appends k t) where
  chain_fits :
      (b : Builder) → length b.text + length (s ++ t) < b.cap → (m >> k) b ≡ extend b (s ++ t)
  chain_fits b h = rw (first.fits b (omega (arith, length-append s t))) (
      second.fits (record b { text = b.text ++ s })
        (omega (arith, length-append s t, length-append b.text s))
      ∙ ap (λ l. (true, record b { text = l })) (append_assoc b.text s t))

  chain_refuses :
      (b : Builder)
      → length b.text < b.cap
      → b.cap ≤ length b.text + length (s ++ t)
      → ((m >> k) b).0 ≡ false
  chain_refuses b w h = elim (Bool-cases (ltb (length b.text + length s) b.cap)) [
    | inl room ↦ rw (first.fits b (ground arith)) (
        second.refuses (record b { text = b.text ++ s }) (ground (arith, length-append b.text s))
          (omega (arith, length-append s t, length-append b.text s)))
    | inr none_left ↦ ground (arith, first.refuses b)
  ]

  pub chain-Appends : Appends (m >> k) (s ++ t)
  chain-Appends = record { fits = chain_fits; refuses = chain_refuses }

success-Appends : Appends success []
success-Appends = record {
  fits = λ b h. ap (λ l. (true, record b { text = l })) (sym (append-nil b.text));
  refuses = λ b w h. absurd (omega arith);
}

backwards-Appends : (ds : List ℕ) → Appends (append_backwards ds) (backwards ds)
unfolding append_backwards
backwards-Appends [] = success-Appends
backwards-Appends (d ∷ ds) = chain-Appends _ _ (backwards-Appends ds) (append_char-Appends d)

pub append_u32-Appends : (value : ℕ) → Appends (append_u32 value) (decimal value)
unfolding append_u32 decimal
append_u32-Appends value =
    elim (value == 0)
      as (λ z.
        Appends (if z then append_char b'0' else append_backwards (digits_reversed 10 value))
          (if z then b'0' ∷ [] else backwards (digits_reversed 10 value))) [
            | true ↦ append_char-Appends b'0'
            | false ↦ backwards-Appends (digits_reversed 10 value)
          ]

append_i32_pos : (value : ℕ) → is_negative value ≡ false → append_i32 value ≡ append_u32 value
unfolding append_i32
append_i32_pos value h = rw h refl

pub append_i32-Appends :
    (value : ℕ) → is_negative value ≡ false → Appends (append_i32 value) (decimal value)
append_i32-Appends value h = rw (append_i32_pos value h) (append_u32-Appends value)

-- The sign of a number in hundredths.
abbrev pub sign_text : Bool → ℕ → List ℕ
sign_text negative scaled = if negative && not (scaled == 0) then b'-' ∷ [] else []

sign-Appends :
    (negative : Bool) (scaled : ℕ)
    → Appends
        (if negative && not (scaled == 0) then append_char b'-' else success)
        (sign_text negative scaled)
sign-Appends negative scaled =
    elim (negative && not (scaled == 0))
      as (λ z. Appends (if z then append_char b'-' else success) (if z then b'-' ∷ [] else [])) [
        | true ↦ append_char-Appends b'-'
        | false ↦ success-Appends
      ]

-- A number in hundredths with its two decimals.
unfoldable pub fixed2_text : Bool → ℕ → List ℕ
unfolding decimal
fixed2_text negative scaled =
    (((sign_text negative scaled ++ decimal (scaled / 100)) ++ (b'.' ∷ []))
      ++ ((b'0' + scaled % 100 / 10) ∷ []))
    ++ ((b'0' + scaled % 100 % 10) ∷ [])

pub append_fixed2_scaled-Appends :
    (negative : Bool) (scaled : ℕ)
    → Appends (append_fixed2_scaled negative scaled) (fixed2_text negative scaled)
unfolding append_fixed2_scaled fixed2_text
append_fixed2_scaled-Appends negative scaled =
    chain-Appends _ _
      (chain-Appends _ _
        (chain-Appends _ _
          (chain-Appends _ _ (sign-Appends negative scaled) (append_u32-Appends (scaled / 100)))
          (append_char-Appends b'.'))
        (append_char-Appends (b'0' + scaled % 100 / 10)))
      (append_char-Appends (b'0' + scaled % 100 % 10))

length-sign_text : (negative : Bool) (scaled : ℕ) → length (sign_text negative scaled) ≤ 1
length-sign_text negative scaled = ground arith

pub length-fixed2_text :
    (negative : Bool) (scaled : ℕ)
    → scaled ≤ 3_000_000_000
    → length (fixed2_text negative scaled) ≤ 12
unfolding fixed2_text
length-fixed2_text negative scaled h =
    let sign = sign_text negative scaled in
    let whole = decimal (scaled / 100) in
    let tens : ℕ = b'0' + scaled % 100 / 10 in
    omega (
      arith,
      length-sign_text negative scaled,
      length-decimal 7 (scaled / 100) (omega arith),
      length-append sign whole,
      length-append (sign ++ whole) (b'.' ∷ []),
      length-append ((sign ++ whole) ++ (b'.' ∷ [])) (tens ∷ []),
      length-append (((sign ++ whole) ++ (b'.' ∷ [])) ++ (tens ∷ []))
          ((b'0' + scaled % 100 % 10) ∷ []),
    )
