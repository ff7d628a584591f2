-- ===== src/Commands/Tokens/Words.antt =====
-- core/src/mc_commands.c: the split of a line against the words of the line.
use starrysky_mc_server.Prelude.{
  ℕ, zero, suc, ◌≤◌, true, false, List, [], ◌∷◌, ◌++◌, ◌≡◌, refl, ap, sym, ◌∙◌, length, ◌==◌,
  if◌then◌else◌, arith, Bool-cases, ◌⊎◌, inl, inr, append_assoc, append-nil,
}
use starrysky_mc_server.Commands.Tokens.{Split, skip_spaces, scan_token, store_token, split_loop}

-- The words of a line, read one byte at a time; `word` is the one under way.
unfoldable pub words_from : List ℕ → List ℕ → List (List ℕ)
words_from [] [] = []
words_from (w ∷ word) [] = (w ∷ word) ∷ []
words_from [] (c ∷ p) = words_from (if c == b' ' then [] else c ∷ []) p
words_from (w ∷ word) (c ∷ p) = elim (c == b' ') [
  | true ↦ (w ∷ word) ∷ words_from [] p
  | false ↦ words_from ((w ∷ word) ++ (c ∷ [])) p
]

unfoldable pub words : List ℕ → List (List ℕ)
unfolding words_from
words = words_from []

module _ (c : ℕ) (p : List ℕ) (space : (c == b' ') ≡ true) where
  pub word_ends : (w : ℕ) (word : List ℕ) → words_from (w ∷ word) (c ∷ p) ≡ (w ∷ word) ∷ words p
  unfolding words words_from
  word_ends w word = ground arith

  scan_ends : scan_token (c ∷ p) ≡ ([], c ∷ p)
  unfolding scan_token
  scan_ends = ground arith

  words_space : words (c ∷ p) ≡ words p
  unfolding words words_from
  words_space = ground arith

  skip_goes : skip_spaces (c ∷ p) ≡ skip_spaces p
  unfolding skip_spaces
  skip_goes = ground arith

module _ (c : ℕ) (p : List ℕ) (inside : (c == b' ') ≡ false) where
  pub word_grows :
      (w : ℕ) (word : List ℕ)
      → words_from (w ∷ word) (c ∷ p) ≡ words_from (w ∷ (word ++ (c ∷ []))) p
  unfolding words_from
  word_grows w word = ground arith

  scan_grows : scan_token (c ∷ p) ≡ (c ∷ (scan_token p).0, (scan_token p).1)
  unfolding scan_token
  scan_grows = ground arith

  skip_stops : skip_spaces (c ∷ p) ≡ c ∷ p
  unfolding skip_spaces
  skip_stops = ground arith

  pub words_starts : words (c ∷ p) ≡ words_from (c ∷ []) p
  unfolding words words_from
  words_starts = ground arith

words-skip_spaces : (p : List ℕ) → words (skip_spaces p) ≡ words p
words-skip_spaces [] = unfold skip_spaces in refl
words-skip_spaces (c ∷ p) = elim (Bool-cases (c == b' ')) [
  | inl e ↦ rw (skip_goes c p e, words_space c p e) (words-skip_spaces p)
  | inr e ↦ ap words (skip_stops c p e)
]

-- A word under way is completed by the token that the scan finds.
words_from-scan_token :
    (w : ℕ) (word p : List ℕ)
    → words_from (w ∷ word) p ≡ ((w ∷ word) ++ (scan_token p).0) ∷ words (scan_token p).1
words_from-scan_token w word [] =
    unfold words words_from scan_token in ap (λ t. t ∷ []) (sym (append-nil (w ∷ word)))
words_from-scan_token w word (c ∷ p) = elim (Bool-cases (c == b' ')) [
  | inl e ↦
      rw (word_ends c p e w word, scan_ends c p e, words_space c p e, append-nil (w ∷ word)) refl
  | inr e ↦
      rw (word_grows c p e w word, scan_grows c p e)
        (words_from-scan_token w (word ++ (c ∷ [])) p
          ∙ ap (λ t. (w ∷ t) ∷ words (scan_token p).1)
              (append_assoc word (c ∷ []) (scan_token p).0))
]

-- What the scan starts at is the first word.
words-scan_token :
    (c : ℕ) (p : List ℕ)
    → (c == b' ') ≡ false
    → words (c ∷ p) ≡ (scan_token (c ∷ p)).0 ∷ words (scan_token (c ∷ p)).1
words-scan_token c p e = rw (words_starts c p e, scan_grows c p e) (words_from-scan_token c [] p)

length-skip_spaces : (p : List ℕ) → length (skip_spaces p) ≤ length p
unfolding skip_spaces
length-skip_spaces [] = omega arith
length-skip_spaces (c ∷ p) = ground (arith, length-skip_spaces p)

length-scan_token : (p : List ℕ) → length (scan_token p).1 ≤ length p
unfolding scan_token
length-scan_token [] = omega arith
length-scan_token (c ∷ p) = ground (arith, length-scan_token p)

skip_spaces-inside :
    (p : List ℕ) {c : ℕ} {start : List ℕ} → skip_spaces p ≡ c ∷ start → (c == b' ') ≡ false
skip_spaces-inside [] e = unfold skip_spaces in cc
skip_spaces-inside (x ∷ p) e = elim (Bool-cases (x == b' ')) [
  | inl t ↦ skip_spaces-inside p (sym (skip_goes x p t) ∙ e)
  | inr t ↦ ground (arith, skip_stops x p t)
]

-- Storing words one after another.
unfoldable pub store_all : ℕ → List (List ℕ) → Split → Split
unfolding store_token
store_all token_cap [] s = s
store_all token_cap (t ∷ ts) s = store_all token_cap ts (store_token token_cap t s)

List-cases : (l : List ℕ) → (l ≡ []) ⊎ ((c : ℕ) × (t : List ℕ) × (l ≡ c ∷ t))
List-cases [] = inl refl
List-cases (c ∷ t) = inr (c, t, refl)

split_loop_step :
    (fuel token_cap : ℕ) (p : List ℕ) (s : Split) (c : ℕ) (start : List ℕ)
    → skip_spaces p ≡ c ∷ start
    → split_loop (suc fuel) token_cap p s
      ≡ split_loop fuel token_cap
          (scan_token (c ∷ start)).1
          (store_token token_cap (scan_token (c ∷ start)).0 s)
unfolding split_loop
split_loop_step fuel token_cap p s c start e = rw (split_loop, e) refl

split_loop_stop :
    (fuel token_cap : ℕ) (p : List ℕ) (s : Split)
    → skip_spaces p ≡ []
    → split_loop (suc fuel) token_cap p s ≡ s
unfolding split_loop
split_loop_stop fuel token_cap p s e = rw (split_loop, e) refl

pub split_loop_lem :
    (fuel token_cap : ℕ) (p : List ℕ) (s : Split)
    → length p ≤ fuel
    → split_loop fuel token_cap p s ≡ store_all token_cap (words p) s
unfolding store_all
split_loop_lem zero token_cap [] s h = unfold split_loop words words_from in refl
split_loop_lem zero token_cap (c ∷ p) s h = absurd (omega arith)
split_loop_lem (suc fuel) token_cap p s h = elim (List-cases (skip_spaces p)) [
  | inl e ↦
      split_loop_stop fuel token_cap p s e
      ∙ rw (← words-skip_spaces p, e) (unfold words words_from in refl)
  | inr (c, start, e) ↦
      split_loop_step fuel token_cap p s c start e
      ∙ split_loop_lem fuel token_cap (scan_token (c ∷ start)).1 _ (
          let inside = skip_spaces-inside p e in
          omega (
            arith,
            ap (λ t. length t.1) (scan_grows c start inside),
            length-scan_token start,
            ap length e,
            length-skip_spaces p,
          ))
      ∙ ap (λ ws. store_all token_cap ws s)
          (sym (
            sym (words-skip_spaces p)
            ∙ ap words e
            ∙ words-scan_token c start (skip_spaces-inside p e)))
]
