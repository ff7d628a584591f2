-- ===== src/Commands/Tokens/Stored.antt =====
-- core/src/mc_commands.c: the token array holds the first words of the line, and all are counted.
use starrysky_mc_server.Prelude.{
  ℕ, zero, suc, ◌<◌, ◌≤◌, false, List, [], ◌∷◌, ◌++◌, ◌≡◌, ◌≢◌, refl, ap, sym, ◌∙◌, length, ltb,
  ◌==◌, take, take-nil, arith, append_assoc, append-nil, length-append, All,
}
use starrysky_mc_server.Commands.Tokens.{Split, store_token, split_spaces}
use starrysky_mc_server.Commands.Tokens.Words.{
  words, words_from, store_all, split_loop_lem, word_grows, word_ends, words_starts,
}

-- The state after the words of `pre`.
abbrev stored : ℕ → List (List ℕ) → Split
stored token_cap pre = record {
  tokens = take token_cap pre;
  count = length pre;
  too_many = ltb token_cap (length pre);
}

take_room :
    (n : ℕ) (pre : List (List ℕ)) (t : List ℕ)
    → length pre < n
    → take n pre ++ (t ∷ []) ≡ take n (pre ++ (t ∷ []))
take_room zero pre t h = absurd (omega arith)
take_room (suc zero) [] t h = refl
take_room (suc (suc n)) [] t h = refl
take_room (suc n) (x ∷ pre) t h = ap (λ l. x ∷ l) (take_room n pre t (omega arith))

take_full :
    (n : ℕ) (pre : List (List ℕ)) (t : List ℕ)
    → n ≤ length pre
    → take n pre ≡ take n (pre ++ (t ∷ []))
take_full zero pre t h = refl
take_full (suc n) [] t h = absurd (omega arith)
take_full (suc n) (x ∷ pre) t h = ap (λ l. x ∷ l) (take_full n pre t (omega arith))

store_token-stored :
    (token_cap : ℕ) (pre : List (List ℕ)) (t : List ℕ)
    → store_token token_cap t (stored token_cap pre) ≡ stored token_cap (pre ++ (t ∷ []))
unfolding store_token
store_token-stored token_cap pre t =
    ground (arith, take_room token_cap pre t, take_full token_cap pre t, length-append pre (t ∷ []))

store_all-stored :
    (token_cap : ℕ) (pre ts : List (List ℕ))
    → store_all token_cap ts (stored token_cap pre) ≡ stored token_cap (pre ++ ts)
unfolding store_all
store_all-stored token_cap pre [] = ap (stored token_cap) (sym (append-nil pre))
store_all-stored token_cap pre (t ∷ ts) =
    ap (store_all token_cap ts) (store_token-stored token_cap pre t)
    ∙ store_all-stored token_cap (pre ++ (t ∷ [])) ts
    ∙ ap (stored token_cap) (append_assoc pre (t ∷ []) ts)

-- Splitting a text at spaces counts its words, stores the first of them up to the capacity, and
-- reports too many exactly where there are more than that.
pub split_spaces_lem :
    (text : List ℕ) (token_cap : ℕ)
    → split_spaces text token_cap ≡ record {
      tokens = take token_cap (words text);
      count = length (words text);
      too_many = ltb token_cap (length (words text));
    }
unfolding split_spaces
split_spaces_lem text token_cap =
    split_loop_lem (length text) token_cap text _ (omega arith)
    ∙ ap (store_all token_cap (words text)) (
        ap (λ t. record { tokens = t; count = 0; too_many = false })
          (sym (take-nil (List ℕ) token_cap))
        ∙ ground arith)
    ∙ store_all-stored token_cap [] (words text)

-- `w` is not empty and holds no space.
abbrev pub IsWord : List ℕ → Type 0
IsWord w = (w ≢ []) × All (λ c. (c == b' ') ≡ false) w

-- The words with one space between them.
unfoldable pub join : List (List ℕ) → List ℕ
join [] = []
join (w ∷ []) = w
join (w ∷ v ∷ ws) = w ++ (b' ' ∷ join (v ∷ ws))

words_from-append :
    (w : ℕ) (word t rest : List ℕ)
    → All (λ c. (c == b' ') ≡ false) t
    → words_from (w ∷ word) (t ++ rest) ≡ words_from (w ∷ (word ++ t)) rest
words_from-append w word [] rest h = ap (λ l. words_from (w ∷ l) rest) (sym (append-nil word))
words_from-append w word (c ∷ t) rest h =
    word_grows c (t ++ rest) h.0 w word
    ∙ words_from-append w (word ++ (c ∷ [])) t rest h.1
    ∙ ap (λ l. words_from (w ∷ l) rest) (append_assoc word (c ∷ []) t)

words-append :
    (w : ℕ) (word rest : List ℕ)
    → All (λ c. (c == b' ') ≡ false) (w ∷ word)
    → words ((w ∷ word) ++ rest) ≡ words_from (w ∷ word) rest
words-append w word rest h =
    words_starts w (word ++ rest) h.0 ∙ words_from-append w [] word rest h.1

-- A line built from words is split into those words.
pub words-join : (ws : List (List ℕ)) → All IsWord ws → words (join ws) ≡ ws
unfolding join
words-join [] h = unfold words words_from in refl
words-join ([] ∷ ws) h = absurd (h.0.0 refl)
words-join ((w ∷ word) ∷ []) h =
    ap words (sym (append-nil (w ∷ word)))
    ∙ words-append w word [] h.0.1
    ∙ unfold words_from in refl
words-join ((w ∷ word) ∷ v ∷ ws) h =
    words-append w word (b' ' ∷ join (v ∷ ws)) h.0.1
    ∙ word_ends b' ' (join (v ∷ ws)) (refl) w word
    ∙ ap (λ l. (w ∷ word) ∷ l) (words-join (v ∷ ws) h.1)
