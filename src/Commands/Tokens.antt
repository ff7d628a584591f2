-- ===== src/Commands/Tokens.antt =====
-- core/src/mc_commands.c: a line split at its spaces, and tokens compared with names.
pub mod Words
pub mod Stored
use starrysky_mc_server.Prelude.{
  ℕ, zero, suc, ◌+◌, ◌∷◌, Bool, true, false, ◌&&◌, List, [], ◌++◌, length, ltb, ◌==◌, if◌then◌else◌,
}

bytes_eq : List ℕ → List ℕ → Bool
bytes_eq [] [] = true
bytes_eq (x ∷ xs) (y ∷ ys) = x == y && bytes_eq xs ys
bytes_eq _ _ = false

-- A token is the list of the bytes it spans.
unfoldable pub token_eq : List ℕ → List ℕ → Bool
unfolding bytes_eq
token_eq token text = if length token == length text then bytes_eq token text else false

-- `while (*p == ' ')`.
unfoldable pub skip_spaces : List ℕ → List ℕ
skip_spaces [] = []
skip_spaces (c ∷ p) = if c == b' ' then skip_spaces p else c ∷ p

-- `while (*p != '\0' && *p != ' ')`: the token, and where `p` stops.
unfoldable pub scan_token : List ℕ → List ℕ × List ℕ
scan_token [] = ([], [])
scan_token (c ∷ p) =
    if c == b' ' then ([], c ∷ p) else (let (token, rest) = scan_token p in (c ∷ token, rest))

pub record Split : Type 0 where
  pub tokens : List (List ℕ)
  pub count : ℕ
  pub too_many : Bool

-- The end of a round, for a token at `start`.
unfoldable pub store_token : ℕ → List ℕ → Split → Split
store_token token_cap token s =
    if ltb s.count token_cap
    then record s { tokens = s.tokens ++ (token ∷ []); count = s.count + 1 }
    else record s { too_many = true; count = s.count + 1 }

-- The outer loop, on fuel.
unfoldable pub split_loop : ℕ → ℕ → List ℕ → Split → Split
unfolding skip_spaces scan_token store_token
split_loop zero token_cap p s = s
split_loop (suc fuel) token_cap p s = elim (skip_spaces p) [
  | [] ↦ s
  | c ∷ start ↦
      let (token, rest) = scan_token (c ∷ start) in
      split_loop fuel token_cap rest (store_token token_cap token s)
]

-- Each round consumes a byte, so a round for each byte is enough.
unfoldable pub split_spaces : List ℕ → ℕ → Split
unfolding split_loop
split_spaces text token_cap =
    split_loop (length text) token_cap text (record { tokens = []; count = 0; too_many = false })
