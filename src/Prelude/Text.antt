-- ===== src/Prelude/Text.antt =====
-- Text literals as bytes, and the values of decimal numerals.
use Prim.Native.Char.{code}
use Prim.Native.Nat.{ℕ, ◌+◌, ◌-◌, ◌*◌}
use Prim.Native.String.{String}
use mathlib.Core.Bool.{Bool, true, ◌&&◌}
use mathlib.Core.List.{List, [], ◌∷◌}
use mathlib.Core.Path.{◌≡◌}
use starrysky_mc_server.Prelude.Lists.{All}
use starrysky_mc_server.Prelude.Tests.{leb}

-- The bytes of a literal, which is ASCII wherever the program has one.
abbrev pub codes : String → List ℕ
codes String.[] = []
codes (String.◌∷◌ c s) = code c ∷ codes s

-- `ch >= '0' && ch <= '9'`.
abbrev pub is_digit : ℕ → Bool
is_digit c = leb b'0' c && leb c b'9'

-- The value of a numeral after `v`, its digits read from the left.
abbrev pub numeral_from : ℕ → List ℕ → ℕ
numeral_from v [] = v
numeral_from v (c ∷ s) = numeral_from (v * 10 + (c - b'0')) s

abbrev pub numeral : List ℕ → ℕ
numeral = numeral_from 0

abbrev pub AllDigits : List ℕ → Type 0
AllDigits = All (λ c. is_digit c ≡ true)
