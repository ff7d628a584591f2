-- ===== src/Prelude/Acts.antt =====
-- Calls in C that change an object and return whether they succeeded, and their chains by `&&`.
use mathlib.Core.Bool.{Bool, true, false}
use starrysky_mc_server.Prelude.Tests.{if◌then◌else◌}

abbrev pub Act {ℓ} : Type ℓ → Type ℓ
Act S = S → Bool × S

-- `m(s) && k(s)`, and `if (!m(s)) return 0; return k(s);`.
infixl 5 ◌>>◌
abbrev pub ◌>>◌ {ℓ} : {S : Type ℓ} → Act S → Act S → Act S
◌>>◌ m k s = let (ok, s') = m s in if ok then k s' else (false, s')

-- `return 1;` and `return 0;`.
abbrev pub success {ℓ} : {S : Type ℓ} → Act S
success s = (true, s)

abbrev pub failure {ℓ} : {S : Type ℓ} → Act S
failure s = (false, s)
