-- ===== src/Commands/Handle/Teleport.antt =====
-- core/src/mc_commands.c: `/tp` with coordinates that `/pos` has printed.
use starrysky_mc_server.Commands.Decimal.{parse_decimal}
use starrysky_mc_server.Commands.Fixed.{double_to_fixed2, fixed2_max_scaled}
use starrysky_mc_server.Commands.Handle.Chat.{command_words, handle_chat_slash, digits-spaceless}
use starrysky_mc_server.Commands.Handle.Coordinates.{parse_decimal-fixed2_text}
use starrysky_mc_server.Commands.Handle.Replies.{copy_chat_fits}
use starrysky_mc_server.Commands.Handle.{
  Context, teleport, parse_three, teleport_to, handle_tp, dispatch, handle_chat,
}
use starrysky_mc_server.Commands.Text.Appends.{sign_text, fixed2_text}
use starrysky_mc_server.Commands.Text.Numbers.{decimal, decimal-AllDigits}
use starrysky_mc_server.Commands.Tokens.Stored.{IsWord, join}
use starrysky_mc_server.Commands.Tokens.{token_eq}
use starrysky_mc_server.Prelude.{
  ℕ, ◌≤◌, ◌/◌, Bool, true, false, not, ◌&&◌, some, List, [], ◌∷◌, ◌++◌, ◌≡◌, ◌≢◌, refl, ap, ◌∙◌,
  ◌==◌, if◌then◌else◌, codes, All, All-append, arith,
}

tp_IsWord : IsWord (codes "/tp")
tp_IsWord = ((λ e. cc), (refl, (refl, (refl, tt))))

dispatch_tp :
    (ws : List (List ℕ)) (n : ℕ) (ctx : Context)
    → dispatch (codes "/tp" ∷ ws) n ctx ≡ handle_tp (codes "/tp" ∷ ws) n ctx
unfolding dispatch token_eq
dispatch_tp ws n ctx = refl

abbrev Spaceless : List ℕ → Type 0
Spaceless = All (λ c. (c == b' ') ≡ false)

sign_text-Spaceless : (negative : Bool) (scaled : ℕ) → Spaceless (sign_text negative scaled)
sign_text-Spaceless negative scaled =
    elim (negative && not (scaled == 0)) as (λ b. Spaceless (if b then b'-' ∷ [] else [])) [
      | true ↦ (refl, tt)
      | false ↦ tt
    ]

snoc-ne-nil : (xs : List ℕ) (x : ℕ) → xs ++ (x ∷ []) ≢ []
snoc-ne-nil [] x e = cc
snoc-ne-nil (y ∷ xs) x e = cc

fixed2_text-IsWord : (negative : Bool) (scaled : ℕ) → IsWord (fixed2_text negative scaled)
unfolding fixed2_text
fixed2_text-IsWord negative scaled = (
  snoc-ne-nil _ _,
  snoc _ _
      (snoc _ _
        (snoc _ _
          (All-append _ (sign_text negative scaled) (decimal (scaled / 100))
            (sign_text-Spaceless negative scaled)
            (digits-spaceless (decimal (scaled / 100)) (decimal-AllDigits (scaled / 100))))
          refl)
        (ground arith))
      (ground arith),
)
  where
    snoc : (xs : List ℕ) (x : ℕ) → Spaceless xs → (x == b' ') ≡ false → Spaceless (xs ++ (x ∷ []))
    snoc xs x h e = All-append _ xs (x ∷ []) h (e, tt)

parse_three_eq :
    (a b c : List ℕ) (x y z : ℕ)
    → parse_decimal a ≡ some (x, false)
    → parse_decimal b ≡ some (y, false)
    → parse_decimal c ≡ some (z, false)
    → parse_three (codes "/tp" ∷ a ∷ b ∷ c ∷ []) ≡ some ((x, false), (y, false), (z, false))
unfolding parse_three
parse_three_eq a b c x y z ea eb ec = rw (parse_three, ea, eb, ec) refl

handle_tp_three :
    (a b c : List ℕ) (x y z : ℕ) (ctx : Context)
    → parse_decimal a ≡ some (x, false)
    → parse_decimal b ≡ some (y, false)
    → parse_decimal c ≡ some (z, false)
    → handle_tp (codes "/tp" ∷ a ∷ b ∷ c ∷ []) 4 ctx ≡ (
      true,
      record {
        outcome = teleport (record ctx.position { x = x; y = y; z = z });
        chat = codes "Teleported.";
      },
    )
unfolding handle_tp teleport_to
handle_tp_three a b c x y z ctx ea eb ec =
    ap (teleport_to ctx) (parse_three_eq a b c x y z ea eb ec)
    ∙ copy_chat_fits (teleport (record ctx.position { x = x; y = y; z = z })) (codes "Teleported.")
        (omega arith)

-- The hundredths that `/pos` shows of a coordinate.
abbrev pub Shows : ℕ → Bool → ℕ → Type 0
Shows bits negative scaled =
    double_to_fixed2 bits
    ≡ some (record { negative = negative && not (scaled == 0); scaled = scaled })

module _ (nx ny nz : Bool) (sx sy sz : ℕ) (hx : sx ≤ fixed2_max_scaled)
    (hy : sy ≤ fixed2_max_scaled) (hz : sz ≤ fixed2_max_scaled) where
  -- `/tp` with three coordinates of at most 30000000.00, written as `/pos` prints them with a
  -- sign and two decimals, teleports to coordinates that `/pos` shows as the same hundredths
  -- (without a sign where they are zero), and keeps the look.
  pub handle_chat-fixed2_text :
      (username : List ℕ) (ctx : Context)
      → (x : ℕ) × (y : ℕ) × (z : ℕ) × (handle_chat username
            (join (codes "/tp" ∷ fixed2_text nx sx ∷ fixed2_text ny sy ∷ fixed2_text nz sz ∷ []))
            ctx
          ≡ (
            true,
            record {
              outcome = teleport (record ctx.position { x = x; y = y; z = z });
              chat = codes "Teleported.";
            },
          ))
        × Shows x nx sx
        × Shows y ny sy
        × Shows z nz sz
  unfolding join
  handle_chat-fixed2_text username ctx =
      let (x, ex, shows_x) = parse_decimal-fixed2_text nx sx hx in
      let (y, ey, shows_y) = parse_decimal-fixed2_text ny sy hy in
      let (z, ez, shows_z) = parse_decimal-fixed2_text nz sz hz in
      let ws = fixed2_text nx sx ∷ fixed2_text ny sy ∷ fixed2_text nz sz ∷ [] in
      (
        x,
        y,
        z,
        handle_chat_slash username _ ctx refl
            ∙ command_words (codes "/tp" ∷ ws) ctx
                (
                  tp_IsWord,
                  (
                    fixed2_text-IsWord nx sx,
                    (fixed2_text-IsWord ny sy, (fixed2_text-IsWord nz sz, tt)),
                  ),
                )
                (omega arith) (omega arith)
            ∙ dispatch_tp ws 4 ctx
            ∙ handle_tp_three _ _ _ x y z ctx ex ey ez,
        shows_x,
        shows_y,
        shows_z,
      )
