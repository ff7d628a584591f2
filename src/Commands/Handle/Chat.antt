-- ===== src/Commands/Handle/Chat.antt =====
-- core/src/mc_commands.c: what a chat line does, from its bytes to the result.
use mathlib.Core.Path.{subst}
use starrysky_mc_server.Commands.Decimal.Ticks.{parse_time_ticks_exact, parse_time_ticks_large}
use starrysky_mc_server.Commands.Decimal.{parse_time_ticks}
use starrysky_mc_server.Commands.Handle.Answers.{Answers, IsAction, command-Answers}
use starrysky_mc_server.Commands.Handle.Replies.{
  copy_chat_fits, time_result_fits, time_text, chat_line, plain_chat_fits, plain_chat_refused,
}
use starrysky_mc_server.Commands.Handle.{
  Context, chat_only, set_time, set_chat, plain_chat, time_result, time_ticks, handle_time,
  dispatch, command, handle_chat, unknown_command, reply,
}
use starrysky_mc_server.Commands.Tokens.Stored.{IsWord, join, split_spaces_lem, words-join}
use starrysky_mc_server.Commands.Tokens.{Split, token_eq}
use starrysky_mc_server.Prelude.{
  ℕ, ◌+◌, ◌<◌, ◌≤◌, true, false, ◌||◌, some, List, [], ◌∷◌, ◌≡◌, ◌≢◌, refl, ap, ◌∙◌, sym, length,
  leb, ltb, ◌==◌, if◌then◌else◌, get_or, take, take_all, codes, numeral, AllDigits, All, arith,
  Bool-cases, inl, inr, ne→==, ==→eq, pos→ne, le→ltb, leb→le, leb→lt, ltb→lt, ltb→le,
}

-- A line of one to five words is dispatched on them.
pub command_words :
    (ws : List (List ℕ)) (ctx : Context)
    → All IsWord ws
    → 0 < length ws
    → length ws ≤ 5
    → command (join ws) ctx ≡ dispatch ws (length ws) ctx
unfolding command
command_words ws ctx h some_word few =
    ap
      (λ (s : Split).
        if s.count == 0 || s.too_many then unknown_command else dispatch s.tokens s.count ctx)
      (split_spaces_lem (join ws) 5
        ∙ ap (λ l. record { tokens = take 5 l; count = length l; too_many = ltb 5 (length l) })
            (words-join ws h)
        ∙ ap (λ l. record { tokens = l; count = length ws; too_many = ltb 5 (length ws) })
            (take_all 5 ws few))
    ∙ rw (pos→ne (length ws) some_word, le→ltb 5 (length ws) few) refl

pub handle_chat_slash :
    (username message : List ℕ) (ctx : Context)
    → get_or message 0 0 ≡ b'/'
    → handle_chat username message ctx ≡ command message ctx
unfolding handle_chat
handle_chat_slash username message ctx h = rw h refl

-- A line that begins with a slash is answered: the call succeeds whatever follows the slash, the
-- reply fits its buffer with the final NUL, a time that it sets is at most 24000, and the
-- coordinates of a teleport are finite.
pub handle_chat-Answers :
    (username message : List ℕ) (ctx : Context)
    → get_or message 0 0 ≡ b'/'
    → Answers (handle_chat username message ctx)
handle_chat-Answers username message ctx h =
    rw (handle_chat_slash username message ctx h) (command-Answers message ctx)

handle_chat_text :
    (username message : List ℕ) (ctx : Context)
    → get_or message 0 0 ≢ b'/'
    → handle_chat username message ctx ≡ plain_chat username message
unfolding handle_chat
handle_chat_text username message ctx h = rw (ne→== (get_or message 0 0) b'/' h) refl

-- A line that does not begin with a slash succeeds exactly where the name and the text leave room
-- for the brackets, the space and the NUL, that is, where they have less than 157 bytes together.
pub handle_chat_plain :
    (username message : List ℕ) (ctx : Context)
    → get_or message 0 0 ≢ b'/'
    → (handle_chat username message ctx).0 ≡ ltb (length username + length message) 157
handle_chat_plain username message ctx h =
    rw (handle_chat_text username message ctx h)
      (elim (Bool-cases (ltb (length username + length message) 157)) [
        | inl e ↦ rw (e, plain_chat_fits username message (ltb→lt _ _ e)) refl
        | inr e ↦ rw (e) (plain_chat_refused username message (ltb→le _ _ e))
      ])

-- And then says it under the name.
pub handle_chat_says :
    (username message : List ℕ) (ctx : Context)
    → get_or message 0 0 ≢ b'/'
    → length username + length message < 157
    → handle_chat username message ctx
      ≡ (true, record { outcome = chat_only; chat = chat_line username message })
handle_chat_says username message ctx h short =
    handle_chat_text username message ctx h ∙ plain_chat_fits username message short

pub digits-spaceless : (s : List ℕ) → AllDigits s → All (λ c. (c == b' ') ≡ false) s
digits-spaceless [] h = tt
digits-spaceless (c ∷ s) h = (ground (arith, h.0), digits-spaceless s h.1)

digits-IsWord : (c : ℕ) (ds : List ℕ) → AllDigits (c ∷ ds) → IsWord (c ∷ ds)
digits-IsWord c ds h = ((λ e. cc), digits-spaceless (c ∷ ds) h)

token_differs : (c d : ℕ) (s t : List ℕ) → (c == d) ≡ false → token_eq (c ∷ s) (d ∷ t) ≡ false
unfolding token_eq
token_differs c d s t h = ground arith

time_IsWord : IsWord (codes "/time")
time_IsWord = ((λ e. cc), (refl, (refl, (refl, (refl, (refl, tt))))))

dispatch_time :
    (ws : List (List ℕ)) (n : ℕ) (ctx : Context)
    → dispatch (codes "/time" ∷ ws) n ctx ≡ handle_time (codes "/time" ∷ ws) n
unfolding dispatch token_eq
dispatch_time ws n ctx = refl

time_ticks_in : (v : ℕ) → v ≤ 24000 → time_ticks (some v) ≡ time_result v
unfolding time_ticks
time_ticks_in v h = ground arith

time_ticks_out :
    (v : ℕ) → 24000 < v → time_ticks (some v) ≡ set_chat (codes "Time must be 0..24000.")
unfolding time_ticks
time_ticks_out v h = ground arith

module _ (c : ℕ) (ds : List ℕ) (digits : AllDigits (c ∷ ds)) where
  not_a_name : (d : ℕ) (t : List ℕ) → b'9' < d → token_eq (c ∷ ds) (d ∷ t) ≡ false
  not_a_name d t h = token_differs c d ds t (ground (arith, digits.0))

  handle_time_number :
      handle_time (codes "/time" ∷ (c ∷ ds) ∷ []) 2 ≡ time_ticks (parse_time_ticks (c ∷ ds))
  unfolding handle_time
  handle_time_number =
      rw
        (
          not_a_name b'd' (codes "ay") (omega arith),
          not_a_name b'n' (codes "oon") (omega arith),
          not_a_name b'n' (codes "ight") (omega arith),
          not_a_name b'm' (codes "idnight") (omega arith),
        )
        refl

  time_ticks_exact :
      numeral (c ∷ ds) ≤ 24000
      → time_ticks (parse_time_ticks (c ∷ ds)) ≡ (
        true,
        record { outcome = set_time (numeral (c ∷ ds)); chat = time_text (numeral (c ∷ ds)) },
      )
  time_ticks_exact le =
      ap time_ticks (parse_time_ticks_exact c ds digits le)
      ∙ time_ticks_in (numeral (c ∷ ds)) le
      ∙ time_result_fits (numeral (c ∷ ds)) le

  time_ticks_refused :
      24000 < numeral (c ∷ ds)
      → time_ticks (parse_time_ticks (c ∷ ds))
        ≡ (true, record { outcome = chat_only; chat = codes "Time must be 0..24000." })
  unfolding set_chat
  time_ticks_refused gt =
      let (v, e, above, below) = parse_time_ticks_large c ds digits gt in
      ap time_ticks e
      ∙ time_ticks_out v above
      ∙ copy_chat_fits chat_only (codes "Time must be 0..24000.") (omega arith)

  -- `/time` with a decimal numeral of any length sets the time of day to its value where that is
  -- at most 24000, and refuses any other value.
  pub handle_chat_time :
      (username : List ℕ) (ctx : Context)
      → handle_chat username (join (codes "/time" ∷ (c ∷ ds) ∷ [])) ctx ≡ (
        true,
        (if leb (numeral (c ∷ ds)) 24000
            then record {
              outcome = set_time (numeral (c ∷ ds));
              chat = time_text (numeral (c ∷ ds));
            }
            else record { outcome = chat_only; chat = codes "Time must be 0..24000." }),
      )
  unfolding join
  handle_chat_time username ctx =
      handle_chat_slash username _ ctx refl
      ∙ command_words (codes "/time" ∷ (c ∷ ds) ∷ []) ctx
          (time_IsWord, (digits-IsWord c ds digits, tt)) (omega arith) (omega arith)
      ∙ dispatch_time ((c ∷ ds) ∷ []) 2 ctx
      ∙ handle_time_number
      ∙ elim (Bool-cases (leb (numeral (c ∷ ds)) 24000)) [
        | inl e ↦ rw e (time_ticks_exact (leb→le _ _ e))
        | inr e ↦ rw e (time_ticks_refused (leb→lt _ _ e))
      ]

plain_chat-outcome :
    (username message : List ℕ) → (plain_chat username message).1.outcome ≡ chat_only
unfolding plain_chat reply
plain_chat-outcome username message = refl

text-outcome :
    (username message : List ℕ) (ctx : Context)
    → (get_or message 0 0 == b'/') ≡ false
    → (handle_chat username message ctx).1.outcome ≡ chat_only
unfolding handle_chat
text-outcome username message ctx e = rw e (plain_chat-outcome username message)

-- Whatever the line, what it asks for is within bounds.
pub handle_chat-IsAction :
    (username message : List ℕ) (ctx : Context)
    → IsAction (handle_chat username message ctx).1.outcome
handle_chat-IsAction username message ctx = elim (Bool-cases (get_or message 0 0 == b'/')) [
  | inl e ↦ (handle_chat-Answers username message ctx (==→eq (get_or message 0 0) b'/' e)).action
  | inr e ↦ subst (IsAction) (sym (text-outcome username message ctx e)) tt
]
