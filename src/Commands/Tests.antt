-- ===== src/Commands/Tests.antt =====
-- Chat lines and commands at concrete inputs.
use starrysky_mc_server.Commands.Decimal.Reading.{parse_decimal_reads, parse_decimal_out}
use starrysky_mc_server.Commands.Decimal.{parse_decimal, decimal_to_double}
use starrysky_mc_server.Commands.Handle.Answers.{Answers}
use starrysky_mc_server.Commands.Handle.Chat.{handle_chat-Answers, handle_chat_time}
use starrysky_mc_server.Commands.Handle.Replies.{time_text}
use starrysky_mc_server.Commands.Handle.Teleport.{handle_chat-fixed2_text, Shows}
use starrysky_mc_server.Commands.Handle.{
  teleport, set_time, default_context, default_position, handle_chat,
}
use starrysky_mc_server.Commands.Text.Appends.{fixed2_text}
use starrysky_mc_server.Commands.Tokens.Stored.{join, split_spaces_lem}
use starrysky_mc_server.Commands.Tokens.Words.{words}
use starrysky_mc_server.Commands.Tokens.{split_spaces}
use starrysky_mc_server.Prelude.{ℕ, true, false, some, [], ◌∷◌, ◌≡◌, refl, ap, codes, arith}

-- `/pos` at the default position.
pos_reply :
    (handle_chat (codes "bob") (codes "/pos") default_context).1.chat
    ≡ codes "Known position: x=0.50 y=32.00 z=0.50 yaw=0.00 pitch=0.00"
unfolding handle_chat
pos_reply = refl

time_reply :
    handle_chat (codes "bob") (codes "/time 13000") default_context
    ≡ (true, record { outcome = set_time 13000; chat = codes "Time set to 13000." })
unfolding handle_chat
time_reply = refl

too_many_tokens :
    (handle_chat (codes "bob") (codes "/tp 1 2 3 4 5") default_context).1.chat
    ≡ codes "Unknown command. Use /help."
unfolding handle_chat
too_many_tokens = refl

bits_of_two : parse_decimal (codes "-2.0") ≡ some (0xc000000000000000, false)
unfolding parse_decimal
bits_of_two = refl

just_past_the_limit : parse_decimal (codes "30000000.0000000001") ≡ some (0, true)
unfolding parse_decimal
just_past_the_limit = refl

handle_chat-Answers_example : Answers (handle_chat (codes "bob") (codes "/tp x") default_context)
handle_chat-Answers_example = handle_chat-Answers (codes "bob") (codes "/tp x") default_context refl

handle_chat_time_example :
    handle_chat (codes "bob") (join (codes "/time" ∷ codes "18000" ∷ [])) default_context
    ≡ (true, record { outcome = set_time 18000; chat = time_text 18000 })
handle_chat_time_example =
    handle_chat_time b'1' (codes "8000") (refl, (refl, (refl, (refl, (refl, tt))))) (codes "bob")
      default_context

split_spaces_lem_example : (split_spaces (codes " /tp  1 2 ") 5).count ≡ 3
unfolding words
split_spaces_lem_example = ap (λ s. s.count) (split_spaces_lem (codes " /tp  1 2 ") 5)

parse_decimal_reads_example :
    parse_decimal (codes "-12.5") ≡ some (decimal_to_double true 12 5 10, false)
parse_decimal_reads_example =
    parse_decimal_reads true b'1' (codes "2") b'5' [] (refl, (refl, tt)) (refl, tt) (omega arith)
      (omega arith) (omega arith)

parse_decimal_out_example : parse_decimal (codes "30000001.0") ≡ some (0, true)
parse_decimal_out_example =
    parse_decimal_out false b'3' (codes "0000001") b'0' []
      (refl, (refl, (refl, (refl, (refl, (refl, (refl, (refl, tt)))))))) (refl, tt) (omega arith)
      (omega arith)

handle_chat-fixed2_text_example :
    (x : ℕ) × (y : ℕ) × (z : ℕ) × (handle_chat
        (codes "bob")
        (codes "/tp 0.50 -3.25 30000000.00")
        default_context
      ≡ (
        true,
        record {
          outcome = teleport (record default_position { x = x; y = y; z = z });
          chat = codes "Teleported.";
        },
      ))
    × Shows x false 50
    × Shows y true 325
    × Shows z false 3000000000
unfolding join fixed2_text
handle_chat-fixed2_text_example =
    handle_chat-fixed2_text false true false 50 325 3000000000 (omega arith) (omega arith)
      (omega arith) (codes "bob") default_context
