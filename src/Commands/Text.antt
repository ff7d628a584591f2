-- ===== src/Commands/Text.antt =====
-- core/src/mc_commands.c: the text builder, which writes a reply of at most `cap - 1` bytes.
pub mod Numbers
pub mod Appends
use starrysky_mc_server.Config.{is_negative}
use starrysky_mc_server.Prelude.{
  ℕ, zero, suc, ◌+◌, ◌-◌, ◌/◌, ◌%◌, Bool, true, false, not, ◌&&◌, ◌||◌, List, [], ◌∷◌, ◌++◌, length,
  leb, ltb, ◌==◌, if◌then◌else◌, Act, ◌>>◌, success,
}

-- `text` is `buf[0 .. len)`; the byte after it is always the final NUL.
pub record Builder : Type 0 where
  pub cap : ℕ
  pub text : List ℕ

unfoldable pub builder_init : ℕ → Builder
builder_init cap = record { cap = cap; text = [] }

unfoldable pub append_char : ℕ → Act Builder
append_char ch b =
    if leb b.cap (length b.text + 1)
    then (false, b)
    else (true, record b { text = b.text ++ (ch ∷ []) })

unfoldable pub append_bytes : List ℕ → Act Builder
append_bytes text b =
    if leb b.cap (length text) || ltb (b.cap - length text - 1) (length b.text)
    then (false, b)
    else (true, record b { text = b.text ++ text })

-- A C string is the list of the bytes before its NUL.
unfoldable pub append_cstr : List ℕ → Act Builder
unfolding append_bytes
append_cstr text = append_bytes text

-- `while (value > 0)`: the digits, the last one first; the array holds ten.
unfoldable pub digits_reversed : ℕ → ℕ → List ℕ
digits_reversed zero value = []
digits_reversed (suc room) value = elim (value == 0) [
  | true ↦ []
  | false ↦ (b'0' + value % 10) ∷ digits_reversed room (value / 10)
]

-- `while (count > 0)`: the array is written from its end.
unfoldable pub append_backwards : List ℕ → Act Builder
unfolding append_char
append_backwards [] = success
append_backwards (d ∷ ds) = append_backwards ds >> append_char d

unfoldable pub append_u32 : ℕ → Act Builder
unfolding append_char append_backwards digits_reversed
append_u32 value =
    if value == 0 then append_char b'0' else append_backwards (digits_reversed 10 value)

-- `value` is the 32-bit pattern; `-(value + 1) + 1` on it is `2^32 - value`.
unfoldable pub append_i32 : ℕ → Act Builder
unfolding append_char append_u32
append_i32 value =
    if is_negative value
    then append_char b'-' >> append_u32 (4294967295 - value + 1)
    else append_u32 value

unfoldable pub append_fixed2_scaled : Bool → ℕ → Act Builder
unfolding append_char append_u32
append_fixed2_scaled negative scaled =
    (if negative && not (scaled == 0) then append_char b'-' else success)
    >> append_u32 (scaled / 100)
    >> append_char b'.'
    >> append_char (b'0' + scaled % 100 / 10)
    >> append_char (b'0' + scaled % 100 % 10)
