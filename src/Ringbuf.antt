-- ===== src/Ringbuf.antt =====
-- core/src/mc_ringbuf.c: the byte ring that every queue of the program is.
pub mod Window
pub mod Bounds
pub mod Refine
pub mod Reads
pub mod Script
mod Tests
use starrysky_mc_server.Prelude.{
  ℕ, ◌+◌, ◌-◌, ◌%◌, List, [], ◌∷◌, Bool, true, false, Option, none, some,
}
use starrysky_mc_server.Prelude.{size_mod, ltb, leb, ◌==◌, if◌then◌else◌, get_or, set}
use starrysky_mc_server.Prelude.{zero, suc}

-- `mc_ringbuf_t`; `storage` is what `data` points to.
pub record Ringbuf : Type 0 where
  pub storage : List ℕ
  pub cap : ℕ
  pub head : ℕ
  pub tail : ℕ
  pub len : ℕ

-- `size_t` sums and differences.
abbrev pub add_size : ℕ → ℕ → ℕ
add_size a b = (a + b) % size_mod

abbrev pub sub_size : ℕ → ℕ → ℕ
sub_size a b = (a + size_mod - b) % size_mod

unfoldable pub init : List ℕ → ℕ → Ringbuf
init storage cap = record { storage = storage; cap = cap; head = 0; tail = 0; len = 0 }

-- `mc_ringbuf_len` is the field `len`.
unfoldable pub free : Ringbuf → ℕ
free rb = sub_size rb.cap rb.len

unfoldable pub push : Ringbuf → ℕ → Bool × Ringbuf
push rb byte = if rb.len == rb.cap then (false, rb) else (
  true,
  record rb {
    storage = set rb.storage rb.head byte;
    head = add_size rb.head 1 % rb.cap;
    len = add_size rb.len 1;
  },
)

-- The option is what goes through `byte`, `none` for a return of 0.
unfoldable pub pop : Ringbuf → Option ℕ × Ringbuf
pop rb = if rb.len == 0 then (none, rb) else (
  some (get_or rb.storage rb.tail 0),
  record rb { tail = add_size rb.tail 1 % rb.cap; len = sub_size rb.len 1 },
)

-- The list is `src[written .. len)`.
unfoldable pub write_loop : Ringbuf → List ℕ → ℕ → ℕ × Ringbuf
write_loop rb [] written = (written, rb)
write_loop rb (byte ∷ src) written =
    let (done, rb') = push rb byte in
    let rest = write_loop rb' src (written + 1) in if done then rest else (written, rb')

unfoldable pub write : Ringbuf → List ℕ → ℕ × Ringbuf
unfolding write_loop
write rb src = write_loop rb src 0

-- The bytes that `dst` receives, whose number is returned; `max_len` rounds at most.
unfoldable pub read : Ringbuf → ℕ → List ℕ × Ringbuf
read rb zero = ([], rb)
read rb (suc max_len) =
    let (byte, rb') = pop rb in
    let (bytes, rb'') = read rb' max_len in
    elim byte [ none ↦ ([], rb') | some b ↦ (b ∷ bytes, rb'') ]

unfoldable pub peek : Ringbuf → ℕ → Option ℕ
peek rb offset =
    if leb rb.len offset
    then none
    else some (get_or rb.storage (add_size rb.tail offset % rb.cap) 0)

unfoldable pub drop : Ringbuf → ℕ → Ringbuf
drop rb count =
    let n = if ltb rb.len count then rb.len else count in
    record rb { tail = add_size rb.tail n % rb.cap; len = sub_size rb.len n }
