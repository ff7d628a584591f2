-- ===== src/Link/Cobs.antt =====
-- mc_link.c: the streaming COBS encoder, which patches each block's code byte in behind the block, and
-- the decoder.
pub mod Decoding
pub mod Blocks
pub mod Encoding
pub mod Streaming
use starrysky_mc_server.Prelude.{
  ℕ, zero, suc, ◌+◌, ◌-◌, ◌%◌, List, [], ◌∷◌, ◌++◌, Bool, true, false, not, ◌&&◌, ◌||◌, Option,
  none, some, length, set, take, drop, leb, ltb, ◌==◌, if◌then◌else◌, Act, ◌>>◌, success,
}
use starrysky_mc_server.Ringbuf.{add_size}

-- `cobs_stream_encoder_t`; `dst` is all of the output buffer.
pub record Encoder : Type 0 where
  pub dst : List ℕ
  pub dst_cap : ℕ
  pub write_index : ℕ
  pub code_index : ℕ
  pub code : ℕ
  pub block_open : Bool
  pub trailing_zero_pending : Bool

unfoldable pub open_block : Act Encoder
open_block e = if leb e.dst_cap e.write_index then (false, e) else (
  true,
  record e {
    code_index = e.write_index;
    write_index = add_size e.write_index 1;
    code = 1;
    block_open = true;
    trailing_zero_pending = false;
  },
)

-- `cobs_stream_init`; `none` for a return of 0.
unfoldable pub stream_init : List ℕ → ℕ → Option Encoder
stream_init dst dst_cap =
    if dst_cap == 0
    then none
    else some (record {
      dst = dst;
      dst_cap = dst_cap;
      write_index = 0;
      code_index = 0;
      code = 1;
      block_open = false;
      trailing_zero_pending = false;
    })

-- `encoder->dst[encoder->code_index] = encoder->code`, which ends a block.
abbrev pub patch_code : Encoder → Encoder
patch_code e = record e { dst = set e.dst e.code_index e.code }

-- The byte goes into the open block.
unfoldable pub put_byte : ℕ → Act Encoder
put_byte byte e =
    if byte == 0
    then (true, record (patch_code e) { block_open = false; trailing_zero_pending = true })
    else if leb e.dst_cap e.write_index
    then (false, e)
    else let e' = record e {
      dst = set e.dst e.write_index byte;
      write_index = add_size e.write_index 1;
      code = (e.code + 1) % 256;
    } in
      if e'.code == 0xff
      then (true, record (patch_code e') { block_open = false; trailing_zero_pending = false })
      else (true, e')

unfoldable pub write_byte : ℕ → Act Encoder
write_byte byte e = if e.block_open then put_byte byte e else (open_block >> put_byte byte) e

unfoldable pub stream_write : List ℕ → Act Encoder
stream_write [] = success
stream_write (byte ∷ src) = write_byte byte >> stream_write src

-- `cobs_stream_finish`; `*dst_len` is the `write_index` of the result.
unfoldable pub stream_finish : Act Encoder
stream_finish e =
    if e.block_open
    then (true, patch_code e)
    else if e.write_index == 0 || e.trailing_zero_pending
    then (open_block >> λ e'. (true, patch_code e')) e
    else (true, e)

-- One round of `cobs_decode`: the block that `code` begins, from the input behind the code and the
-- bytes written so far, to the rest of the input and the bytes written.
unfoldable pub decode_block : ℕ → List ℕ → List ℕ → ℕ → Option (List ℕ × List ℕ)
decode_block code src out dst_cap =
    let copy_len = (code + 255) % 256 in
    let out' = out ++ take copy_len src in
    let src' = drop copy_len src in
    if code == 0
    then none
    else if ltb (length src) copy_len
    then none
    else if ltb dst_cap (length out + copy_len)
    then none
    else if not (code == 0xff) && ltb 0 (length src')
    then if length out' == dst_cap then none else some (src', out' ++ (0 ∷ []))
    else some (src', out')

-- The loop; the first argument bounds the blocks, of which each takes a byte at least.
unfoldable pub decode_loop : ℕ → List ℕ → List ℕ → ℕ → Option (List ℕ)
decode_loop blocks [] out dst_cap = some out
decode_loop zero (code ∷ src) out dst_cap = none
decode_loop (suc blocks) (code ∷ src) out dst_cap = elim (decode_block code src out dst_cap) [
  | none ↦ none
  | some (src', out') ↦ decode_loop blocks src' out' dst_cap
]

unfoldable pub cobs_decode : List ℕ → ℕ → Option (List ℕ)
unfolding decode_loop decode_block
cobs_decode src dst_cap = decode_loop (length src) src [] dst_cap
