-- ===== src/Server/Body.antt =====
-- core/src/mc_server.c: the readers of packet bodies. A reader returns the value and the new `*pos`, or
-- `none` for a return of 0. A float is its bit pattern.
pub mod Bounds
use starrysky_mc_server.Prelude.{
  ℕ, zero, suc, ◌+◌, ◌-◌, ◌%◌, List, [], ◌∷◌, Bool, true, false, not, ◌||◌, Option, none, some,
  length, get_or, take, drop, leb, ltb, ◌==◌, if◌then◌else◌, bit_or, shl, u32_mod,
}
use starrysky_mc_server.Config.{is_negative}
use starrysky_mc_server.Varint.{decode}
use starrysky_mc_server.Ringbuf.{add_size}

abbrev pub Reader : Type 0 → Type 0
Reader A = List ℕ → ℕ → Option (A × ℕ)

unfoldable pub read_varint_body : Reader ℕ
read_varint_body body pos = if leb (length body) pos then none else elim (decode (drop pos body)) [
  | none ↦ none
  | some (value, used) ↦ some (value, add_size pos used)
]

-- The string without the terminating zero that is written behind it.
unfoldable pub read_string_body : ℕ → Reader (List ℕ)
read_string_body dst_cap body pos = elim (read_varint_body body pos) [
  | none ↦ none
  | some (len, pos') ↦
      if is_negative len
      then none
      else if leb dst_cap len || ltb (length body) (add_size pos' len)
      then none
      else some (take len (drop pos' body), add_size pos' len)
]

unfoldable pub bytes_have_c0_control : List ℕ → Bool
bytes_have_c0_control [] = false
bytes_have_c0_control (b ∷ bytes) = ltb b 0x20 || bytes_have_c0_control bytes

unfoldable pub read_chat_body : ℕ → Reader (List ℕ)
read_chat_body dst_cap body pos = elim (read_varint_body body pos) [
  | none ↦ none
  | some (len, pos') ↦
      if is_negative len
      then none
      else if leb dst_cap len || ltb (length body) (add_size pos' len)
      then none
      else if bytes_have_c0_control (take len (drop pos' body))
      then none
      else some (take len (drop pos' body), add_size pos' len)
]

unfoldable pub read_bool_body : Reader ℕ
read_bool_body body pos =
    if leb (length body) pos
    then none
    else some ((if get_or body pos 0 == 0 then 0 else 1), add_size pos 1)

unfoldable pub read_u32_body : Reader ℕ
read_u32_body body pos =
    let at = λ (i : ℕ). get_or body (pos + i) 0 in
    if ltb (length body) pos || ltb (length body - pos) 4
    then none
    else some (
      bit_or (bit_or (bit_or (shl (at 0) 24) (shl (at 1) 16)) (shl (at 2) 8)) (at 3),
      add_size pos 4,
    )

-- The loop of `read_u64_body`, over the bytes that are left.
unfoldable pub gather : List ℕ → ℕ → ℕ
gather [] v = v
gather (b ∷ bytes) v = gather bytes (bit_or (shl v 8 % 18446744073709551616) b)

unfoldable pub read_u64_body : Reader ℕ
read_u64_body body pos =
    if ltb (length body) pos || ltb (length body - pos) 8
    then none
    else some (gather (take 8 (drop pos body)) 0, add_size pos 8)

unfoldable pub read_f32_body : Reader ℕ
read_f32_body body pos = read_u32_body body pos

unfoldable pub read_f64_body : Reader ℕ
read_f64_body body pos = read_u64_body body pos
