-- ===== src/Server/Frames.antt =====
-- core/src/mc_server.c: whether the received bytes begin with a whole frame.
pub mod Agreement
use starrysky_mc_server.Prelude.{
  ℕ, zero, suc, ◌+◌, List, [], ◌∷◌, Bool, not, ◌||◌, Option, none, some, length, take, get_or, leb,
  ltb, ◌==◌, if◌then◌else◌, bit_and,
}
use starrysky_mc_server.Config.{max_packet_body, is_negative}
use starrysky_mc_server.Varint.{decode}
use starrysky_mc_server.Ringbuf.{add_size}

-- `mc_frame_status_t`, with `*frame_len` where it was set.
pub data FrameStatus : Type 0 where
  need_more : FrameStatus
  ready : ℕ → FrameStatus
  invalid : FrameStatus

-- What the byte at `i`, the last of the length, decides.
unfoldable pub judge : List ℕ → ℕ → FrameStatus
judge src i = elim (decode (take (i + 1) src)) [
  | none ↦ invalid
  | some (body_len, prefix_len) ↦
      if is_negative body_len || ltb max_packet_body body_len
      then invalid
      else if leb (add_size prefix_len body_len) (length src)
      then ready (add_size prefix_len body_len)
      else need_more
]

-- The loop over the bytes of the length from index `i` on, of which `n` are left to look at, and what
-- follows it.
unfoldable pub classify_loop : List ℕ → ℕ → ℕ → FrameStatus
classify_loop src i zero = if leb 5 (length src) then invalid else need_more
classify_loop src i (suc n) =
    let rest = classify_loop src (i + 1) n in
    if leb (length src) i
    then (if leb 5 (length src) then invalid else need_more)
    else if bit_and (get_or src i 0) 0x80 == 0
    then judge src i
    else rest

unfoldable pub classify_frame : List ℕ → FrameStatus
classify_frame src = classify_loop src 0 5
