-- ===== src/Link/Cobs/Decoding.antt =====
-- mc_link.c: what `cobs_decode` does with one block, and with a run of blocks in front of the rest.
use starrysky_mc_server.Prelude.{
  ℕ, zero, suc, ◌+◌, ◌%◌, ◌≤◌, ◌<◌, ◌≡◌, refl, sym, ◌∙◌, arith, List, [], ◌∷◌, ◌++◌, Option, some,
  length, take, drop, length-append, length-drop, take-append, drop-append, append_assoc,
  Option-cases, inl, inr, take_all, drop_all,
}
use starrysky_mc_server.Link.Cobs.{decode_block, decode_loop, cobs_decode}

decode_block-length :
    (code : ℕ) (src out : List ℕ) (cap : ℕ) (src' out' : List ℕ)
    → decode_block code src out cap ≡ some (src', out')
    → length src' ≤ length src
unfolding decode_block
decode_block-length code src out cap src' out' e =
    ground (arith, length-drop ((code + 255) % 256) src)

-- More rounds than bytes are as good as any.
decode_loop_rounds :
    (f g : ℕ) (src out : List ℕ) (cap : ℕ)
    → length src ≤ f
    → length src ≤ g
    → decode_loop f src out cap ≡ decode_loop g src out cap
unfolding decode_loop
decode_loop_rounds zero zero [] out cap p q = refl
decode_loop_rounds zero (suc g) [] out cap p q = refl
decode_loop_rounds (suc f) zero [] out cap p q = refl
decode_loop_rounds (suc f) (suc g) [] out cap p q = refl
decode_loop_rounds zero g (c ∷ src) out cap p q = absurd (omega arith)
decode_loop_rounds (suc f) zero (c ∷ src) out cap p q = absurd (omega arith)
decode_loop_rounds (suc f) (suc g) (c ∷ src) out cap p q =
    elim (Option-cases (decode_block c src out cap)) [
      | inl e ↦ rw (e, decode_loop)
      | inr ((src', out'), e) ↦
          let shorter = decode_block-length c src out cap src' out' e in
          rw (e, decode_loop) (decode_loop_rounds f g src' out' cap (omega arith) (omega arith))
    ]

decode_loop-suc :
    (f code : ℕ) (src out : List ℕ) (cap : ℕ) (src' out' : List ℕ)
    → decode_block code src out cap ≡ some (src', out')
    → decode_loop (suc f) (code ∷ src) out cap ≡ decode_loop f src' out' cap
unfolding decode_loop
decode_loop-suc f code src out cap src' out' e = rw (e, decode_loop)

-- The decoder on all of `src`, from the bytes `out`.
unfoldable pub decode_from : List ℕ → List ℕ → ℕ → Option (List ℕ)
decode_from src out cap = decode_loop (length src) src out cap

decode_from-block :
    (code : ℕ) (src out : List ℕ) (cap : ℕ) (src' out' : List ℕ)
    → decode_block code src out cap ≡ some (src', out')
    → decode_from (code ∷ src) out cap ≡ decode_from src' out' cap
unfolding decode_from
decode_from-block code src out cap src' out' e =
    decode_loop-suc (length src) code src out cap src' out' e
    ∙ decode_loop_rounds (length src) (length src') src' out' cap
        (decode_block-length code src out cap src' out' e) (omega arith)

-- A block that a zero ends, in front of something.
pub decode_short :
    (blk s out : List ℕ) (cap : ℕ)
    → length blk < 254
    → 0 < length s
    → length out + length blk + 1 ≤ cap
    → decode_from ((length blk + 1) ∷ (blk ++ s)) out cap
      ≡ decode_from s (out ++ (blk ++ (0 ∷ []))) cap
decode_short blk s out cap h ne room =
    decode_from-block (length blk + 1) (blk ++ s) out cap s (out ++ (blk ++ (0 ∷ []))) block
  where
    block : decode_block (length blk + 1) (blk ++ s) out cap ≡ some (s, out ++ (blk ++ (0 ∷ [])))
    block =
        let e : (length blk + 1 + 255) % 256 ≡ length blk = omega arith in
        unfold decode_block in
        rw (e, take-append (length blk) blk s refl, drop-append (length blk) blk s refl)
          (ground
            (arith, length-append blk s, length-append out blk, append_assoc out blk (0 ∷ [])))

-- A full block, in front of anything.
pub decode_full :
    (blk s out : List ℕ) (cap : ℕ)
    → length blk ≡ 254
    → length out + 254 ≤ cap
    → decode_from (255 ∷ (blk ++ s)) out cap ≡ decode_from s (out ++ blk) cap
decode_full blk s out cap h room = decode_from-block 255 (blk ++ s) out cap s (out ++ blk) block
  where
    block : decode_block 255 (blk ++ s) out cap ≡ some (s, out ++ blk)
    block =
        unfold decode_block in
        rw (take-append 254 blk s (sym h), drop-append 254 blk s (sym h))
          (ground (arith, length-append blk s))

-- The last block.
pub decode_last :
    (blk out : List ℕ) (cap : ℕ)
    → length blk < 254
    → length out + length blk ≤ cap
    → decode_from ((length blk + 1) ∷ blk) out cap ≡ some (out ++ blk)
decode_last blk out cap h room =
    decode_from-block (length blk + 1) blk out cap [] (out ++ blk) block
    ∙ (unfold decode_from decode_loop in refl)
  where
    block : decode_block (length blk + 1) blk out cap ≡ some ([], out ++ blk)
    block =
        let e : (length blk + 1 + 255) % 256 ≡ length blk = omega arith in
        let t : take (length blk) blk ≡ blk = take_all (length blk) blk (omega arith) in
        let d : drop (length blk) blk ≡ [] = drop_all (length blk) blk refl in
        unfold decode_block in rw (e, t, d) (ground arith)

pub decode_from_nil : (out : List ℕ) (cap : ℕ) → decode_from [] out cap ≡ some out
unfolding decode_from decode_loop
decode_from_nil out cap = refl

pub cobs_decode-eq : (src : List ℕ) (cap : ℕ) → cobs_decode src cap ≡ decode_from src [] cap
unfolding cobs_decode decode_from
cobs_decode-eq src cap = refl
