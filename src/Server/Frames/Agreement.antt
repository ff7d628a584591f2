-- ===== src/Server/Frames/Agreement.antt =====
-- core/src/mc_server.c: `classify_frame` agrees with `mc_packet_try_read`.
use starrysky_mc_server.Prelude.{
  ℕ, zero, suc, ◌+◌, ◌%◌, ◌≤◌, ◌<◌, ◌≡◌, refl, ap, sym, ◌∙◌, arith, List, [], ◌∷◌, ◌++◌, true,
  false, ◌||◌, none, some, length, take, drop, get_or, leb, ltb, ◌==◌, bit_and, bit_or, bit_and-top,
  shl, u32_mod, length-append, append_assoc, append-nil, take-append, get_or-append, All,
  All-append, IsByte, Bool-cases, Option-cases, inl, inr, leb→le, leb→lt,
}
use mathlib.Core.Path.{subst}
use starrysky_mc_server.Config.{max_packet_body, is_negative}
use starrysky_mc_server.Varint.{decode, decode_loop}
use starrysky_mc_server.Varint.Input.{decode_five_continued}
use starrysky_mc_server.Ringbuf.{add_size}
use starrysky_mc_server.Packet.Frame.{Packet, try_read}
use starrysky_mc_server.Server.Frames.{
  FrameStatus, need_more, ready, invalid, judge, classify_loop, classify_frame,
}

-- Nothing behind the last byte of a VarInt is looked at.
decode_loop_stops :
    (front rest : List ℕ) (t i res shift : ℕ)
    → (bit_and t 0x80 == 0) ≡ true
    → decode_loop (front ++ (t ∷ rest)) i res shift ≡ decode_loop (front ++ (t ∷ [])) i res shift
unfolding decode_loop
decode_loop_stops [] rest t i res shift h = rw h refl
decode_loop_stops (b ∷ front) rest t i res shift h =
    rw
      (decode_loop_stops front rest t (i + 1) (bit_or res (shl (bit_and b 0x7f) shift % u32_mod))
        (shift + 7) h)
      refl

decode_stops :
    (front rest : List ℕ) (t : ℕ)
    → (bit_and t 0x80 == 0) ≡ true
    → decode (front ++ (t ∷ rest)) ≡ decode (front ++ (t ∷ []))
unfolding decode
decode_stops front rest t h = decode_loop_stops front rest t 0 0 0 h

-- A byte of a VarInt that is not the last.
abbrev IsContinued : ℕ → Type 0
IsContinued b = (128 ≤ b) × (b < 256)

continued : (b : ℕ) → IsByte b → (bit_and b 0x80 == 0) ≡ false → IsContinued b
continued b h e = ground (arith, bit_and-top b h)

try_read_refused :
    (src : List ℕ) (v used : ℕ)
    → decode src ≡ some (v, used)
    → (is_negative v || ltb max_packet_body v) ≡ true
    → try_read src ≡ none
unfolding try_read
try_read_refused src v used d h = ground arith

try_read_undecoded : (src : List ℕ) → decode src ≡ none → try_read src ≡ none
unfolding try_read
try_read_undecoded src d = ground arith

try_read_whole :
    (src : List ℕ) (v used : ℕ)
    → decode src ≡ some (v, used)
    → (is_negative v || ltb max_packet_body v) ≡ false
    → add_size used v ≤ length src
    → try_read src ≡ some (record { body = take v (drop used src); frame_len = add_size used v })
unfolding try_read
try_read_whole src v used d h fits = ground arith

judge-none : (src : List ℕ) (i : ℕ) → decode (take (i + 1) src) ≡ none → judge src i ≡ invalid
unfolding judge
judge-none src i e = ground arith

judge_bad :
    (src : List ℕ) (i v used : ℕ)
    → decode (take (i + 1) src) ≡ some (v, used)
    → (is_negative v || ltb max_packet_body v) ≡ true
    → judge src i ≡ invalid
unfolding judge
judge_bad src i v used e h = ground arith

judge_whole :
    (src : List ℕ) (i v used : ℕ)
    → decode (take (i + 1) src) ≡ some (v, used)
    → (is_negative v || ltb max_packet_body v) ≡ false
    → add_size used v ≤ length src
    → judge src i ≡ ready (add_size used v)
unfolding judge
judge_whole src i v used e h fits = ground arith

judge_short :
    (src : List ℕ) (i v used : ℕ)
    → decode (take (i + 1) src) ≡ some (v, used)
    → (is_negative v || ltb max_packet_body v) ≡ false
    → length src < add_size used v
    → judge src i ≡ need_more
unfolding judge
judge_short src i v used e h short = ground arith

-- What a status says of the reader: it finds a frame of that length; it finds none, whatever bytes
-- follow; or it finds none yet.
unfoldable pub Agrees : List ℕ → List ℕ → FrameStatus → Type 0
Agrees src more (ready n) = (p : Packet) × (try_read src ≡ some p) × (p.frame_len ≡ n)
Agrees src more invalid = try_read (src ++ more) ≡ none
Agrees src more need_more = try_read src ≡ none

try_read_short :
    (src : List ℕ) (v used : ℕ)
    → decode src ≡ some (v, used)
    → length src < add_size used v
    → try_read src ≡ none
unfolding try_read
try_read_short src v used d short = ground arith

judge-Agrees :
    (front rest more : List ℕ) (t : ℕ)
    → (bit_and t 0x80 == 0) ≡ true
    → Agrees (front ++ (t ∷ rest)) more (judge (front ++ (t ∷ rest)) (length front))
unfolding Agrees
judge-Agrees front rest more t h =
    let src = front ++ (t ∷ rest) in
    let i = length front in
    let head = front ++ (t ∷ []) in
    let behind = append_assoc front (t ∷ []) rest in
    let n : i + 1 ≡ length head = sym (length-append front (t ∷ [])) in
    let here : take (i + 1) src ≡ head =
      ap (take (i + 1)) (sym behind) ∙ take-append (i + 1) head rest n in
    let whole : decode src ≡ decode head = decode_stops front rest t h in
    let extended : decode (src ++ more) ≡ decode head =
      ap decode (append_assoc front (t ∷ rest) more) ∙ decode_stops front (rest ++ more) t h in
    elim (Option-cases (decode head)) [
      | inl d ↦
          rw (judge-none src i (ap decode here ∙ d))
            (try_read_undecoded (src ++ more) (extended ∙ d))
      | inr ((v, used), d) ↦ elim (Bool-cases (is_negative v || ltb max_packet_body v)) [
        | inl bad ↦
            rw (judge_bad src i v used (ap decode here ∙ d) bad)
              (try_read_refused (src ++ more) v used (extended ∙ d) bad)
        | inr good ↦ elim (Bool-cases (leb (add_size used v) (length src))) [
          | inl fits ↦
              let f : add_size used v ≤ length src = leb→le _ _ fits in
              rw (judge_whole src i v used (ap decode here ∙ d) good f) (
                record { body = take v (drop used src); frame_len = add_size used v },
                try_read_whole src v used (whole ∙ d) good f,
                refl,
              )
          | inr short ↦
              let s : length src < add_size used v = leb→lt _ _ short in
              rw (judge_short src i v used (ap decode here ∙ d) good s)
                (try_read_short src v used (whole ∙ d) s)
        ]
      ]
    ]

decode_loop_unfinished :
    (src : List ℕ) (i res shift : ℕ) → All IsContinued src → decode_loop src i res shift ≡ none
unfolding decode_loop
decode_loop_unfinished [] i res shift h = refl
decode_loop_unfinished (b ∷ src) i res shift h =
    let t : (bit_and b 0x80 == 0) ≡ false = ground (arith, bit_and-top b, h.0) in
    rw
      (
        t,
        decode_loop_unfinished src (i + 1) (bit_or res (shl (bit_and b 0x7f) shift % u32_mod))
            (shift + 7) h.1,
      )
      (ground arith)

decode_unfinished : (src : List ℕ) → All IsContinued src → decode src ≡ none
unfolding decode
decode_unfinished src h = decode_loop_unfinished src 0 0 0 h

classify_loop_ends :
    (src : List ℕ) (i n : ℕ) → length src ≤ i → length src < 5 → classify_loop src i n ≡ need_more
unfolding classify_loop
classify_loop_ends src i zero h k = ground arith
classify_loop_ends src i (suc n) h k = ground arith

classify_loop_fifth : (src : List ℕ) (i : ℕ) → 5 ≤ length src → classify_loop src i 0 ≡ invalid
unfolding classify_loop
classify_loop_fifth src i h = ground arith

classify_loop_judges :
    (src : List ℕ) (i n : ℕ)
    → i < length src
    → (bit_and (get_or src i 0) 0x80 == 0) ≡ true
    → classify_loop src i (suc n) ≡ judge src i
unfolding classify_loop
classify_loop_judges src i n h t = rw t (ground arith)

classify_loop_goes_on :
    (src : List ℕ) (i n : ℕ)
    → i < length src
    → (bit_and (get_or src i 0) 0x80 == 0) ≡ false
    → classify_loop src i (suc n) ≡ classify_loop src (i + 1) n
unfolding classify_loop
classify_loop_goes_on src i n h t = rw t (ground arith)

classify_loop-Agrees :
    (n : ℕ) (front rest more : List ℕ)
    → n + length front ≡ 5
    → All IsContinued front
    → All IsByte rest
    → Agrees (front ++ rest) more (classify_loop (front ++ rest) (length front) n)
unfolding Agrees
classify_loop-Agrees zero front rest more five c h =
    let none_there =
      ap decode (append_assoc front rest more)
      ∙ decode_five_continued front (rest ++ more) c (omega arith) in
    rw
      (classify_loop_fifth (front ++ rest) (length front) (omega (arith, length-append front rest)))
      (try_read_undecoded ((front ++ rest) ++ more) none_there)
classify_loop-Agrees (suc n) front [] more five c h =
    let e = length-append front [] in
    rw
      (classify_loop_ends (front ++ []) (length front) (suc n) (omega (arith, e))
        (omega (arith, e)))
      (try_read_undecoded (front ++ []) (ap decode (append-nil front) ∙ decode_unfinished front c))
classify_loop-Agrees (suc n) front (b ∷ rest) more five c h =
    let src = front ++ (b ∷ rest) in
    let i = length front in
    let inside : i < length src = omega (arith, length-append front (b ∷ rest)) in
    let at : get_or src i 0 ≡ b = get_or-append 0 front (b ∷ rest) i 0 (omega arith) in
    elim (Bool-cases (bit_and b 0x80 == 0)) [
      | inl last ↦
          rw (classify_loop_judges src i n inside (ap (λ k. bit_and k 0x80 == 0) at ∙ last))
            (judge-Agrees front rest more b last)
      | inr goes_on ↦
          let next = front ++ (b ∷ []) in
          let more_front = All-append IsContinued front (b ∷ []) c (continued b h.0 goes_on, tt) in
          let size : length next ≡ i + 1 = length-append front (b ∷ []) in
          let rec = classify_loop-Agrees n next rest more (omega (arith, size)) more_front h.1 in
          rw (classify_loop_goes_on src i n inside (ap (λ k. bit_and k 0x80 == 0) at ∙ goes_on)) (
            subst (λ s. Agrees s more (classify_loop s (i + 1) n))
              (append_assoc front (b ∷ []) rest)
              (subst (λ k. Agrees (next ++ rest) more (classify_loop (next ++ rest) k n)) size rec))
    ]

-- On any received bytes: where the server finds a frame ready, the packet reader reads a packet
-- of that length from them; where it finds the bytes invalid, the reader reads no packet from
-- them, whatever follows; and where it waits for more, the reader reads no packet from what is
-- there.
pub classify_frame-Agrees :
    (src more : List ℕ) → All IsByte src → Agrees src more (classify_frame src)
unfolding classify_frame
classify_frame-Agrees src more h = classify_loop-Agrees 5 [] src more refl tt h
