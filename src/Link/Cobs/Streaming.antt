-- ===== src/Link/Cobs/Streaming.antt =====
-- mc_link.c: a whole run of the streaming encoder.
use starrysky_mc_server.Prelude.{
  ℕ, ◌+◌, ◌^◌, ◌≤◌, ◌<◌, ◌≡◌, ◌⊎◌, inl, inr, refl, ap, sym, ◌∙◌, arith, List, [], ◌∷◌, ◌++◌, Bool,
  true, false, ◌||◌, some, length, take, ◌==◌, ◌>>◌, length-append, length-set, append_assoc,
  append-nil, Bool-cases,
}
use starrysky_mc_server.Link.Cobs.{
  Encoder, open_block, stream_init, patch_code, put_byte, write_byte, stream_write, stream_finish,
}
use starrysky_mc_server.Link.Cobs.Blocks.{Blocks, Blocks-nil, Encodes, Encodes-last, Encodes-whole}
use mathlib.Core.Path.{subst}
use starrysky_mc_server.Link.Cobs.Encoding.{
  Roomy, Shut, Open, Wrote, open_block-Open, patched, put_byte-Wrote,
}

write_byte_open :
    (byte : ℕ) (e : Encoder) → e.block_open ≡ true → write_byte byte e ≡ put_byte byte e
unfolding write_byte
write_byte_open byte e h = ground arith

write_byte_shut :
    (byte : ℕ) (e : Encoder)
    → e.block_open ≡ false
    → write_byte byte e ≡ (open_block >> put_byte byte) e
unfolding write_byte
write_byte_shut byte e h = ground arith

write_byte-Wrote :
    (e : Encoder) (xs : List ℕ) (byte : ℕ)
    → Roomy e
    → length xs ≤ 507
    → Shut e xs ⊎ Open 254 e xs
    → Wrote (write_byte byte e) (xs ++ (byte ∷ []))
write_byte-Wrote e xs byte r h (inl s) =
    let (opened, r', o) = open_block-Open e xs r (omega arith) s in
    rw (write_byte_shut byte e s.is_shut, opened) (put_byte-Wrote (open_block e).1 xs byte r' h o)
write_byte-Wrote e xs byte r h (inr o) =
    rw (write_byte_open byte e o.is_open) (put_byte-Wrote e xs byte r h o)

stream_write-Wrote :
    (src : List ℕ) (e : Encoder) (xs : List ℕ)
    → Roomy e
    → length xs + length src ≤ 508
    → Shut e xs ⊎ Open 254 e xs
    → Wrote (stream_write src e) (xs ++ src)
unfolding stream_write
stream_write-Wrote [] e xs r h st = record {
  done = refl;
  roomy = r;
  state = subst (λ l. Shut e l ⊎ Open 254 e l) (sym (append-nil xs)) st;
}
stream_write-Wrote (byte ∷ src) e xs r h st =
    let w = write_byte-Wrote e xs byte r (omega arith) st in
    let rest =
      stream_write-Wrote src (write_byte byte e).1 (xs ++ (byte ∷ [])) w.roomy
        (omega (arith, length-append xs (byte ∷ []))) w.state in
    rw (w.done, ← append_assoc xs (byte ∷ []) src) rest

-- What the encoder leaves when it is done.
pub record Finished (r : Bool × Encoder) (xs : List ℕ) : Type 0 where
  pub done : r.0 ≡ true
  pub encodes : Encodes (take r.1.write_index r.1.dst) xs
  pub within : r.1.write_index ≤ 511
  pub fits : 511 < length r.1.dst

finish_open : (e : Encoder) → e.block_open ≡ true → stream_finish e ≡ (true, patch_code e)
unfolding stream_finish
finish_open e h = ground arith

finish_empty :
    (e : Encoder)
    → e.block_open ≡ false
    → (e.write_index == 0 || e.trailing_zero_pending) ≡ true
    → stream_finish e ≡ (open_block >> λ e'. (true, patch_code e')) e
unfolding stream_finish
finish_empty e h k = ground arith

finish_whole :
    (e : Encoder)
    → e.block_open ≡ false
    → (e.write_index == 0 || e.trailing_zero_pending) ≡ false
    → stream_finish e ≡ (true, e)
unfolding stream_finish
finish_whole e h k = ground arith

end_last :
    (e : Encoder) (xs : List ℕ)
    → Roomy e
    → length xs ≤ 508
    → Open 254 e xs
    → Finished (true, patch_code e) xs
end_last e xs r h o =
    let enc = Encodes-last o.d o.p o.b o.blocks o.short o.nonzero in
    let n : length xs ≡ length o.p + length o.b = ap length o.all ∙ length-append o.p o.b in
    record {
      done = refl;
      encodes =
          subst (λ l. Encodes l xs)
            (sym (
              patched e o.d o.b o.hole o.code_here o.stored ∙ ap (λ c. o.d ++ (c ∷ o.b)) o.counted))
            (subst (λ l. Encodes (o.d ++ ((length o.b + 1) ∷ o.b)) l) (sym o.all) enc);
      within = omega (arith, o.here, o.blocks.size);
      fits = rw (length-set e.dst e.code_index e.code) (omega (arith, r.fits, r.wide));
    }

stream_finish-Finished :
    (e : Encoder) (xs : List ℕ)
    → Roomy e
    → length xs ≤ 508
    → Shut e xs ⊎ Open 254 e xs
    → Finished (stream_finish e) xs
stream_finish-Finished e xs r h (inr o) = rw (finish_open e o.is_open) (end_last e xs r h o)
stream_finish-Finished e xs r h (inl s) =
    elim (Bool-cases (e.write_index == 0 || e.trailing_zero_pending)) [
      | inl k ↦
          let (opened, r', o) = open_block-Open e xs r h s in
          rw (finish_empty e s.is_shut k, opened) (end_last (open_block e).1 xs r' h o)
      | inr k ↦
          let not_pending : e.trailing_zero_pending ≡ false = ground arith in
          rw (finish_whole e s.is_shut k) (record {
            done = refl;
            encodes =
                subst (λ l. Encodes l xs) (sym s.stored)
                  (Encodes-whole s.d xs (subst (Blocks s.d xs) not_pending s.blocks)
                    (ground (arith, s.here)));
            within = omega (arith, s.here, s.blocks.size);
            fits = omega (arith, r.fits, r.wide);
          })
    ]

start : (dst : List ℕ) (cap : ℕ) → Encoder
start dst cap = record {
  dst = dst;
  dst_cap = cap;
  write_index = 0;
  code_index = 0;
  code = 1;
  block_open = false;
  trailing_zero_pending = false;
}

-- The whole run of the encoder over at most 508 bytes, into a buffer with room for 511.
pub stream-Finished :
    (dst src : List ℕ) (cap : ℕ)
    → 511 ≤ cap
    → cap < length dst
    → cap ≤ 2 ^ 31
    → length src ≤ 508
    → (e : Encoder) × (stream_init dst cap ≡ some e)
      × Finished ((stream_write src >> stream_finish) e) src
unfolding stream_init start
stream-Finished dst src cap wide fits small h =
    let w =
      stream_write-Wrote src (start dst cap) [] (record { wide = wide; fits = fits; small = small })
        (omega arith)
        (inl
          (record { d = []; blocks = Blocks-nil; is_shut = refl; here = refl; stored = refl })) in
    (
      start dst cap,
      ground arith,
      rw w.done (stream_finish-Finished (stream_write src (start dst cap)).1 src w.roomy h w.state),
    )
