-- ===== src/Link/Cobs/Encoding.antt =====
-- mc_link.c: the streaming encoder builds a COBS encoding of the bytes that it is given.
use starrysky_mc_server.Prelude.{
  ℕ, zero, suc, ◌+◌, ◌%◌, ◌^◌, ◌≤◌, ◌<◌, ◌≡◌, ◌≢◌, ◌⊎◌, inl, inr, refl, ap, sym, ◌∙◌, arith, List,
  [], ◌∷◌, ◌++◌, Bool, true, false, length, set, get_or, take, leb, ◌==◌, length-append, length-set,
  append_assoc, append-nil, All, All-append, Bool-cases, ==→eq, take-suc, take-set, take-suc-set,
  set-append,
}
use starrysky_mc_server.Ringbuf.{add_size}
use starrysky_mc_server.Ringbuf.Bounds.{add_size-eq}
use starrysky_mc_server.Link.Cobs.{Encoder, open_block, patch_code, put_byte}
use starrysky_mc_server.Link.Cobs.Blocks.{IsNonzero, Blocks, Blocks-short, Blocks-full}
use native.Mathlib.Numerals.{add-one}
use mathlib.Core.Path.{subst}

-- Room for the encoding of 508 bytes, and a byte behind it.
pub record Roomy (e : Encoder) : Type 0 where
  pub wide : 511 ≤ e.dst_cap
  pub fits : e.dst_cap < length e.dst
  pub small : e.dst_cap ≤ 2 ^ 31

-- Between blocks.
pub record Shut (e : Encoder) (xs : List ℕ) : Type 0 where
  pub d : List ℕ
  pub blocks : Blocks d xs e.trailing_zero_pending
  pub is_shut : e.block_open ≡ false
  pub here : e.write_index ≡ length d
  pub stored : take e.write_index e.dst ≡ d

-- Inside a block of fewer than `limit` bytes, whose code is not stored yet.
pub record Open (limit : ℕ) (e : Encoder) (xs : List ℕ) : Type 0 where
  pub d : List ℕ
  pub p : List ℕ
  pub b : List ℕ
  pub hole : ℕ
  pub pending : Bool
  pub blocks : Blocks d p pending
  pub is_open : e.block_open ≡ true
  pub code_here : e.code_index ≡ length d
  pub here : e.write_index ≡ length d + length b + 1
  pub stored : take e.write_index e.dst ≡ d ++ (hole ∷ b)
  pub counted : e.code ≡ length b + 1
  pub short : length b < limit
  pub nonzero : All IsNonzero b
  pub all : xs ≡ p ++ b

pub open_block-Open :
    (e : Encoder) (xs : List ℕ)
    → Roomy e
    → length xs ≤ 508
    → Shut e xs
    → ((open_block e).0 ≡ true) × Roomy (open_block e).1 × Open 254 (open_block e).1 xs
unfolding open_block
open_block-Open e xs r h s =
    let room : leb e.dst_cap e.write_index ≡ false = ground (arith, s.blocks.size) in
    rw (room, add_size-eq e.write_index 1 (ground arith), add-one)
      (
        refl,
        record { wide = r.wide; fits = r.fits; small = r.small },
        record {
          d = s.d;
          p = xs;
          b = [];
          hole = get_or e.dst e.write_index 0;
          pending = e.trailing_zero_pending;
          blocks = s.blocks;
          is_open = refl;
          code_here = s.here;
          here = omega (arith, s.here);
          stored =
              take-suc e.dst e.write_index 0 (omega (arith, s.here, s.blocks.size))
              ∙ ap (λ l. l ++ (get_or e.dst e.write_index 0 ∷ [])) s.stored;
          counted = refl;
          short = omega arith;
          nonzero = tt;
          all = sym (append-nil xs);
        },
      )

-- Storing the code of the open block leaves the finished blocks and it.
pub patched :
    (e : Encoder) (d b : List ℕ) (hole : ℕ)
    → e.code_index ≡ length d
    → take e.write_index e.dst ≡ d ++ (hole ∷ b)
    → take e.write_index (set e.dst e.code_index e.code) ≡ d ++ (e.code ∷ b)
patched e d b hole c s =
    take-set e.dst e.write_index e.code_index e.code
    ∙ ap (λ l. set l e.code_index e.code) s
    ∙ set-append d b e.code_index hole e.code c

-- The state after a byte: between blocks or inside one.
pub record Wrote (r : Bool × Encoder) (xs : List ℕ) : Type 0 where
  pub done : r.0 ≡ true
  pub roomy : Roomy r.1
  pub state : Shut r.1 xs ⊎ Open 254 r.1 xs

put_zero :
    (e : Encoder) (xs : List ℕ) → Roomy e → Open 254 e xs → Wrote (put_byte 0 e) (xs ++ (0 ∷ []))
unfolding put_byte
put_zero e xs r o = record {
  done = refl;
  roomy = record {
    wide = r.wide;
    fits = rw (length-set e.dst e.code_index e.code) r.fits;
    small = r.small;
  };
  state = inl (record {
    d = o.d ++ ((length o.b + 1) ∷ o.b);
    blocks =
        subst (λ l. Blocks (o.d ++ ((length o.b + 1) ∷ o.b)) l true)
          (sym (append_assoc o.p o.b (0 ∷ [])) ∙ ap (λ l. l ++ (0 ∷ [])) (sym o.all))
          (Blocks-short o.d o.p o.b o.blocks o.short o.nonzero);
    is_shut = refl;
    here = omega (arith, o.here, length-append o.d ((length o.b + 1) ∷ o.b));
    stored = patched e o.d o.b o.hole o.code_here o.stored ∙ ap (λ c. o.d ++ (c ∷ o.b)) o.counted;
  });
}

put_stored :
    (e : Encoder) (xs : List ℕ) (byte : ℕ)
    → Roomy e
    → length xs ≤ 507
    → (o : Open 254 e xs)
    → (e.write_index + 1 < e.dst_cap + 1)
      × (take (suc e.write_index) (set e.dst e.write_index byte)
          ≡ o.d ++ (o.hole ∷ (o.b ++ (byte ∷ []))))
put_stored e xs byte r h o =
    let n : length xs ≡ length o.p + length o.b = ap length o.all ∙ length-append o.p o.b in
    let lt : e.write_index < e.dst_cap = omega (arith, o.here, o.blocks.size, r.wide) in
    (
      omega arith,
      take-suc-set e.dst e.write_index byte (omega (arith, r.fits))
          ∙ ap (λ l. l ++ (byte ∷ [])) o.stored
          ∙ append_assoc o.d (o.hole ∷ o.b) (byte ∷ []),
    )

-- A block that has reached 254 bytes is ended.
end_full :
    (e : Encoder) (xs : List ℕ)
    → Roomy e
    → (o : Open 255 e xs) → e.code ≡ 255
    → Wrote (true, record (patch_code e) { block_open = false; trailing_zero_pending = false }) xs
end_full e xs r o full = record {
  done = refl;
  roomy = record {
    wide = r.wide;
    fits = rw (length-set e.dst e.code_index e.code) r.fits;
    small = r.small;
  };
  state = inl (record {
    d = o.d ++ (255 ∷ o.b);
    blocks =
        subst (λ l. Blocks (o.d ++ (255 ∷ o.b)) l false) (sym o.all)
          (Blocks-full o.d o.p o.b o.blocks (omega (arith, o.counted)) o.nonzero);
    is_shut = refl;
    here = omega (arith, o.here, length-append o.d (255 ∷ o.b));
    stored = patched e o.d o.b o.hole o.code_here o.stored ∙ ap (λ c. o.d ++ (c ∷ o.b)) full;
  });
}

narrow : (e : Encoder) (xs : List ℕ) → (o : Open 255 e xs) → e.code ≢ 255 → Open 254 e xs
narrow e xs o ne = record {
  d = o.d;
  p = o.p;
  b = o.b;
  hole = o.hole;
  pending = o.pending;
  blocks = o.blocks;
  is_open = o.is_open;
  code_here = o.code_here;
  here = o.here;
  stored = o.stored;
  counted = o.counted;
  short = omega (arith, o.counted, o.short);
  nonzero = o.nonzero;
  all = o.all;
}

-- The state after a byte was stored, before its block may end.
abbrev grown : Encoder → ℕ → Encoder
grown e byte = record e {
  dst = set e.dst e.write_index byte;
  write_index = suc e.write_index;
  code = e.code + 1;
}

grown-Open :
    (e : Encoder) (xs : List ℕ) (byte : ℕ)
    → Roomy e
    → length xs ≤ 507
    → 0 < byte
    → Open 254 e xs
    → Open 255 (grown e byte) (xs ++ (byte ∷ []))
grown-Open e xs byte r h pos o = record {
  d = o.d;
  p = o.p;
  b = o.b ++ (byte ∷ []);
  hole = o.hole;
  pending = o.pending;
  blocks = o.blocks;
  is_open = o.is_open;
  code_here = o.code_here;
  here = omega (arith, o.here, length-append o.b (byte ∷ []));
  stored = (put_stored e xs byte r h o).1;
  counted = omega (arith, o.counted, length-append o.b (byte ∷ []));
  short = omega (arith, o.short, length-append o.b (byte ∷ []));
  nonzero = All-append IsNonzero o.b (byte ∷ []) o.nonzero (pos, tt);
  all = ap (λ l. l ++ (byte ∷ [])) o.all ∙ append_assoc o.p o.b (byte ∷ []);
}

put_nonzero :
    (e : Encoder) (xs : List ℕ) (byte : ℕ)
    → Roomy e
    → length xs ≤ 507
    → 0 < byte
    → Open 254 e xs
    → Wrote (put_byte byte e) (xs ++ (byte ∷ []))
unfolding put_byte
put_nonzero e xs byte r h pos o =
    let room : e.write_index + 1 < e.dst_cap + 1 = (put_stored e xs byte r h o).0 in
    let not_zero : (byte == 0) ≡ false = ground arith in
    let no_stop : leb e.dst_cap e.write_index ≡ false = ground arith in
    let next : add_size e.write_index 1 ≡ suc e.write_index =
      add_size-eq e.write_index 1 (omega (arith, r.small)) ∙ add-one e.write_index in
    let code : (e.code + 1) % 256 ≡ e.code + 1 = omega (arith, o.counted, o.short) in
    let g = grown-Open e xs byte r h pos o in
    let roomy : Roomy (grown e byte) = record {
      wide = r.wide;
      fits = rw (length-set e.dst e.write_index byte) r.fits;
      small = r.small;
    } in
    rw (not_zero, no_stop, next, code)
      (elim (Bool-cases (e.code + 1 == 255)) [
        | inl full ↦ rw full (end_full (grown e byte) (xs ++ (byte ∷ [])) roomy g (==→eq _ _ full))
        | inr more ↦ rw more (record {
          done = refl;
          roomy = roomy;
          state = inr (narrow (grown e byte) (xs ++ (byte ∷ [])) g (ground arith));
        })
      ])

pub put_byte-Wrote :
    (e : Encoder) (xs : List ℕ) (byte : ℕ)
    → Roomy e
    → length xs ≤ 507
    → Open 254 e xs
    → Wrote (put_byte byte e) (xs ++ (byte ∷ []))
put_byte-Wrote e xs zero r h o = put_zero e xs r o
put_byte-Wrote e xs (suc byte) r h o = put_nonzero e xs (suc byte) r h (omega arith) o
