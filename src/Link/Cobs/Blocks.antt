-- ===== src/Link/Cobs/Blocks.antt =====
-- mc_link.c: a run of finished COBS blocks, and what it stands for.
use starrysky_mc_server.Prelude.{
  ℕ, ◌+◌, ◌*◌, ◌≤◌, ◌<◌, ◌≡◌, refl, ap, sym, ◌∙◌, arith, List, [], ◌∷◌, ◌++◌, Bool, true, false,
  some, length, length-append, append_assoc, append-nil, All, All-append,
}
use starrysky_mc_server.Link.Cobs.Decoding.{
  decode_from, decode_from_nil, decode_short, decode_full, decode_last,
}

abbrev pub IsNonzero : ℕ → Type 0
IsNonzero b = 0 < b

-- The encoded blocks `d` stand for the bytes `p`. With `pending` the last of these is a zero that the
-- decoder supplies only where something follows.
pub record Blocks (d p : List ℕ) (pending : Bool) : Type 0 where
  pub decodes :
      (s out : List ℕ) (cap : ℕ)
      → (pending ≡ true → 0 < length s)
      → length out + length p ≤ cap
      → decode_from (d ++ s) out cap ≡ decode_from s (out ++ p) cap
  pub nonzero : All IsNonzero d
  pub size : 254 * length d ≤ 255 * length p

pub Blocks-nil : Blocks [] [] false
Blocks-nil = record {
  decodes = λ s out cap h room. ap (λ o. decode_from s o cap) (sym (append-nil out));
  nonzero = tt;
  size = omega arith;
}

block_then :
    (d p b : List ℕ) (pending : Bool) (s out : List ℕ) (cap c : ℕ)
    → Blocks d p pending
    → length out + length p ≤ cap
    → decode_from ((d ++ (c ∷ b)) ++ s) out cap ≡ decode_from (c ∷ (b ++ s)) (out ++ p) cap
block_then d p b pending s out cap c bs room =
    ap (λ l. decode_from l out cap) (append_assoc d (c ∷ b) s)
    ∙ bs.decodes (c ∷ (b ++ s)) out cap (λ _. omega arith) room

pub Blocks-short :
    (d p b : List ℕ) {pending : Bool}
    → Blocks d p pending
    → length b < 254
    → All IsNonzero b
    → Blocks (d ++ ((length b + 1) ∷ b)) (p ++ (b ++ (0 ∷ []))) true
Blocks-short d p b {pending} bs h nz = record {
  decodes = λ s out cap more room.
      let n = length-append p (b ++ (0 ∷ [])) in
      let m = length-append b (0 ∷ []) in
      block_then d p b pending s out cap (length b + 1) bs (omega (arith, n))
      ∙ decode_short b s (out ++ p) cap h (more refl) (omega (arith, n, m, length-append out p))
      ∙ ap (λ o. decode_from s o cap) (append_assoc out p (b ++ (0 ∷ [])));
  nonzero = All-append IsNonzero d ((length b + 1) ∷ b) bs.nonzero (omega arith, nz);
  size = omega (
    arith,
    bs.size,
    length-append d ((length b + 1) ∷ b),
    length-append p (b ++ (0 ∷ [])),
    length-append b (0 ∷ []),
  );
}

pub Blocks-full :
    (d p b : List ℕ) {pending : Bool}
    → Blocks d p pending
    → length b ≡ 254
    → All IsNonzero b
    → Blocks (d ++ (255 ∷ b)) (p ++ b) false
Blocks-full d p b {pending} bs h nz = record {
  decodes = λ s out cap more room.
      let n = length-append p b in
      block_then d p b pending s out cap 255 bs (omega (arith, n))
      ∙ decode_full b s (out ++ p) cap h (omega (arith, n, length-append out p))
      ∙ ap (λ o. decode_from s o cap) (append_assoc out p b);
  nonzero = All-append IsNonzero d (255 ∷ b) bs.nonzero (omega arith, nz);
  size = omega (arith, bs.size, length-append d (255 ∷ b), length-append p b);
}

-- `enc` is a COBS encoding of `xs`: without zeros, not empty, at most one byte longer for each 254
-- bytes and one more, and decoded to `xs` where there is room for these.
pub record Encodes (enc xs : List ℕ) : Type 0 where
  pub decodes : (cap : ℕ) → length xs ≤ cap → decode_from enc [] cap ≡ some xs
  pub nonzero : All IsNonzero enc
  pub nonempty : 0 < length enc
  pub size : 254 * length enc ≤ 255 * length xs + 254

pub Encodes-last :
    (d p b : List ℕ) {pending : Bool}
    → Blocks d p pending
    → length b < 254
    → All IsNonzero b
    → Encodes (d ++ ((length b + 1) ∷ b)) (p ++ b)
Encodes-last d p b {pending} bs h nz = record {
  decodes = λ cap room.
      let n = length-append p b in
      bs.decodes ((length b + 1) ∷ b) [] cap (λ _. omega arith) (omega (arith, n))
      ∙ decode_last b p cap h (omega (arith, n));
  nonzero = All-append IsNonzero d ((length b + 1) ∷ b) bs.nonzero (omega arith, nz);
  nonempty = omega (arith, length-append d ((length b + 1) ∷ b));
  size = omega (arith, bs.size, length-append d ((length b + 1) ∷ b), length-append p b);
}

-- Nothing needs to follow a full block.
pub Encodes-whole : (d p : List ℕ) → Blocks d p false → 0 < length d → Encodes d p
Encodes-whole d p bs h = record {
  decodes = λ cap room.
      ap (λ l. decode_from l [] cap) (sym (append-nil d))
      ∙ bs.decodes [] [] cap (λ e. cc) (omega arith)
      ∙ decode_from_nil p cap;
  nonzero = bs.nonzero;
  nonempty = h;
  size = omega (arith, bs.size);
}
