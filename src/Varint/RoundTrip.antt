-- ===== src/Varint/RoundTrip.antt =====
-- mc_varint.c: what the encoder writes, the decoder reads back.
use starrysky_mc_server.Prelude.{
  ℕ, zero, suc, ◌+◌, ◌*◌, ◌/◌, ◌%◌, ◌^◌, ◌≤◌, ◌<◌, ◌≡◌, ap, arith, List, [], ◌∷◌, ◌++◌, some,
  bit_and, bit_or, bit_and-seven, bit_or-top, bit_or-shl, bit_and-top, bit_and-high, length, leb,
  take_all, ltb, if◌then◌else◌, IsByte, All, Bool-cases, inl, inr, ltb→lt, ◌∙◌,
}
use starrysky_mc_server.Varint.{encode_loop, encode, decode_loop, decode}
use native.Mathlib.Nat.{pow-suc, mod-eq_of_lt, div-add-mod, mul-le-mul_right}
use mathlib.Core.Path.{subst}
use native.Mathlib.Numerals.{towards_suc}

-- The groups of seven bits of `v`, lowest first, the top bit set on all but the last of them, for
-- `v` below `128 ^ (k + 1)`.
unfoldable pub groups : ℕ → ℕ → List ℕ
groups zero v = v ∷ []
groups (suc k) v =
    let more = groups k (v / 128) in if ltb v 128 then v ∷ [] else (v % 128 + 128) ∷ more

-- The bytes of a 32-bit value.
unfoldable pub bytes_of : ℕ → List ℕ
unfolding groups
bytes_of v = groups 4 v

length-groups : (k v : ℕ) → (1 ≤ length (groups k v)) × (length (groups k v) ≤ suc k)
unfolding groups
length-groups zero v = omega arith
length-groups (suc k) v = ground (arith, length-groups k (v / 128))

groups-IsByte : (k v : ℕ) → v < 2 ^ 7 * 128 ^ k → All IsByte (groups k v)
unfolding groups
groups-IsByte zero v h = omega arith
groups-IsByte (suc k) v h = ground (arith, pow-suc 128 k, groups-IsByte k (v / 128))

encode_loop_lem :
    (k v written cap : ℕ)
    → v < 2 ^ 7 * 128 ^ k
    → written + length (groups k v) ≤ cap
    → encode_loop (suc k) v written cap ≡ (written + length (groups k v), groups k v)
unfolding encode_loop groups
encode_loop_lem zero v written cap h fits = ground (arith, bit_and-seven v)
encode_loop_lem (suc k) v written cap h fits = ground (
  arith,
  bit_and-seven v,
  bit_or-top (v % 128),
  pow-suc 128 k,
  encode_loop_lem k (v / 128) (written + 1) cap,
  length-groups k (v / 128),
)

-- One round of the decoder adds the next group above the bits it has.
pub add_group :
    (res shift byte : ℕ)
    → res < 2 ^ shift
    → byte % 128 * 2 ^ shift < 2 ^ 32
    → bit_or res (bit_and byte 0x7f * 2 ^ shift % 2 ^ 32) ≡ res + byte % 128 * 2 ^ shift
add_group res shift byte h fits =
    rw (bit_and-seven byte, mod-eq_of_lt fits) (bit_or-shl shift res (byte % 128) h)

low_part : (v p : ℕ) → v * p ≡ v / 128 * (128 * p) + v % 128 * p
low_part v p = omega (arith, ap (λ (t : ℕ). t * p) (div-add-mod v 128))

pub pow_seven : (s : ℕ) → 2 ^ (s + 7) ≡ 128 * 2 ^ s
pow_seven s = simp towards_suc (omega (arith, pow-suc 2 s))

-- What a group leaves: it fits below the next shift, and the rest of the value fits the word.
group_fits :
    (res v p : ℕ)
    → res < p
    → v * p < 2 ^ 32
    → (res + v % 128 * p < 128 * p) × (v / 128 * (128 * p) < 2 ^ 32) × (v % 128 * p < 2 ^ 32)
group_fits res v p hr hv =
    let small : v % 128 * p ≤ 127 * p = mul-le-mul_right p (omega arith) in
    omega (arith, low_part v p)

last_group :
    (v res shift i : ℕ) (rest : List ℕ)
    → v < 128
    → (i ≡ 4 → v < 16)
    → i ≤ 4
    → res < 2 ^ shift
    → v * 2 ^ shift < 2 ^ 32
    → decode_loop (v ∷ rest) i res shift ≡ some (res + v * 2 ^ shift, i + 1)
unfolding decode_loop
last_group v res shift i rest hv h4 hi hr fits =
    let e : v % 128 ≡ v = mod-eq_of_lt hv in
    let same : v % 128 * 2 ^ shift ≡ v * 2 ^ shift = ap (λ (t : ℕ). t * 2 ^ shift) e in
    ground (arith, bit_and-top v, bit_and-high v, add_group res shift v hr)

more_groups :
    (v res shift i : ℕ) (rest : List ℕ)
    → i < 4
    → res < 2 ^ shift
    → v * 2 ^ shift < 2 ^ 32
    → decode_loop ((v % 128 + 128) ∷ rest) i res shift
      ≡ decode_loop rest (i + 1) (res + v % 128 * 2 ^ shift) (shift + 7)
unfolding decode_loop
more_groups v res shift i rest hi hr fits =
    let e : (v % 128 + 128) % 128 ≡ v % 128 = omega arith in
    let same : (v % 128 + 128) % 128 * 2 ^ shift ≡ v % 128 * 2 ^ shift =
      ap (λ (t : ℕ). t * 2 ^ shift) e in
    ground (
      arith,
      bit_and-top (v % 128 + 128),
      add_group res shift (v % 128 + 128) hr,
      group_fits res v (2 ^ shift) hr fits,
    )

sixteen : (v shift : ℕ) → shift ≡ 28 → v * 2 ^ shift < 2 ^ 32 → v < 16
sixteen v shift e h =
    let h' : v * 2 ^ 28 < 2 ^ 32 = subst (λ s. v * 2 ^ s < 2 ^ 32) e h in omega arith

decode_loop-groups :
    (k i v res shift : ℕ) (rest : List ℕ)
    → i + k ≡ 4
    → shift ≡ 7 * i
    → res < 2 ^ shift
    → v * 2 ^ shift < 2 ^ 32
    → decode_loop (groups k v ++ rest) i res shift
      ≡ some (res + v * 2 ^ shift, i + length (groups k v))
unfolding groups
decode_loop-groups zero i v res shift rest hi hs hr hv =
    let small : v < 16 = sixteen v shift (omega arith) hv in
    last_group v res shift i rest (omega arith) (λ _. small) (omega arith) hr hv
decode_loop-groups (suc k) i v res shift rest hi hs hr hv = elim (Bool-cases (ltb v 128)) [
  | inl e ↦ rw e (
      last_group v res shift i rest (ltb→lt _ _ e) (λ e4. absurd (omega arith)) (omega arith) hr hv)
  | inr e ↦ rw e (
      more_groups v res shift i (groups k (v / 128) ++ rest) (omega arith) hr hv
      ∙ (decode_loop-groups k (i + 1) (v / 128) (res + v % 128 * 2 ^ shift) (shift + 7) rest
          (omega arith) (omega arith) (rw (pow_seven shift) (fits.0))
          (rw (pow_seven shift) (fits.1)))
      ∙ ground (arith, low_part v (2 ^ shift), ap (λ (t : ℕ). v / 128 * t) (pow_seven shift)))
]
  where
    fits :
        (res + v % 128 * 2 ^ shift < 128 * 2 ^ shift)
        × (v / 128 * (128 * 2 ^ shift) < 2 ^ 32)
        × (v % 128 * 2 ^ shift < 2 ^ 32)
    fits = group_fits res v (2 ^ shift) hr hv

encode_loop_short :
    (k v written cap : ℕ)
    → v < 2 ^ 7 * 128 ^ k
    → cap < written + length (groups k v)
    → (encode_loop (suc k) v written cap).0 ≡ 0
unfolding encode_loop groups
encode_loop_short zero v written cap h short = ground arith
encode_loop_short (suc k) v written cap h short =
    ground (arith, pow-suc 128 k, encode_loop_short k (v / 128) (written + 1) cap)

-- The encoder writes the seven-bit groups of a 32-bit value, lowest first, where they fit the
-- buffer, and reports failure exactly where they do not.
pub encode_lem :
    (v cap : ℕ)
    → v < 2 ^ 32
    → encode v cap ≡ (if leb (length (bytes_of v)) cap then bytes_of v else [])
unfolding encode bytes_of
encode_lem v cap h = elim (Bool-cases (leb (length (groups 4 v)) cap)) [
  | inl e ↦
      rw (e, encode_loop_lem 4 v 0 cap (omega arith) (ground arith))
        (take_all _ (groups 4 v) (omega arith))
  | inr e ↦ rw (e, encode_loop_short 4 v 0 cap (omega arith) (ground arith))
]

pub length-bytes_of : (v : ℕ) → (1 ≤ length (bytes_of v)) × (length (bytes_of v) ≤ 5)
unfolding bytes_of
length-bytes_of v = length-groups 4 v

pub bytes_of-IsByte : (v : ℕ) → v < 2 ^ 32 → All IsByte (bytes_of v)
unfolding bytes_of
bytes_of-IsByte v h = groups-IsByte 4 v (omega arith)

-- With five bytes of room the encoder does not fail.
pub encode-eq-bytes_of : (v cap : ℕ) → v < 2 ^ 32 → 5 ≤ cap → encode v cap ≡ bytes_of v
encode-eq-bytes_of v cap h five = encode_lem v cap h ∙ ground (arith, length-bytes_of v)

pub decode-bytes_of :
    (v : ℕ) (rest : List ℕ)
    → v < 2 ^ 32
    → decode (bytes_of v ++ rest) ≡ some (v, length (bytes_of v))
unfolding decode bytes_of
decode-bytes_of v rest h =
    decode_loop-groups 4 0 v 0 0 rest (omega arith) (omega arith) (omega arith) (omega arith)
    ∙ ground arith

-- What is encoded from any 32-bit value into a buffer of five bytes or more is decoded to the
-- value whatever follows, with the number of bytes written.
pub decode-encode :
    (v cap : ℕ) (rest : List ℕ)
    → v < 2 ^ 32
    → 5 ≤ cap
    → decode (encode v cap ++ rest) ≡ some (v, length (encode v cap))
decode-encode v cap rest h five = rw (encode-eq-bytes_of v cap h five) (decode-bytes_of v rest h)
