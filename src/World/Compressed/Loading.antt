-- ===== src/World/Compressed/Loading.antt =====
-- core/src/mc_world_compressed.c: the chunks lie in the arena side by side, as the assets have them.
use mathlib.Core.Bool.{false≢true}
use mathlib.Core.Option.{none-ne-some, some-injective}
use mathlib.Core.Path.{subst}
use starrysky_mc_server.Prelude.{
  ℕ, zero, suc, ◌+◌, ◌^◌, ◌≤◌, ◌<◌, ◌≡◌, inl, inr, refl, sym, ap, ◌∙◌, arith, true, false, ◌||◌,
  Option, none, some, List, [], ◌∷◌, ◌++◌, length, take, drop, ltb, copy_at, length-copy_at,
  take-copy_at, length-take, Bool-cases, Option-cases, All, drop-append, take-append, take-nil,
}
use starrysky_mc_server.Ringbuf.Bounds.{add_size-eq}
use starrysky_mc_server.Ringbuf.{add_size}
use starrysky_mc_server.World.Compressed.{
  Asset, Chunk, frame_valid, chunk_of, refused, load_loop, loaded, compressed_init, chunk_bytes,
  max_chunks,
}

abbrev pub asset_bytes : Asset → List ℕ
asset_bytes asset = take asset.compressed_len asset.compressed

-- The length of an asset is that of its bytes.
abbrev pub IsWhole : Asset → Type 0
IsWhole asset = asset.compressed_len ≤ length asset.compressed

-- What a loaded chunk has of its asset.
pub record Same (arena : List ℕ) (asset : Asset) (chunk : Chunk) : Type 0 where
  pub chunk_x : chunk.chunk_x ≡ asset.chunk_x
  pub chunk_z : chunk.chunk_z ≡ asset.chunk_z
  pub raw_body_len : chunk.raw_body_len ≡ asset.raw_body_len
  pub compressed_len : chunk.compressed_len ≡ asset.compressed_len
  pub bytes : chunk_bytes arena chunk ≡ asset_bytes asset
  pub valid : frame_valid asset.raw_body_len asset.compressed_len ≡ true

pub data AllSame (arena : List ℕ) : List Asset → List Chunk → Type 0 where
  no_chunks : AllSame arena [] []
  more_chunks :
      {asset : Asset} {chunk : Chunk} {assets : List Asset} {chunks : List Chunk}
      → Same arena asset chunk
      → AllSame arena assets chunks
      → AllSame arena (asset ∷ assets) (chunk ∷ chunks)

take-append_less : (n : ℕ) (xs ys : List ℕ) → n ≤ length xs → take n (xs ++ ys) ≡ take n xs
take-append_less zero xs ys h = refl
take-append_less (suc n) [] ys h = absurd (omega arith)
take-append_less (suc n) (x ∷ xs) ys h = ap (λ l. x ∷ l) (take-append_less n xs ys (omega arith))

take-take : (m n : ℕ) (xs : List ℕ) → m ≤ n → take m (take n xs) ≡ take m xs
take-take zero n xs h = refl
take-take (suc m) zero xs h = absurd (omega arith)
take-take (suc m) (suc n) [] h = refl
take-take (suc m) (suc n) (x ∷ xs) h = ap (λ l. x ∷ l) (take-take m n xs (omega arith))

take-drop : (m n : ℕ) (xs : List ℕ) → take n (drop m xs) ≡ drop m (take (m + n) xs)
take-drop zero n xs = ap (λ k. take k xs) (let e : n ≡ zero + n = omega arith in e)
take-drop (suc m) n [] = take-nil ℕ n ∙ sym (ap (drop (suc m)) (take-nil ℕ (suc m + n)))
take-drop (suc m) n (x ∷ xs) =
    take-drop m n xs
    ∙ ap (λ k. drop (suc m) (take k (x ∷ xs))) (let e : suc (m + n) ≡ suc m + n = omega arith in e)

refused_lem :
    (asset : Asset) (arena_len pos : ℕ)
    → refused asset arena_len pos ≡ false
    → pos + asset.compressed_len ≤ arena_len
unfolding refused
refused_lem asset arena_len pos e = ground arith

accepted-valid :
    (asset : Asset) (arena_len pos : ℕ)
    → refused asset arena_len pos ≡ false
    → frame_valid asset.raw_body_len asset.compressed_len ≡ true
unfolding refused
accepted-valid asset arena_len pos e = ground arith

-- What the loop leaves where it succeeds: the arena below `pos` as it was, and the chunks behind.
pub record Loads (pos : ℕ) (dst : List ℕ) (assets : List Asset) (chunks : List Chunk)
    (arena : List ℕ) : Type 0 where
  pub below : take pos arena ≡ take pos dst
  pub same : AllSame arena assets chunks

load_loop-refused :
    (n : ℕ) (asset : Asset) (assets : List Asset) (pos : ℕ) (dst : List ℕ)
    → refused asset n pos ≡ true
    → (load_loop n (asset ∷ assets) pos dst).0 ≡ none
unfolding load_loop
load_loop-refused n asset assets pos dst e = rw e refl

module _ (n : ℕ) (asset : Asset) (assets : List Asset) (pos : ℕ) (dst : List ℕ) where
  abbrev after : Option (List Chunk) × List ℕ
  after =
      load_loop n assets (add_size pos asset.compressed_len) (copy_at dst pos (asset_bytes asset))

  load_loop-next :
      (o : Option (List Chunk))
      → refused asset n pos ≡ false
      → after.0 ≡ o
      → load_loop n (asset ∷ assets) pos dst ≡ (
        elim o as (λ _. Option (List Chunk)) [
          | none ↦ none
          | some chunks ↦ some (chunk_of asset pos ∷ chunks)
        ],
        after.1,
      )
  unfolding load_loop
  load_loop-next o e f = rw (e, f) refl

  slice_lem :
      (arena : List ℕ)
      → IsWhole asset
      → pos + asset.compressed_len ≤ length dst
      → frame_valid asset.raw_body_len asset.compressed_len ≡ true
      → take (pos + asset.compressed_len) arena
        ≡ take (pos + asset.compressed_len) (copy_at dst pos (asset_bytes asset))
      → (take pos arena ≡ take pos dst) × Same arena asset (chunk_of asset pos)
  unfolding chunk_bytes chunk_of
  slice_lem arena whole fits valid e =
      let len = asset.compressed_len in
      let bytes = asset_bytes asset in
      let size : length bytes ≡ len = omega (arith, length-take len asset.compressed) in
      let front : take (pos + len) arena ≡ take pos dst ++ bytes =
        e ∙ take-copy_at dst pos (pos + len) bytes (omega (arith, size)) fits in
      let at_pos : pos ≡ length (take pos dst) = omega (arith, length-take pos dst) in
      (
        sym (take-take pos (pos + len) arena (omega arith))
            ∙ ap (take pos) front
            ∙ take-append pos (take pos dst) bytes at_pos,
        record {
          chunk_x = refl;
          chunk_z = refl;
          raw_body_len = refl;
          compressed_len = refl;
          valid = valid;
          bytes =
              take-drop pos len arena
              ∙ ap (drop pos) front
              ∙ drop-append pos (take pos dst) bytes at_pos;
        },
      )

load_loop-Loads :
    (n : ℕ) (assets : List Asset) (pos : ℕ) (dst : List ℕ) (chunks : List Chunk)
    → n ≡ length dst
    → n < 2 ^ 32
    → All IsWhole assets
    → (load_loop n assets pos dst).0 ≡ some chunks
    → Loads pos dst assets chunks (load_loop n assets pos dst).1
load_loop-Loads n [] pos dst chunks e small h ok =
    unfold load_loop in
    record {
      below = refl;
      same =
          subst (λ cs. AllSame dst [] cs) (some-injective [] chunks (unfold load_loop in ok))
            no_chunks;
    }
load_loop-Loads n (asset ∷ assets) pos dst chunks e small h ok =
    let len = asset.compressed_len in
    let dst' = copy_at dst pos (asset_bytes asset) in
    elim (Bool-cases (refused asset n pos)) [
      | inl t ↦ absurd (none-ne-some chunks (sym (load_loop-refused n asset assets pos dst t) ∙ ok))
      | inr t ↦ elim (Option-cases (after n asset assets pos dst).0) [
        | inl f ↦ absurd (
            none-ne-some chunks
              (sym (ap (λ r. r.0) (load_loop-next n asset assets pos dst none t f)) ∙ ok))
        | inr (rest, f) ↦
            let fits = refused_lem asset n pos t in
            let next : add_size pos len ≡ pos + len = add_size-eq pos len (omega arith) in
            let step = load_loop-next n asset assets pos dst (some rest) t f in
            let d =
              load_loop-Loads n assets (add_size pos len) dst' rest
                (e ∙ sym (length-copy_at dst pos (asset_bytes asset))) small h.1 f in
            let (below, same) =
              slice_lem n asset assets pos dst (after n asset assets pos dst).1 h.0 (omega arith)
                (accepted-valid asset n pos t)
                (subst
                  (λ k.
                    take k (after n asset assets pos dst).1
                    ≡ take k (copy_at dst pos (asset_bytes asset)))
                  next d.below) in
            subst (λ r. Loads pos dst (asset ∷ assets) chunks r) (sym (ap (λ r. r.1) step))
              (record {
                below = below;
                same =
                    subst (λ cs. AllSame (after n asset assets pos dst).1 (asset ∷ assets) cs)
                      (some-injective (chunk_of asset pos ∷ rest) chunks
                        (sym (ap (λ r. r.0) step) ∙ ok))
                      (more_chunks same d.same);
              })
      ]
    ]

loaded-AllSame :
    (assets : List Asset) (r : Option (List Chunk) × List ℕ)
    → ((chunks : List Chunk) → r.0 ≡ some chunks → AllSame r.1 assets chunks)
    → (loaded r).0 ≡ true
    → AllSame (loaded r).1.arena assets (loaded r).1.chunks
unfolding loaded
loaded-AllSame assets (none, arena) h ok = absurd (false≢true ok)
loaded-AllSame assets (some chunks, arena) h ok = h chunks refl

-- Where the initialisation succeeds, on an arena of less than 2^32 bytes and with assets as long
-- as they say, each chunk has the place, the lengths and the bytes of its asset: no copy has
-- overwritten another.
pub compressed_init_lem :
    (assets : List Asset) (total_bytes : ℕ) (arena : List ℕ)
    → length arena < 2 ^ 32
    → All IsWhole assets
    → (compressed_init assets total_bytes arena).0 ≡ true
    → AllSame
        (compressed_init assets total_bytes arena).1.arena
        assets
        (compressed_init assets total_bytes arena).1.chunks
unfolding compressed_init
compressed_init_lem assets total_bytes arena small h ok =
    elim (Bool-cases (ltb max_chunks (length assets) || ltb (length arena) total_bytes)) [
      | inl t ↦
          let bad : (compressed_init assets total_bytes arena).0 ≡ false = rw t refl in
          absurd (false≢true (sym bad ∙ ok))
      | inr t ↦
          let good : (compressed_init assets total_bytes arena).0
              ≡ (loaded (load_loop (length arena) assets 0 arena)).0 =
            rw t refl in
          rw t (
            loaded-AllSame assets (load_loop (length arena) assets 0 arena)
              (λ chunks e.
                (load_loop-Loads (length arena) assets 0 arena chunks refl small h e).same)
              (sym good ∙ ok))
    ]

loaded-ready : (r : Option (List Chunk) × List ℕ) → (loaded r).0 ≡ (loaded r).1.ready
unfolding loaded
loaded-ready (none, arena) = refl
loaded-ready (some chunks, arena) = refl

pub compressed_init_ready :
    (assets : List Asset) (total_bytes : ℕ) (arena : List ℕ)
    → (compressed_init assets total_bytes arena).0 ≡ true
    → (compressed_init assets total_bytes arena).1.ready ≡ true
unfolding compressed_init
compressed_init_ready assets total_bytes arena ok =
    elim (Bool-cases (ltb max_chunks (length assets) || ltb (length arena) total_bytes)) [
      | inl t ↦
          let same : (compressed_init assets total_bytes arena).0
              ≡ (compressed_init assets total_bytes arena).1.ready =
            rw t (loaded-ready (none, arena)) in
          sym same ∙ ok
      | inr t ↦
          let same : (compressed_init assets total_bytes arena).0
              ≡ (compressed_init assets total_bytes arena).1.ready =
            rw t (loaded-ready (load_loop (length arena) assets 0 arena)) in
          sym same ∙ ok
    ]
