-- ===== src/World/Data.antt =====
-- core/src/mc_world.c: what the loops over the cells write.
use mathlib.Core.Path.{subst}
use starrysky_mc_server.Prelude.{
  ℕ, zero, suc, ◌+◌, ◌-◌, ◌*◌, ◌%◌, ◌≤◌, ◌≡◌, refl, sym, ap, ◌∙◌, arith, List, [], ◌∷◌, ◌++◌,
  length, drop, copy_at, replicate, shr, length-append, length-drop, length-replicate, append_assoc,
  append-nil,
}
use starrysky_mc_server.World.{block_for_y, put_block, x_loop, z_loop, y_loop, chunk_data}

-- Cells of one block, the low byte first.
unfoldable pub cells : ℕ → ℕ → List ℕ
cells zero block = []
cells (suc n) block = (block % 256) ∷ ((shr block 8 % 256) ∷ cells n block)

cells-append : (m n block : ℕ) → cells (m + n) block ≡ cells m block ++ cells n block
unfolding cells
cells-append zero n block = ap (λ k. cells k block) (let e : zero + n ≡ n = omega arith in e)
cells-append (suc m) n block =
    ap (λ k. cells k block) (let e : suc m + n ≡ suc (m + n) = omega arith in e)
    ∙ ap (λ l. (block % 256) ∷ ((shr block 8 % 256) ∷ l)) (cells-append m n block)

pub length-cells : (n block : ℕ) → length (cells n block) ≡ 2 * n
unfolding cells
length-cells zero block = omega arith
length-cells (suc n) block = omega (arith, length-cells n block)

drop-nil : (n : ℕ) → drop {A = ℕ} n [] ≡ []
drop-nil zero = refl
drop-nil (suc n) = refl

drop-drop : (m n : ℕ) (xs : List ℕ) → drop n (drop m xs) ≡ drop (m + n) xs
drop-drop zero n xs = ap (λ k. drop k xs) (let e : n ≡ zero + n = omega arith in e)
drop-drop (suc m) n [] = drop-nil n ∙ sym (drop-nil (suc m + n))
drop-drop (suc m) n (x ∷ xs) =
    drop-drop m n xs
    ∙ ap (λ k. drop k (x ∷ xs)) (let e : suc (m + n) ≡ suc m + n = omega arith in e)

-- `f` writes `new` at `off`, over what was there.
abbrev Overwrites : ℕ → List ℕ → (List ℕ → List ℕ) → Type 0
Overwrites off new f =
    (pre post : List ℕ)
    → off ≡ length pre
    → length new ≤ length post
    → f (pre ++ post) ≡ pre ++ (new ++ drop (length new) post)

then-Overwrites :
    (off off' : ℕ) (xs ys : List ℕ) (f g : List ℕ → List ℕ)
    → off' ≡ off + length xs
    → Overwrites off xs f
    → Overwrites off' ys g
    → Overwrites off (xs ++ ys) (λ mem. g (f mem))
then-Overwrites off off' xs ys f g e hf hg pre post at room =
    let n = length-append xs ys in
    let rest = drop (length xs) post in
    ap g (hf pre post at (omega (arith, n)) ∙ sym (append_assoc pre xs rest))
    ∙ hg (pre ++ xs) rest (omega (arith, length-append pre xs))
        (omega (arith, n, length-drop (length xs) post))
    ∙ append_assoc pre xs (ys ++ drop (length ys) rest)
    ∙ ap (λ l. pre ++ l)
        (sym (append_assoc xs ys (drop (length ys) rest))
          ∙ ap (λ l. (xs ++ ys) ++ l)
              (drop-drop (length xs) (length ys) post ∙ ap (λ k. drop k post) (sym n)))

none-Overwrites : (off : ℕ) → Overwrites off [] (λ mem. mem)
none-Overwrites off pre post at room = refl

copy_at-Overwrites : (src : List ℕ) (off : ℕ) → Overwrites off src (λ mem. copy_at mem off src)
copy_at-Overwrites [] zero [] [] at room = refl
copy_at-Overwrites [] zero [] (q ∷ post) at room = refl
copy_at-Overwrites (x ∷ src) zero [] [] at room = absurd (omega arith)
copy_at-Overwrites (x ∷ src) zero [] (q ∷ post) at room =
    ap (λ l. x ∷ l) (copy_at-Overwrites src zero [] post refl (omega arith))
copy_at-Overwrites src (suc off) [] post at room = absurd (omega arith)
copy_at-Overwrites src zero (p ∷ pre) post at room = absurd (omega arith)
copy_at-Overwrites src (suc off) (p ∷ pre) post at room =
    ap (λ l. p ∷ l) (copy_at-Overwrites src off pre post (omega arith) room)

put_block-Overwrites : (block off : ℕ) → Overwrites off (cells 1 block) (put_block block off)
unfolding put_block cells
put_block-Overwrites block off pre [] at room = absurd (omega arith)
put_block-Overwrites block off pre (a ∷ []) at room = absurd (omega arith)
put_block-Overwrites block zero [] (a ∷ (b ∷ post)) at room = refl
put_block-Overwrites block (suc off) [] (a ∷ (b ∷ post)) at room = absurd (omega arith)
put_block-Overwrites block zero (p ∷ pre) (a ∷ (b ∷ post)) at room = absurd (omega arith)
put_block-Overwrites block (suc off) (p ∷ pre) (a ∷ (b ∷ post)) at room =
    rw (let e : suc off + 1 ≡ suc (off + 1) = omega arith in e)
      (ap (λ l. p ∷ l) (put_block-Overwrites block off pre (a ∷ (b ∷ post)) (omega arith) room))

x_loop-Overwrites :
    (left y z block off : ℕ)
    → left ≤ 16
    → off ≡ ((y * 16 + z) * 16 + (16 - left)) * 2
    → Overwrites off (cells left block) (x_loop left y z block)
unfolding x_loop cells
x_loop-Overwrites zero y z block off h e = none-Overwrites off
x_loop-Overwrites (suc left) y z block off h e =
    let at : ((y * 16 + z) * 16 + (15 - left)) * 2 ≡ off = omega arith in
    rw at (
      then-Overwrites off (off + 2) (cells 1 block) (cells left block) (put_block block off)
        (x_loop left y z block) refl (put_block-Overwrites block off)
        (x_loop-Overwrites left y z block (off + 2) (omega arith) (omega arith)))

z_loop-Overwrites :
    (left y block off : ℕ)
    → left ≤ 16
    → off ≡ (y * 16 + (16 - left)) * 32
    → Overwrites off (cells (16 * left) block) (z_loop left y block)
unfolding z_loop cells
z_loop-Overwrites zero y block off h e = none-Overwrites off
z_loop-Overwrites (suc left) y block off h e =
    subst (λ l. Overwrites off l (λ mem. z_loop left y block (x_loop 16 y (15 - left) block mem)))
      (sym (cells-append 16 (16 * left) block)
        ∙ ap (λ k. cells k block) (let e : 16 + 16 * left ≡ 16 * suc left = omega arith in e))
      (then-Overwrites off (off + 32) (cells 16 block) (cells (16 * left) block)
        (x_loop 16 y (15 - left) block) (z_loop left y block) (omega (arith, length-cells 16 block))
        (x_loop-Overwrites 16 y (15 - left) block off (omega arith) (omega arith))
        (z_loop-Overwrites left y block (off + 32) (omega arith) (omega arith)))

-- The layers that are left.
unfoldable layers : ℕ → List ℕ
layers zero = []
layers (suc left) = cells 256 (block_for_y (15 - left)) ++ layers left

length-layers : (left : ℕ) → length (layers left) ≡ 512 * left
unfolding layers
length-layers zero = omega arith
length-layers (suc left) = omega (
  arith,
  length-append (cells 256 (block_for_y (15 - left))) (layers left),
  length-cells 256 (block_for_y (15 - left)),
  length-layers left,
)

y_loop-Overwrites :
    (left off : ℕ)
    → left ≤ 16
    → off ≡ (16 - left) * 512
    → Overwrites off (layers left) (y_loop left)
unfolding y_loop layers
y_loop-Overwrites zero off h e = none-Overwrites off
y_loop-Overwrites (suc left) off h e =
    then-Overwrites off (off + 512) (cells 256 (block_for_y (15 - left))) (layers left)
      (z_loop 16 (15 - left) (block_for_y (15 - left))) (y_loop left)
      (omega (arith, length-cells 256 (block_for_y (15 - left))))
      (z_loop-Overwrites 16 (15 - left) (block_for_y (15 - left)) off (omega arith) (omega arith))
      (y_loop-Overwrites left (off + 512) (omega arith) (omega arith))

air_layers : (left : ℕ) → left ≤ 11 → layers left ≡ cells (256 * left) 0
unfolding layers
air_layers zero h = unfold cells in refl
air_layers (suc left) h =
    let air : block_for_y (15 - left) ≡ 0 = unfold block_for_y in ground arith in
    rw air (
      ap (λ l. cells 256 0 ++ l) (air_layers left (omega arith))
      ∙ sym (cells-append 256 (256 * left) 0)
      ∙ ap (λ k. cells k 0) (let e : 256 + 256 * left ≡ 256 * suc left = omega arith in e))

dirt_layers :
    (l : List ℕ) → cells 256 48 ++ (cells 256 48 ++ (cells 256 48 ++ l)) ≡ cells 768 48 ++ l
dirt_layers l =
    ap (λ r. cells 256 48 ++ r)
      (sym (append_assoc (cells 256 48) (cells 256 48) l)
        ∙ ap (λ r. r ++ l) (sym (cells-append 256 256 48)))
    ∙ sym (append_assoc (cells 256 48) (cells 512 48) l)
    ∙ ap (λ r. r ++ l) (sym (cells-append 256 512 48))

-- A layer of bedrock, three of dirt, one of grass, and eleven of air.
unfoldable pub ground_blocks : List ℕ
ground_blocks = cells 256 112 ++ (cells 768 48 ++ (cells 256 32 ++ cells 2816 0))

layers_lem : layers 16 ≡ ground_blocks
unfolding layers block_for_y ground_blocks
layers_lem =
    ap (λ l. cells 256 112 ++ l)
      (dirt_layers (cells 256 32 ++ layers 11)
        ∙ ap (λ l. cells 768 48 ++ (cells 256 32 ++ l)) (air_layers 11 (omega arith)))

-- Full light and one biome.
unfoldable pub light_and_biomes : List ℕ
light_and_biomes = replicate 2048 0xff ++ (replicate 2048 0xff ++ replicate 256 1)

drop_all : (xs : List ℕ) (n : ℕ) → length xs ≤ n → drop n xs ≡ []
drop_all [] n h = drop-nil n
drop_all (x ∷ xs) zero h = absurd (omega arith)
drop_all (x ∷ xs) (suc n) h = drop_all xs n (omega arith)

module _ (light biomes zeros : List ℕ) where
  abbrev fill : List ℕ → List ℕ
  fill blocks = copy_at (copy_at (copy_at blocks 8192 light) 10240 light) 12288 biomes

  fill_lem :
      length light ≡ 2048
      → length biomes ≡ 256
      → length zeros ≡ 12544
      → fill (y_loop 16 zeros) ≡ layers 16 ++ (light ++ (light ++ biomes))
  fill_lem hl hb hz =
      let n = length-layers 16 in
      let sky =
        then-Overwrites 10240 12288 light biomes (λ mem. copy_at mem 10240 light)
          (λ mem. copy_at mem 12288 biomes) (omega arith) (copy_at-Overwrites light 10240)
          (copy_at-Overwrites biomes 12288) in
      let lit =
        then-Overwrites 8192 10240 light (light ++ biomes) (λ mem. copy_at mem 8192 light)
          (λ mem. copy_at (copy_at mem 10240 light) 12288 biomes) (omega arith)
          (copy_at-Overwrites light 8192) sky in
      let all =
        then-Overwrites 0 8192 (layers 16) (light ++ (light ++ biomes)) (y_loop 16) fill
          (omega arith) (y_loop-Overwrites 16 0 (omega arith) (omega arith)) lit in
      let total : length (layers 16 ++ (light ++ (light ++ biomes))) ≡ 12544 = omega (
        arith,
        n,
        length-append (layers 16) (light ++ (light ++ biomes)),
        length-append light (light ++ biomes),
        length-append light biomes,
      ) in
      all [] zeros refl (omega arith)
      ∙ ap (λ l. (layers 16 ++ (light ++ (light ++ biomes))) ++ l) (drop_all zeros _ (omega arith))
      ∙ append-nil (layers 16 ++ (light ++ (light ++ biomes)))

-- The data of a chunk, whatever its place: a layer of bedrock, three of dirt, one of grass and eleven
-- of air, two bytes for a cell; then full light for blocks and sky, and one biome.
pub chunk_data_lem : chunk_data ≡ ground_blocks ++ light_and_biomes
unfolding chunk_data light_and_biomes
chunk_data_lem =
    fill_lem (replicate 2048 0xff) (replicate 256 1) (replicate 12544 0)
      (length-replicate {A = ℕ} 2048 0xff) (length-replicate {A = ℕ} 256 1)
      (length-replicate {A = ℕ} 12544 0)
    ∙ ap (λ l. l ++ (replicate 2048 0xff ++ (replicate 2048 0xff ++ replicate 256 1))) layers_lem

pub length-chunk_data : length chunk_data ≡ 12544
unfolding ground_blocks light_and_biomes
length-chunk_data = ap length chunk_data_lem ∙ simp (length-append, length-cells) refl
