-- ===== src/BufferCache/Flush/Held.antt =====
-- pkg/buffercache: what buffers are to hold, without the functions that read them.
use mathlib.Core.Option.{some}
use baker.Common.{
  Bytes, List, [], ◌∷◌, ◌++◌, ℕ, zero, suc, ◌+◌, ◌*◌, ◌/◌, ◌%◌, ◌^◌, ◌≤◌, ◌<◌, ok, Bool, true,
  false, if◌then◌else◌, ltb, length, length-append, take-append, drop-append, get_or, All, ◌≡◌,
  refl, ap, ap₂, ◌∙◌, arith,
}
use baker.Common.Dict.{Dict}
use baker.BufferCache.Bitmap.{is_set}
use baker.BufferCache.Cold
use baker.BufferCache.Cold.{Bucket, prefix_of, put_uint32, uint32, read_at}
use baker.BufferCache.Cold.Cells.{prefix_at, behind, prefix_read, get-get_at}
use baker.BufferCache.{Lz4, block, uncompressed, blocks_text}

-- A buffer as it is put, its mark, and the text that is compressed in it
pub record Block : Type 0 where
  pub buf : Bytes
  pub compressed : Bool
  pub text : Bytes

-- A hot buffer: its blocks, one after the other
abbrev pub row : List Block → Bytes
row [] = []
row (k ∷ ks) = block k.buf k.compressed ++ row ks

-- The texts of its blocks, each with a newline
abbrev pub row_text : List Block → Bytes
row_text [] = []
row_text (k ∷ ks) = k.text ++ b'\n' ∷ row_text ks

length-row : (ks : List Block) → length ks ≤ length (row ks)
unfolding block put_uint32
length-row [] = omega arith
length-row (k ∷ ks) = omega (arith, length-row ks, length-append k.buf (row ks))

module _ (z : Lz4) where
  abbrev pub IsText : Bytes → Bool → Bytes → Type 0
  IsText buf false t = buf ≡ t
  IsText buf true t = z.uncompress buf ≡ some t

  -- The buffer is not too long for a prefix, and the text is the one in it.
  abbrev pub IsBlock : Block → Type 0
  IsBlock k = (length k.buf < 2 ^ 31) × IsText k.buf k.compressed k.text

  uncompressed-IsText :
      (buf : Bytes) (y : Bool) (t : Bytes) → IsText buf y t → uncompressed z buf y ≡ ok t
  unfolding uncompressed
  uncompressed-IsText buf false t h = ap ok h
  uncompressed-IsText buf true t h = rw (uncompressed, h) refl

  blocks_text-row :
      (fuel : ℕ) (ks : List Block)
      → length ks < fuel
      → All IsBlock ks
      → blocks_text z fuel (row ks) ≡ ok (row_text ks)
  unfolding blocks_text block put_uint32
  blocks_text-row zero ks l h = absurd (omega (arith, l))
  blocks_text-row (suc fuel) [] l h = refl
  blocks_text-row (suc fuel) (k ∷ ks) l ((short, holds), rest) =
      let (len, mark) = prefix_read (length k.buf) k.compressed short in
      let fits : ltb (length (k.buf ++ row ks)) (length k.buf) ≡ false =
        ground (arith, length-append k.buf (row ks)) in
      rw
        (
          len,
          mark,
          fits,
          take-append k.buf (row ks),
          drop-append k.buf (row ks),
          uncompressed-IsText k.buf k.compressed k.text holds,
        )
        (rw (blocks_text-row fuel ks (omega (arith, l)) rest) refl)

  pub blocks_text-enough :
      (ks : List Block)
      → All IsBlock ks
      → blocks_text z (suc (length (row ks))) (row ks) ≡ ok (row_text ks)
  blocks_text-enough ks h =
      blocks_text-row (suc (length (row ks))) ks (omega (arith, length-row ks)) h

  -- The hot buffers are rows of blocks.
  abbrev pub AreRows : Dict Bytes → List (List Block) → Type 0
  AreRows [] [] = Unit
  AreRows [] (r ∷ rs) = ⊥
  AreRows (e ∷ hot) [] = ⊥
  AreRows (e ∷ hot) (r ∷ rs) = (e.1 ≡ row r) × All IsBlock r × AreRows hot rs

  -- A cell holds a block: its memory is the prefix of the block, and the buffer behind it. The position of
  -- the cell fits into 32 bits.
  pub record IsHeld (b : Bucket) (i : ℕ) (k : Block) : Type 0 where
    pub within : i * b.cellbytes < 2 ^ 32
    pub prefix :
        read_at b.memory (i * b.cellbytes) 4 ≡ put_uint32 (prefix_of (length k.buf) k.compressed)
    pub behind_prefix : read_at b.memory (i * b.cellbytes + 4) (length k.buf) ≡ k.buf
    pub is_block : IsBlock k

  -- So does each cell that is taken.
  abbrev pub CellsHold : Bucket → (ℕ → Block) → Type 0
  CellsHold b cells = (i : ℕ) → is_set b.freecells i ≡ true → IsHeld b i (cells i)

  abbrev pub BucketsHold : List Bucket → (ℕ → ℕ → Block) → Type 0
  BucketsHold [] cells = Unit
  BucketsHold (b ∷ bs) cells = CellsHold b (cells 0) × BucketsHold bs (λ i. cells (suc i))

  prefix_at-put_uint32 :
      (m : ℕ → ℕ) (pos p : ℕ)
      → read_at m pos 4 ≡ put_uint32 p
      → prefix_at m pos ≡ uint32 (p % 256) (p / 256 % 256) (p / 65536 % 256) (p / 16777216 % 256)
  unfolding read_at put_uint32
  prefix_at-put_uint32 m pos p e =
      let b0 : m pos ≡ p % 256 = ap (λ s. get_or s 0 0) e in
      let b1 : m (pos + 1) ≡ p / 256 % 256 = ap (λ s. get_or s 1 0) e in
      let b2 : m (pos + 1 + 1) ≡ p / 65536 % 256 = ap (λ s. get_or s 2 0) e in
      let b3 : m (pos + 1 + 1 + 1) ≡ p / 16777216 % 256 = ap (λ s. get_or s 3 0) e in
      rw
        (
          b0,
          b1,
          ap m {x = pos + 2} {y = pos + 1 + 1} (omega arith) ∙ b2,
          ap m {x = pos + 3} {y = pos + 1 + 1 + 1} (omega arith) ∙ b3,
        )
        refl

  get-IsHeld :
      (b : Bucket) (i : ℕ) (k : Block) → IsHeld b i k → Cold.get b i ≡ (k.buf, k.compressed)
  get-IsHeld b i k h =
      let (short, _) = h.is_block in
      let (len, mark) = prefix_read (length k.buf) k.compressed short in
      get-get_at b i h.within
      ∙ ap (behind b.memory (i * b.cellbytes)) (
          prefix_at-put_uint32 b.memory (i * b.cellbytes) (prefix_of (length k.buf) k.compressed)
            h.prefix)
      ∙ ap₂ (λ n t. (read_at b.memory (i * b.cellbytes + 4) n, t)) len mark
      ∙ ap (λ s. (s, k.compressed)) h.behind_prefix

  pub uncompressed-IsHeld :
      (b : Bucket) (i : ℕ) (k : Block)
      → IsHeld b i k
      → uncompressed z (Cold.get b i).0 (Cold.get b i).1 ≡ ok k.text
  uncompressed-IsHeld b i k h =
      let (_, holds) = h.is_block in
      ap (λ g. uncompressed z g.0 g.1) (get-IsHeld b i k h)
      ∙ uncompressed-IsText k.buf k.compressed k.text holds

-- The texts of the cells that are taken
abbrev pub cell_texts : Bucket → (ℕ → Block) → ℕ → ℕ → List Bytes
cell_texts b cells zero i = []
cell_texts b cells (suc n) i =
    let rest = cell_texts b cells n (i + 1) in
    if is_set b.freecells i then (cells i).text ∷ rest else rest

abbrev pub cold_texts : List Bucket → (ℕ → ℕ → Block) → List Bytes
cold_texts [] cells = []
cold_texts (b ∷ bs) cells =
    cell_texts b (cells 0) (b.freecells.nwords * 64) 0 ++ cold_texts bs (λ i. cells (suc i))
