-- ===== src/BufferCache/Cold.antt =====
-- pkg/buffercache/cold.go: buckets of cells, each of which holds one buffer behind a prefix of 4 bytes.
-- The memory of a bucket is a function on its bytes; every write is within a cell.
pub mod Cells
pub mod RoundTrip
use mathlib.Core.Option.{Option, none, some}
use baker.Common.{
  Bytes, List, [], ◌∷◌, ◌++◌, ℕ, zero, suc, ◌+◌, ◌-◌, ◌*◌, ◌/◌, ◌%◌, ◌^◌, Result, ok, err,
  bad_config, panic, ◌>>=◌, Bool, true, false, not, if◌then◌else◌, length, ◌==◌, ◌&&◌, ◌||◌, leb,
  ltb,
}
use baker.BufferCache.Bitmap.{Bitmap, find_free_cell, set_bit, is_set, make}

pub record Bucket : Type 0 where
  pub memory : ℕ → ℕ
  pub cellbytes : ℕ
  pub freecells : Bitmap

unfoldable pub new_bucket : ℕ → ℕ → Bucket
unfolding make
new_bucket ncells cellbytes = record {
  memory = λ i. 0;
  cellbytes = cellbytes;
  freecells = make (ncells / 64);
}

-- The length of the buffer and the highest bit for a compressed one, as a uint32.
unfoldable pub prefix_of : ℕ → Bool → ℕ
prefix_of len false = len % 2 ^ 32
prefix_of len true = if ltb (len % 2 ^ 32) (2 ^ 31) then len % 2 ^ 32 + 2 ^ 31 else len % 2 ^ 32

-- `binary.LittleEndian.PutUint32`
unfoldable pub put_uint32 : ℕ → Bytes
put_uint32 n = n % 256 ∷ n / 256 % 256 ∷ n / 65536 % 256 ∷ n / 16777216 % 256 ∷ []

-- `binary.LittleEndian.Uint32`
unfoldable pub uint32 : ℕ → ℕ → ℕ → ℕ → ℕ
uint32 a b c d = a + b * 256 + c * 65536 + d * 16777216

-- `copy(memory[pos:], s)`
unfoldable pub write_at : (ℕ → ℕ) → ℕ → Bytes → ℕ → ℕ
write_at memory pos [] = memory
write_at memory pos (c ∷ s) = write_at (λ i. if pos == i then c else memory i) (pos + 1) s

-- `memory[pos : pos+n]`
unfoldable pub read_at : (ℕ → ℕ) → ℕ → ℕ → Bytes
read_at memory pos zero = []
read_at memory pos (suc n) = memory pos ∷ read_at memory (pos + 1) n

-- The cell's number, and the bucket with the buffer in it; `none` for (-1, false).
unfoldable pub put : Bytes → Bool → Bucket → Option (ℕ × Bucket)
unfolding prefix_of put_uint32 write_at
put buf compressed b = elim (find_free_cell b.freecells) [
  | none ↦ none
  | some idx ↦ some (
    idx,
    record b {
      memory =
          write_at
            (write_at b.memory (idx * b.cellbytes) (put_uint32 (prefix_of (length buf) compressed)))
            (idx * b.cellbytes + 4) buf;
      freecells = set_bit b.freecells idx;
    },
  )
]

-- The position is a uint32: it wraps in a bucket of more than 4 GB.
unfoldable pub get : Bucket → ℕ → Bytes × Bool
unfolding uint32 read_at
get b cellidx =
    let pos = cellidx * b.cellbytes % 2 ^ 32 in
    let m = b.memory in
    let prefix = uint32 (m pos) (m (pos + 1)) (m (pos + 2)) (m (pos + 3)) in
    (read_at m (pos + 4) (prefix % 2 ^ 31), leb (2 ^ 31) prefix)

-- The buffers in the `n` cells from `i` on, in order, with `f` called on each of them.
unfoldable pub flush_cells {ℓ} :
    {S : Type ℓ} → (Bytes → Bool → S → Result S) → Bucket → ℕ → ℕ → S → Result S
flush_cells f b zero i s = ok s
flush_cells f b (suc n) i s =
    (if is_set b.freecells i then f (get b i).0 (get b i).1 s else ok s) >>= λ s'.
    flush_cells f b n (i + 1) s'

-- `flush` calls `f` on the buffer of each cell that is taken, and frees all cells.
unfoldable pub flush {ℓ} :
    {S : Type ℓ} → (Bytes → Bool → S → Result S) → Bucket → S → Result (Bucket × S)
unfolding flush_cells make
flush f b s = do
  s' ← flush_cells f b (b.freecells.nwords * 64) 0 s
  ok (record b { freecells = make b.freecells.nwords }, s')

unfoldable pub is_sorted : List ℕ → Bool
is_sorted [] = true
is_sorted (a ∷ []) = true
is_sorted (a ∷ b ∷ bs) = leb a b && is_sorted (b ∷ bs)

unfoldable pub new_buckets : ℕ → List ℕ → List Bucket
unfolding new_bucket
new_buckets ncells [] = []
new_buckets ncells (bsize ∷ bsizes) = new_bucket ncells bsize ∷ new_buckets ncells bsizes

unfoldable pub new_cold_cache : ℕ → List ℕ → Result (List Bucket)
unfolding is_sorted new_buckets
new_cold_cache ncells bsizes =
    if ncells == 0 || not (ncells % 64 == 0)
    then err bad_config
    else if not (is_sorted bsizes)
    then err bad_config
    else ok (new_buckets ncells bsizes)

-- The first bucket whose cells hold `l` bytes and the prefix; `none` for -1.
unfoldable pub smallest_fit_bucket : List Bucket → ℕ → Option ℕ
smallest_fit_bucket [] l = none
smallest_fit_bucket (b ∷ bs) l =
    let rest = smallest_fit_bucket bs l in
    if leb (l + 4) b.cellbytes then some 0 else elim rest [ none ↦ none | some i ↦ some (suc i) ]
