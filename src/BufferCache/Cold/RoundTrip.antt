-- ===== src/BufferCache/Cold/RoundTrip.antt =====
-- pkg/buffercache/cold.go: `put` and then `get`.
use baker.Common.{Bytes, ℕ, ◌*◌, ◌<◌, Bool, true, false, ◌≡◌}
use baker.BufferCache.Bitmap.{set_bit, is_set}
use baker.BufferCache.Cold.{Bucket, get}
use baker.BufferCache.Cold.Cells.{IsWell}

-- What a put does to a bucket: the buffer is in a cell that was free, and the others are as they were.
pub record PutIn (b b' : Bucket) (buf : Bytes) (z : Bool) (i : ℕ) : Type 0 where
  pub in_range : i < b.freecells.nwords * 64
  pub was_free : is_set b.freecells i ≡ false
  pub read_back : get b' i ≡ (buf, z)
  pub others :
      (j : ℕ) → j < b.freecells.nwords * 64 → is_set b.freecells j ≡ true → get b' j ≡ get b j
  pub marked : b'.freecells ≡ set_bit b.freecells i
  pub well : IsWell b'
