-- ===== src/BufferCache.antt =====
-- pkg/buffercache/cache.go: a map from keys to buffers that is made for appending, and flushes itself. A
-- key's first buffer is put in a cell of the cold cache, the next ones are gathered in the hot cache. The
-- calls of onFlush are the list of what was flushed; the order in which Go reads a map is that of the
-- list. The compressor (lz4) is a parameter, as what compress and uncompress return; the growing of their
-- working memory is not modelled, nor is the reuse of that memory and of a cell's by the next call.
pub mod Bitmap
pub mod Location
pub mod Cold
pub mod Count
pub mod Flush
pub mod Rounds
mod Tests
use mathlib.Core.Option.{Option, none, some}
use baker.Common.{
  Bytes, List, [], ◌∷◌, ◌++◌, ℕ, zero, suc, ◌+◌, ◌-◌, ◌*◌, ◌/◌, ◌%◌, ◌^◌, Result, ok, err,
  bad_config, panic, out_of_fuel, ◌>>=◌, Bool, true, false, not, if◌then◌else◌, length, take, drop,
  get_or, ◌==◌, ◌&&◌, ◌||◌, leb, ltb,
}
use baker.Common.Dict.{Dict, lookup, insert, delete}
use baker.BufferCache.Bitmap.{clear_bit}
use baker.BufferCache.Location.{
  LocationMap, hot_cache_location, is_cold, cold_bucket_idx, cold_cell_idx, cold_location,
  remove_cold, remove_hot,
}
use baker.BufferCache.Cold
use baker.BufferCache.Cold.{
  Bucket, prefix_of, put_uint32, uint32, new_cold_cache, smallest_fit_bucket,
}

-- `compressor.compress`, `none` for (nil, false), and `decompressor.uncompress`, `none` for a panic.
pub record Lz4 : Type 0 where
  pub compress : Bytes → Option Bytes
  pub uncompress : Bytes → Option Bytes

pub record Config : Type 0 where
  pub max_capacity : ℕ
  pub max_buffer_length : ℕ
  pub cells_per_bucket : ℕ
  pub buckets : List ℕ
  pub enable_compression : Bool

pub record BufferCache : Type 0 where
  pub m : LocationMap
  pub cold : List Bucket
  pub hot : Dict Bytes
  pub hot_cap : ℕ
  pub maxcap : ℕ
  pub maxbuflen : ℕ
  pub flushed : List Bytes
  pub nflushes : ℕ
  pub compression_on : Bool

-- `New`. The lengths of the configuration are not negative.
unfoldable pub new : Config → Result BufferCache
new cfg = if ltb cfg.max_capacity cfg.max_buffer_length then err bad_config else do
  cold ← new_cold_cache cfg.cells_per_bucket cfg.buckets
  ok (record {
    m = [];
    cold = cold;
    hot = [];
    hot_cap = 0;
    maxcap = cfg.max_capacity;
    maxbuflen = cfg.max_buffer_length;
    flushed = [];
    nflushes = 0;
    compression_on = cfg.enable_compression;
  })

-- `c.onFlush(buf)`
unfoldable pub on_flush : Bytes → BufferCache → BufferCache
on_flush buf c = record c { flushed = c.flushed ++ buf ∷ []; nflushes = c.nflushes + 1 }

-- `bs[i] = b`
unfoldable pub set_bucket : List Bucket → ℕ → Bucket → List Bucket
set_bucket [] i b = []
set_bucket (b0 ∷ bs) zero b = b ∷ bs
set_bucket (b0 ∷ bs) (suc i) b = b0 ∷ set_bucket bs i b

-- `bs[i]`, which panics out of range.
unfoldable pub bucket_at : List Bucket → ℕ → Result Bucket
bucket_at [] i = panic
bucket_at (b ∷ bs) zero = ok b
bucket_at (b ∷ bs) (suc i) = bucket_at bs i

-- A block of a hot buffer: the prefix and the buffer.
unfoldable pub block : Bytes → Bool → Bytes
block buf compressed = put_uint32 (prefix_of (length buf) compressed) ++ buf

module _ (z : Lz4) where
  -- `uncompressSimple` of a compressed buffer, or the buffer.
  unfoldable pub uncompressed : Bytes → Bool → Result Bytes
  uncompressed buf false = ok buf
  uncompressed buf true = elim (z.uncompress buf) [ none ↦ panic | some b ↦ ok b ]

  unfoldable pub decompress_and_flush : Bytes → Bool → BufferCache → Result BufferCache
  unfolding uncompressed on_flush
  decompress_and_flush buf compressed c = do b ← uncompressed buf compressed; ok (on_flush b c)

  -- The loop of `flushBlocks`: the text of the blocks, each with a newline behind it. A slice out of
  -- range panics.
  unfoldable pub blocks_text : ℕ → Bytes → Result Bytes
  unfolding uncompressed
  blocks_text zero buf = out_of_fuel
  blocks_text (suc fuel) [] = ok []
  blocks_text (suc fuel) (b0 ∷ b1 ∷ b2 ∷ b3 ∷ rest) =
      let blocklen = uint32 b0 b1 b2 b3 % 2 ^ 31 in
      if ltb (length rest) blocklen then panic else (do
        b ← uncompressed (take blocklen rest) (leb (2 ^ 31) (uint32 b0 b1 b2 b3))
        text ← blocks_text fuel (drop blocklen rest)
        ok (b ++ b'\n' ∷ text))
  blocks_text (suc fuel) _ = panic

  unfoldable pub flush_blocks : Bytes → BufferCache → Result BufferCache
  unfolding blocks_text on_flush
  flush_blocks buf c = do text ← blocks_text (suc (length buf)) buf; ok (on_flush text c)

  -- The loop of `flushHot`
  unfoldable pub flush_all : Dict Bytes → BufferCache → Result BufferCache
  unfolding flush_blocks
  flush_all [] c = ok c
  flush_all ((key, buf) ∷ hot) c = do c' ← flush_blocks buf c; flush_all hot c'

  unfoldable pub flush_hot : BufferCache → Result BufferCache
  unfolding flush_all
  flush_hot c = do
    c' ← flush_all c.hot c
    ok (record c' { hot = []; hot_cap = 0; m = remove_hot c'.m })

  -- `c.cold.buckets[bidx].flush(c.decompressAndFlush)`
  unfoldable pub flush_bucket : ℕ → BufferCache → Result BufferCache
  unfolding decompress_and_flush set_bucket bucket_at
  flush_bucket bidx c = do
    b ← bucket_at c.cold bidx
    (b', c') ← Cold.flush decompress_and_flush b c
    ok (record c' { cold = set_bucket c'.cold bidx b' })

  -- The loop of `flushCold`
  unfoldable pub flush_buckets : ℕ → ℕ → BufferCache → Result BufferCache
  unfolding flush_bucket
  flush_buckets zero bidx c = ok c
  flush_buckets (suc n) bidx c = do c' ← flush_bucket bidx c; flush_buckets n (bidx + 1) c'

  unfoldable pub flush_cold : BufferCache → Result BufferCache
  unfolding flush_buckets
  flush_cold c = flush_buckets (length c.cold) 0 c

  -- `Flush`
  unfoldable pub flush : BufferCache → Result BufferCache
  unfolding flush_cold flush_hot
  flush c = do c1 ← flush_cold c; c2 ← flush_hot c1; ok (record c2 { m = [] })

  -- The bucket's cell and the location, for a buffer that has been put in a bucket.
  unfoldable pub stored : Bytes → ℕ → ℕ × Bucket → BufferCache → BufferCache
  unfolding set_bucket
  stored key bidx (cidx, b) c = record c {
    cold = set_bucket c.cold bidx b;
    m = insert key (cold_location bidx cidx) c.m;
  }

  -- The second try, in a bucket that was just flushed.
  unfoldable pub put_again : Bytes → Bytes → Bool → ℕ → BufferCache → Result BufferCache
  unfolding stored bucket_at
  put_again key buf compressed bidx c = do
    b ← bucket_at c.cold bidx
    elim (Cold.put buf compressed b) [ none ↦ panic | some r ↦ ok (stored key bidx r c) ]

  -- The first try in a bucket, which is flushed if it is full.
  unfoldable pub put_in_bucket : Bytes → Bytes → Bool → ℕ → BufferCache → Result BufferCache
  unfolding stored flush_bucket bucket_at put_again
  put_in_bucket key buf compressed bidx c = do
    b ← bucket_at c.cold bidx
    elim (Cold.put buf compressed b) [
      | some r ↦ ok (stored key bidx r c)
      | none ↦ flush_bucket bidx c >>= λ c'.
          put_again key buf compressed bidx (record c' { m = remove_cold bidx c'.m })
    ]

  -- `putInCold`, with what `putInHot` does for this key and buffer as an argument.
  unfoldable pub put_in_cold :
      (BufferCache → Result BufferCache) → Bytes → Bytes → Bool → BufferCache → Result BufferCache
  unfolding put_in_bucket
  put_in_cold in_hot key buf compressed c = elim (smallest_fit_bucket c.cold (length buf)) [
    | none ↦ in_hot (record c { m = insert key hot_cache_location c.m })
    | some bidx ↦ put_in_bucket key buf compressed bidx c
  ]

  -- `c.hot.m[key] = bbuf`, which is longer by a block.
  unfoldable pub put_block : Bytes → Bytes → Bool → Bytes → BufferCache → BufferCache
  unfolding block
  put_block key buf compressed bbuf c = record c {
    hot = insert key (bbuf ++ block buf compressed) c.hot;
    hot_cap = c.hot_cap + length buf + 4;
  }

  -- `delete(c.m.m, key)`, `delete(c.hot.m, key)`, the flush, and what the buffer took of the capacity.
  unfoldable pub flush_entry : Bytes → Bytes → BufferCache → Result BufferCache
  unfolding flush_blocks
  flush_entry key bbuf c = do
    c' ← flush_blocks bbuf (record c { m = delete key c.m; hot = delete key c.hot })
    ok (record c' { hot_cap = c'.hot_cap - length bbuf })

  -- `putInHot` and `putInCold` call each other; the fuel bounds the calls of the first.
  unfoldable pub put_in_hot : ℕ → Bytes → Bytes → Bool → BufferCache → Result BufferCache
  unfolding put_block flush_entry flush_hot put_in_cold
  put_in_hot zero key buf compressed c = out_of_fuel
  put_in_hot (suc fuel) key buf compressed c =
      let again = λ (d : BufferCache).
        put_in_cold (put_in_hot fuel key buf compressed) key buf compressed d in
      if ltb c.maxbuflen (length buf + 4)
      then panic
      else if ltb c.maxcap (c.hot_cap + length buf + 4)
      then flush_hot c >>= again
      else elim (lookup key c.hot) [
        | none ↦ ok (put_block key buf compressed [] c)
        | some bbuf ↦
            if ltb c.maxbuflen (length buf + length bbuf + 4)
            then flush_entry key bbuf c >>= again
            else ok (put_block key buf compressed bbuf c)
      ]

  -- Calls of `putInHot` in one of `Put`
  abbrev pub rounds : ℕ
  rounds = 2

  -- `moveToHotCache`
  unfoldable pub move_to_hot_cache : Bytes → ℕ → BufferCache → Result BufferCache
  unfolding put_in_hot bucket_at set_bucket
  move_to_hot_cache key loc c = do
    b ← bucket_at c.cold (cold_bucket_idx loc)
    let (l, compressed) = Cold.get b (cold_cell_idx loc)
    let freed = record b { freecells = clear_bit b.freecells (cold_cell_idx loc) }
    c' ←
        put_in_hot rounds key l compressed
          (record c { cold = set_bucket c.cold (cold_bucket_idx loc) freed })
    ok (record c' { m = insert key hot_cache_location c'.m })

  -- What `Put` stores: the compressed buffer, if compression is on and it is compressible.
  unfoldable pub compress_buffer : BufferCache → Bytes → Bytes × Bool
  compress_buffer c buf =
      if c.compression_on
      then (elim (z.compress buf) [ none ↦ (buf, false) | some zbuf ↦ (zbuf, true) ])
      else (buf, false)

  -- `Put`, once the buffer is compressed.
  unfoldable pub put_buffer : Bytes → Bytes → Bool → BufferCache → Result BufferCache
  unfolding move_to_hot_cache put_in_hot put_in_cold
  put_buffer key buf compressed c = elim (lookup key c.m) [
    | none ↦ put_in_cold (put_in_hot rounds key buf compressed) key buf compressed c
    | some loc ↦
        (if is_cold loc then move_to_hot_cache key loc c else ok c)
        >>= put_in_hot rounds key buf compressed
  ]

  -- `Put`
  unfoldable pub put : Bytes → Bytes → BufferCache → Result BufferCache
  unfolding compress_buffer put_buffer
  put key buf c = put_buffer key (compress_buffer c buf).0 (compress_buffer c buf).1 c
