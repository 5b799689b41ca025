-- ===== src/BufferCache/Tests.antt =====
-- The theorems on pkg/buffercache, at a bucket of 64 cells of 8 bytes.
use mathlib.Core.Option.{some}
use baker.Common.{
  List, out_of_fuel, ◌-◌, ◌>>=◌, ◌≢◌, Bytes, [], ◌∷◌, ℕ, Bool, true, false, ◌==◌, ◌&&◌, get_or, ◌≡◌,
  arith,
}
use baker.BufferCache.Bitmap.{Bitmap}
use baker.BufferCache.Location.{
  cold_location, cold_bucket_idx, cold_cell_idx, is_cold, cold_location-unpack,
}
use baker.BufferCache.Cold
use baker.BufferCache.Cold.{Bucket}
use baker.BufferCache.{Config, new, Lz4, BufferCache}
use baker.BufferCache.Rounds.Calls.{Call, put_call, flush_call, calls, new-calls}
use baker.BufferCache.Flush.Held.{Block}

cold_location-unpack_example :
    (cold_bucket_idx (cold_location 3 77) ≡ 3)
    × (cold_cell_idx (cold_location 3 77) ≡ 77)
    × (is_cold (cold_location 3 77) ≡ true)
cold_location-unpack_example = cold_location-unpack 3 77 (omega arith) (omega arith)

-- Cell 63 is taken.
abbrev one_taken : Bitmap
one_taken = record { nwords = 1; word = λ k j. k == 0 && j == 63 }

abbrev empty_bucket : Bucket
empty_bucket = record {
  memory = λ i. 0;
  cellbytes = 8;
  freecells = record { nwords = 1; word = λ k j. false };
}

abbrev ab : Bytes
ab = b'a' ∷ b'b' ∷ []

-- A compressor that leaves a buffer as it is.
abbrev stored : Lz4
stored = record { compress = λ s. some s; uncompress = λ s. some s }

abbrev cold_bucket : Bucket
cold_bucket = record {
  memory = λ i. get_or (2 ∷ 0 ∷ 0 ∷ 0 ∷ ab) (i - 504) 0;
  cellbytes = 8;
  freecells = one_taken;
}

-- "ab" in cell 63, and a hot buffer with the blocks "a" and "ab".
abbrev cache : BufferCache
cache = record {
  m = [];
  cold = cold_bucket ∷ [];
  hot = (ab, 1 ∷ 0 ∷ 0 ∷ 0 ∷ b'a' ∷ 2 ∷ 0 ∷ 0 ∷ 128 ∷ ab) ∷ [];
  hot_cap = 11;
  maxcap = 100;
  maxbuflen = 50;
  flushed = [];
  nflushes = 0;
  compression_on = true;
}

abbrev plain : Bytes → Bool → Block
plain s y = record { buf = s; compressed = y; text = s }

abbrev cell : ℕ → ℕ → Block
cell i j = plain ab false

abbrev rows : List (List Block)
rows = (plain (b'a' ∷ []) false ∷ plain ab true ∷ []) ∷ []

-- Cells of 8 bytes, and a hot cache of 20 bytes
abbrev config : Config
config = record {
  max_capacity = 20;
  max_buffer_length = 20;
  cells_per_bucket = 64;
  buckets = 8 ∷ [];
  enable_compression = false;
}

-- The second and third buffer of "a" are in the hot cache, which has no room for the fourth.
abbrev some_calls : List Call
some_calls =
    put_call (b'a' ∷ []) ab
    ∷ put_call (b'a' ∷ []) ab
    ∷ put_call (b'a' ∷ []) ab
    ∷ put_call (b'a' ∷ []) ab
    ∷ flush_call
    ∷ []

new-calls_example : (new config >>= calls stored some_calls) ≢ out_of_fuel
new-calls_example = new-calls stored config some_calls
