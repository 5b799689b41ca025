-- ===== src/BufferCache/Flush.antt =====
-- pkg/buffercache/cache.go: Flush.
pub mod Readable
pub mod Held
pub mod Total
use mathlib.Core.Option.{Option, none, some}
use baker.Common.{
  Bytes, List, [], ◌∷◌, ◌++◌, ℕ, zero, suc, ◌+◌, ◌-◌, ◌*◌, ◌≤◌, ◌<◌, Result, Returned, returned, ok,
  ok-injective, err, panic, out_of_fuel, ◌>>=◌, Bool, true, false, Bool-cases, if◌then◌else◌,
  length, ◌==◌, ==_iff, ==_ne, ◌≡◌, ◌≢◌, refl, sym, ap, ◌∙◌, subst, ◌⊎◌, inl, inr, arith,
}
use baker.Common.Dict.{Dict}
use baker.BufferCache.Bitmap.{Bitmap, is_set, make}
use baker.BufferCache.Bitmap.Free.{is_set-make, nwords-make}
use baker.BufferCache.Location.{remove_hot}
use baker.BufferCache.Cold
use baker.BufferCache.Cold.{Bucket, flush_cells}
use baker.BufferCache.{
  uncompressed, Lz4, BufferCache, set_bucket, bucket_at, decompress_and_flush, flush_blocks,
  flush_all, flush_hot, flush_bucket, flush_buckets, flush_cold, flush,
}
use baker.BufferCache.Count.{
  count_ok, count_all, count_cell, count_cells, count_bucket, count_cold, count_blocks,
  flush_blocks-Flushed, count_hot, count_total, Flushed, Flushed-trans,
  decompress_and_flush-Flushed,
}

-- No cell is taken.
abbrev pub IsEmpty : Bucket → Type 0
IsEmpty b = (i : ℕ) → is_set b.freecells i ≡ false

-- No cell of the first `n` buckets is taken.
abbrev pub AreEmpty : ℕ → List Bucket → Type 0
AreEmpty n bs = (i : ℕ) (b : Bucket) → i < n → bucket_at bs i ≡ ok b → IsEmpty b

pub bucket_at-set_bucket :
    (bs : List Bucket) (i j : ℕ) (b c : Bucket)
    → bucket_at (set_bucket bs i b) j ≡ ok c
    → (i ≡ j) × (c ≡ b) ⊎ (i ≢ j) × (bucket_at bs j ≡ ok c)
unfolding bucket_at set_bucket
bucket_at-set_bucket [] i j b c h = cc
bucket_at-set_bucket (b0 ∷ bs) zero zero b c h = inl (refl, sym (ok-injective h))
bucket_at-set_bucket (b0 ∷ bs) zero (suc j) b c h = inr (omega arith, h)
bucket_at-set_bucket (b0 ∷ bs) (suc i) zero b c h = inr (omega arith, h)
bucket_at-set_bucket (b0 ∷ bs) (suc i) (suc j) b c h = elim (bucket_at-set_bucket bs i j b c h) [
  | inl p ↦ inl (ap suc p.0, p.1)
  | inr p ↦ inr (λ e. p.0 (omega (arith, e)), p.1)
]

pub length-set_bucket :
    (bs : List Bucket) (i : ℕ) (b : Bucket) → length (set_bucket bs i b) ≡ length bs
unfolding set_bucket
length-set_bucket [] i b = refl
length-set_bucket (b0 ∷ bs) zero b = refl
length-set_bucket (b0 ∷ bs) (suc i) b = ap suc (length-set_bucket bs i b)

module _ (z : Lz4) (a : ℕ) where
  Flushed-refl : (c : BufferCache) → Flushed z a 0 c c
  Flushed-refl c = record { same = refl; more = omega arith }

  pub flush_all-Flushed :
      (hot : Dict Bytes) (c c' : BufferCache)
      → flush_all z hot c ≡ ok c'
      → Flushed z a (count_hot z a hot) c c'
  unfolding flush_all count_hot
  flush_all-Flushed [] c c' h = subst (λ d. Flushed z a 0 c d) (ok-injective h) (Flushed-refl c)
  flush_all-Flushed ((key, buf) ∷ hot) c c' h =
      let r = returned (flush_blocks z buf c) _ h in
      Flushed-trans z a (count_blocks z a buf) (count_hot z a hot) c r.value c'
        (flush_blocks-Flushed z a buf c r.value r.call) (flush_all-Flushed hot r.value c' r.rest)

  count_cells_empty : (b : Bucket) (n i : ℕ) → IsEmpty b → count_cells z a b n i ≡ 0
  unfolding count_cells count_cell
  count_cells_empty b zero i h = refl
  count_cells_empty b (suc n) i h = rw (h i) (omega (arith, count_cells_empty b n (i + 1) h))

  flush_cell-Flushed :
      (b : Bucket) (i : ℕ) (c c' : BufferCache)
      → (if is_set b.freecells i
          then decompress_and_flush z (Cold.get b i).0 (Cold.get b i).1 c
          else ok c)
        ≡ ok c'
      → Flushed z a (count_cell z a b i) c c'
  unfolding count_cell
  flush_cell-Flushed b i c c' h = chosen (is_set b.freecells i) h
    where
      chosen :
          (t : Bool)
          → (if t then decompress_and_flush z (Cold.get b i).0 (Cold.get b i).1 c else ok c) ≡ ok c'
          → Flushed z a
              (if t then count_ok a (uncompressed z (Cold.get b i).0 (Cold.get b i).1) else 0)
              c
              c'
      chosen true e = decompress_and_flush-Flushed z a (Cold.get b i).0 (Cold.get b i).1 c c' e
      chosen false e = subst (λ d. Flushed z a 0 c d) (ok-injective e) (Flushed-refl c)

  flush_cells-Flushed :
      (b : Bucket) (n i : ℕ) (c c' : BufferCache)
      → flush_cells (decompress_and_flush z) b n i c ≡ ok c'
      → Flushed z a (count_cells z a b n i) c c'
  unfolding flush_cells count_cells
  flush_cells-Flushed b zero i c c' h =
      subst (λ d. Flushed z a 0 c d) (ok-injective h) (Flushed-refl c)
  flush_cells-Flushed b (suc n) i c c' h =
      let r =
        returned
          (if is_set b.freecells i
            then decompress_and_flush z (Cold.get b i).0 (Cold.get b i).1 c
            else ok c)
          _ h in
      Flushed-trans z a (count_cell z a b i) (count_cells z a b n (i + 1)) c r.value c'
        (flush_cell-Flushed b i c r.value r.call)
        (flush_cells-Flushed b n (i + 1) r.value c' r.rest)

  count_cold-set_bucket :
      (bs : List Bucket) (i : ℕ) (b b' : Bucket)
      → bucket_at bs i ≡ ok b
      → count_cold z a (set_bucket bs i b') + count_bucket z a b
        ≡ count_cold z a bs + count_bucket z a b'
  unfolding count_cold set_bucket bucket_at
  count_cold-set_bucket [] i b b' h = cc
  count_cold-set_bucket (b0 ∷ bs) zero b b' h =
      omega (arith, ap (count_bucket z a) (ok-injective h))
  count_cold-set_bucket (b0 ∷ bs) (suc i) b b' h = omega (arith, count_cold-set_bucket bs i b b' h)

  -- What the flush of one bucket does.
  pub record Emptied (bidx : ℕ) (c c' : BufferCache) : Type 0 where
    pub bucket : Bucket
    pub is_empty : IsEmpty bucket
    pub cold : c'.cold ≡ set_bucket c.cold bidx bucket
    pub hot : c'.hot ≡ c.hot
    pub total : count_total z a c' ≡ count_total z a c

  emptied : Bucket → Bucket
  emptied b = record b { freecells = make b.freecells.nwords }

  pub count_bucket_empty : (b : Bucket) → IsEmpty b → count_bucket z a b ≡ 0
  unfolding count_bucket
  count_bucket_empty b h = count_cells_empty b (b.freecells.nwords * 64) 0 h

  set_bucket-Emptied :
      (bidx : ℕ) (b : Bucket) (c c' : BufferCache)
      → bucket_at c.cold bidx ≡ ok b
      → Flushed z a (count_bucket z a b) c c'
      → Emptied bidx c (record c' { cold = set_bucket c'.cold bidx (emptied b) })
  unfolding count_total emptied
  set_bucket-Emptied bidx b c c' h f =
      let cold : set_bucket c'.cold bidx (emptied b) ≡ set_bucket c.cold bidx (emptied b) =
        ap (λ (t : BufferCache). set_bucket t.cold bidx (emptied b)) f.same in
      let hot : c'.hot ≡ c.hot = ap (λ (t : BufferCache). t.hot) f.same in
      let is_empty : IsEmpty (emptied b) = λ i. is_set-make b.freecells.nwords i in
      record {
        bucket = emptied b;
        is_empty = is_empty;
        cold = cold;
        hot = hot;
        total = omega (
          arith,
          f.more,
          ap (count_cold z a) cold,
          ap (count_hot z a) hot,
          count_cold-set_bucket c.cold bidx b (emptied b) h,
          count_bucket_empty (emptied b) is_empty,
        );
      }

  pub flush_bucket-Emptied :
      (bidx : ℕ) (c c' : BufferCache) → flush_bucket z bidx c ≡ ok c' → Emptied bidx c c'
  unfolding flush_bucket Cold.flush count_bucket emptied
  flush_bucket-Emptied bidx c c' h =
      let r = returned (bucket_at c.cold bidx) _ h in
      let q = returned (Cold.flush (decompress_and_flush z) r.value c) _ r.rest in
      let p =
        returned (flush_cells (decompress_and_flush z) r.value (r.value.freecells.nwords * 64) 0 c)
          _ q.call in
      subst (λ d. Emptied bidx c d)
        (ap (λ t. record t.1 { cold = set_bucket t.1.cold bidx t.0 }) (ok-injective p.rest)
          ∙ ok-injective q.rest)
        (set_bucket-Emptied bidx r.value c p.value r.call
          (flush_cells-Flushed r.value (r.value.freecells.nwords * 64) 0 c p.value p.call))

  AreEmpty-next :
      (bidx : ℕ) (c c' : BufferCache)
      → AreEmpty bidx c.cold
      → Emptied bidx c c'
      → AreEmpty (bidx + 1) c'.cold
  AreEmpty-next bidx c c' h e i b lt at =
      elim (bucket_at-set_bucket c.cold bidx i e.bucket b
        (subst (λ bs. bucket_at bs i ≡ ok b) e.cold at)) [
          | inl p ↦ subst IsEmpty (sym p.1) e.is_empty
          | inr p ↦ h i b (omega (arith, p.0, lt)) p.1
        ]

  -- What the flush of `n` buckets does.
  pub record Cleared (n : ℕ) (c c' : BufferCache) : Type 0 where
    pub buckets : AreEmpty n c'.cold
    pub size : length c'.cold ≡ length c.cold
    pub hot : c'.hot ≡ c.hot
    pub total : count_total z a c' ≡ count_total z a c

  pub flush_buckets-Cleared :
      (n bidx : ℕ) (c c' : BufferCache)
      → AreEmpty bidx c.cold
      → flush_buckets z n bidx c ≡ ok c'
      → Cleared (bidx + n) c c'
  unfolding flush_buckets
  flush_buckets-Cleared zero bidx c c' h e =
      subst (λ d. Cleared (bidx + 0) c d) (ok-injective e)
        (record {
          buckets = subst (λ k. AreEmpty k c.cold) (omega arith) h;
          size = refl;
          hot = refl;
          total = refl;
        })
  flush_buckets-Cleared (suc n) bidx c c' h e =
      let r = returned (flush_bucket z bidx c) _ e in
      let s = flush_bucket-Emptied bidx c r.value r.call in
      let q =
        flush_buckets-Cleared n (bidx + 1) r.value c' (AreEmpty-next bidx c r.value h s) r.rest in
      record {
        buckets = subst (λ k. AreEmpty k c'.cold) (omega arith) q.buckets;
        size = q.size ∙ ap length s.cold ∙ length-set_bucket c.cold bidx s.bucket;
        hot = q.hot ∙ s.hot;
        total = q.total ∙ s.total;
      }
