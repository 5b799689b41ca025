-- ===== src/BufferCache/Flush/Readable.antt =====
-- pkg/buffercache/cache.go: Flush returns, empties the cache and loses nothing, for buffers that its own
-- functions can read. What these buffers are to hold is in Total.
use baker.Common.{
  Bytes, List, [], ◌∷◌, ℕ, zero, suc, ◌+◌, ◌*◌, ◌≤◌, ◌<◌, Result, ok, ◌>>=◌, Bool, true, false,
  if◌then◌else◌, length, ◌≡◌, refl, sym, ap, ◌∙◌, subst, inl, inr, arith,
}
use baker.Common.Dict.{Dict}
use baker.BufferCache.Bitmap.{is_set}
use baker.BufferCache.Location.{remove_hot}
use baker.BufferCache.Cold
use baker.BufferCache.Cold.{Bucket, flush_cells}
use baker.BufferCache.{
  uncompressed, Lz4, BufferCache, bucket_at, decompress_and_flush, blocks_text, flush_blocks,
  flush_all, flush_hot, flush_bucket, flush_buckets, flush_cold, flush,
}
use baker.BufferCache.Count.{count_all, count_cold, count_total}
use baker.BufferCache.Flush.{
  IsEmpty, AreEmpty, Cleared, Emptied, bucket_at-set_bucket, length-set_bucket, count_bucket_empty,
  flush_all-Flushed, flush_bucket-Emptied, flush_buckets-Cleared,
}

-- A call returns a value.
pub record Completes {ℓ} {A : Type ℓ} (m : Result A) : Type ℓ where
  pub value : A
  pub call : m ≡ ok value

then_Completes {ℓ κ} :
    {A : Type ℓ} {B : Type κ} (m : Result A) (k : A → Result B) (c : Completes m)
    → Completes (k c.value)
    → Completes (m >>= k)
then_Completes m k c d = record { value = d.value; call = ap (λ t. t >>= k) c.call ∙ d.call }

module _ (z : Lz4) where
  -- The buffers in the cells of a bucket that are taken can be uncompressed.
  abbrev pub IsReadable : Bucket → Type 0
  IsReadable b =
      (i : ℕ)
      → is_set b.freecells i ≡ true
      → Completes (uncompressed z (Cold.get b i).0 (Cold.get b i).1)

  -- So do those of each bucket.
  abbrev pub AreReadable : List Bucket → Type 0
  AreReadable bs = (i : ℕ) (b : Bucket) → bucket_at bs i ≡ ok b → IsReadable b

  -- A hot buffer is a row of blocks that can be uncompressed.
  unfoldable pub AreBlocks : Dict Bytes → Type 0
  AreBlocks [] = Unit
  AreBlocks ((key, buf) ∷ hot) = Completes (blocks_text z (suc (length buf)) buf) × AreBlocks hot

  flush_cell-Completes :
      (b : Bucket) (i : ℕ) (c : BufferCache)
      → IsReadable b
      → Completes (
          if is_set b.freecells i
          then decompress_and_flush z (Cold.get b i).0 (Cold.get b i).1 c
          else ok c)
  unfolding decompress_and_flush
  flush_cell-Completes b i c h = chosen (is_set b.freecells i) (h i)
    where
      chosen :
          (t : Bool)
          → (t ≡ true → Completes (uncompressed z (Cold.get b i).0 (Cold.get b i).1))
          → Completes
              (if t then decompress_and_flush z (Cold.get b i).0 (Cold.get b i).1 c else ok c)
      chosen true k = then_Completes _ _ (k refl) (record { value = _; call = refl })
      chosen false k = record { value = c; call = refl }

  flush_cells-Completes :
      (b : Bucket) (n i : ℕ) (c : BufferCache)
      → IsReadable b
      → Completes (flush_cells (decompress_and_flush z) b n i c)
  unfolding flush_cells
  flush_cells-Completes b zero i c h = record { value = c; call = refl }
  flush_cells-Completes b (suc n) i c h =
      let r = flush_cell-Completes b i c h in
      then_Completes _ _ r (flush_cells-Completes b n (i + 1) r.value h)

  flush_bucket-Completes :
      (bidx : ℕ) (c : BufferCache) (b : Bucket)
      → bucket_at c.cold bidx ≡ ok b
      → IsReadable b
      → Completes (flush_bucket z bidx c)
  unfolding flush_bucket Cold.flush
  flush_bucket-Completes bidx c b at h =
      let r = flush_cells-Completes b (b.freecells.nwords * 64) 0 c h in
      then_Completes (bucket_at c.cold bidx) _ (record { value = b; call = at })
        (then_Completes (Cold.flush (decompress_and_flush z) b c) _
          (then_Completes _ _ r (record { value = _; call = refl }))
          (record { value = _; call = refl }))

  flush_all-Completes :
      (hot : Dict Bytes) (c : BufferCache) → AreBlocks hot → Completes (flush_all z hot c)
  unfolding flush_all flush_blocks AreBlocks
  flush_all-Completes [] c h = record { value = c; call = refl }
  flush_all-Completes ((key, buf) ∷ hot) c h =
      let r =
        then_Completes (blocks_text z (suc (length buf)) buf) _ h.0
          (record { value = _; call = refl }) in
      then_Completes (flush_blocks z buf c) _ r (flush_all-Completes hot r.value h.1)

  bucket_at-Completes : (bs : List Bucket) (i : ℕ) → i < length bs → Completes (bucket_at bs i)
  unfolding bucket_at
  bucket_at-Completes [] i h = absurd (omega (arith, h))
  bucket_at-Completes (b ∷ bs) zero h = record { value = b; call = refl }
  bucket_at-Completes (b ∷ bs) (suc i) h = bucket_at-Completes bs i (omega (arith, h))

  AreReadable-next :
      (a bidx : ℕ) (c c' : BufferCache)
      → AreReadable c.cold
      → Emptied z a bidx c c'
      → AreReadable c'.cold
  AreReadable-next a bidx c c' h e i b at =
      elim (bucket_at-set_bucket c.cold bidx i e.bucket b
        (subst (λ bs. bucket_at bs i ≡ ok b) e.cold at)) [
          | inl p ↦ λ j t. absurd (false_true (sym (subst IsEmpty (sym p.1) e.is_empty j) ∙ t))
          | inr p ↦ h i b p.1
        ]
    where
      false_true : false ≡ true → ⊥
      false_true k = cc

  flush_buckets-Completes :
      (a n bidx : ℕ) (c : BufferCache)
      → bidx + n ≤ length c.cold
      → AreReadable c.cold
      → Completes (flush_buckets z n bidx c)
  unfolding flush_buckets
  flush_buckets-Completes a zero bidx c le h = record { value = c; call = refl }
  flush_buckets-Completes a (suc n) bidx c le h =
      let b = bucket_at-Completes c.cold bidx (omega (arith, le)) in
      let r = flush_bucket-Completes bidx c b.value b.call (h bidx b.value b.call) in
      let e = flush_bucket-Emptied z a bidx c r.value r.call in
      let size = ap length e.cold ∙ length-set_bucket c.cold bidx e.bucket in
      then_Completes (flush_bucket z bidx c) _ r (
        flush_buckets-Completes a n (bidx + 1) r.value (omega (arith, le, size))
          (AreReadable-next a bidx c r.value h e))

  count_cold_empty : (a : ℕ) (bs : List Bucket) → AreEmpty (length bs) bs → count_cold z a bs ≡ 0
  unfolding count_cold bucket_at
  count_cold_empty a [] h = refl
  count_cold_empty a (b ∷ bs) h = omega (
    arith,
    count_bucket_empty z a b (h 0 b (omega arith) refl),
    count_cold_empty a bs (λ i b' lt at. h (suc i) b' (omega (arith, lt)) at),
  )

  flush_cold-Cleared :
      (a : ℕ) (c c' : BufferCache) → flush_cold z c ≡ ok c' → Cleared z a (length c.cold) c c'
  unfolding flush_cold
  flush_cold-Cleared a c c' h =
      let nothing : AreEmpty 0 c.cold = λ i b lt at. absurd (omega (arith, lt)) in
      subst (λ n. Cleared z a n c c') (omega arith)
        (flush_buckets-Cleared z a (length c.cold) 0 c c' nothing h)

  -- What `Flush` does: each byte has been flushed as often as `total` says, and the cache is as good as new.
  pub record Drained (total : ℕ → ℕ) (c c' : BufferCache) : Type 0 where
    pub call : flush z c ≡ ok c'
    pub nothing_lost : (a : ℕ) → count_all a c'.flushed ≡ total a
    pub no_locations : c'.m ≡ []
    pub no_hot : c'.hot ≡ []
    pub no_capacity : c'.hot_cap ≡ 0
    pub no_cold : AreEmpty (length c'.cold) c'.cold

  module _ (c d e : BufferCache) (colds : flush_cold z c ≡ ok d)
      (hots : flush_all z d.hot d ≡ ok e) where
    abbrev drained : BufferCache
    drained = record e { hot = []; hot_cap = 0; m = [] }

    flush-drained : flush z c ≡ ok drained
    unfolding flush flush_hot
    flush-drained =
        let clear : BufferCache → Result BufferCache = λ c2. ok (record c2 { m = [] }) in
        let no_hot : BufferCache → Result BufferCache =
          λ c'. ok (record c' { hot = []; hot_cap = 0; m = remove_hot c'.m }) in
        ap (λ t. t >>= λ c1. flush_hot z c1 >>= clear) colds ∙ ap (λ t. t >>= no_hot >>= clear) hots

    cold_drained : e.cold ≡ d.cold
    cold_drained = ap (λ (t : BufferCache). t.cold) (flush_all-Flushed z 0 d.hot d e hots).same

    drained-AreEmpty : AreEmpty (length d.cold) d.cold
    drained-AreEmpty =
        let r = flush_cold-Cleared 0 c d colds in
        subst (λ n. AreEmpty n d.cold) (sym r.size) r.buckets

    drained-Drained : Drained (λ a. count_total z a c) c drained
    unfolding count_total
    drained-Drained = record {
      call = flush-drained;
      nothing_lost = λ a. omega (
        arith,
        (flush_cold-Cleared a c d colds).total,
        (flush_all-Flushed z a d.hot d e hots).more,
        count_cold_empty a d.cold drained-AreEmpty,
      );
      no_locations = refl;
      no_hot = refl;
      no_capacity = refl;
      no_cold = subst (λ bs. AreEmpty (length bs) bs) (sym cold_drained) drained-AreEmpty;
    }

  pub flush_readable :
      (c : BufferCache)
      → AreReadable c.cold
      → AreBlocks c.hot
      → (c' : BufferCache) × Drained (λ a. count_total z a c) c c'
  unfolding flush_cold
  flush_readable c h k =
      let r = flush_buckets-Completes 0 (length c.cold) 0 c (omega arith) h in
      let hot = (flush_cold-Cleared 0 c r.value r.call).hot in
      let q = flush_all-Completes r.value.hot r.value (subst AreBlocks (sym hot) k) in
      (drained c r.value q.value r.call q.call, drained-Drained c r.value q.value r.call q.call)
