-- ===== src/BufferCache/Count.antt =====
-- pkg/buffercache: how often a byte occurs in what was flushed and in what is held.
use baker.Common.{
  Bytes, List, [], ◌∷◌, ◌++◌, ℕ, zero, suc, ◌+◌, ◌*◌, Result, returned, ok, ok-injective, err,
  panic, out_of_fuel, Bool, if◌then◌else◌, length, ◌==◌, ◌≡◌, refl, sym, ap, ◌∙◌, subst, arith,
}
use baker.Common.Dict.{Dict}
use baker.BufferCache.Bitmap.{is_set}
use baker.BufferCache.Cold
use baker.BufferCache.Cold.{Bucket}
use baker.BufferCache.{
  Lz4, BufferCache, on_flush, uncompressed, decompress_and_flush, blocks_text, flush_blocks,
}

module _ (a : ℕ) where
  unfoldable pub count : Bytes → ℕ
  count [] = 0
  count (c ∷ s) = (if c == a then 1 else 0) + count s

  pub count-append : (s t : Bytes) → count (s ++ t) ≡ count s + count t
  unfolding count
  count-append [] t = omega arith
  count-append (c ∷ s) t = omega (arith, count-append s t)

  -- Of a text, if there is one.
  abbrev pub count_ok : Result Bytes → ℕ
  count_ok (ok s) = count s
  count_ok (err e) = 0
  count_ok panic = 0
  count_ok out_of_fuel = 0

  unfoldable pub count_all : List Bytes → ℕ
  count_all [] = 0
  count_all (s ∷ ss) = count s + count_all ss

  pub count_all-append : (ss ts : List Bytes) → count_all (ss ++ ts) ≡ count_all ss + count_all ts
  unfolding count_all
  count_all-append [] ts = omega arith
  count_all-append (s ∷ ss) ts = omega (arith, count_all-append ss ts)

module _ (z : Lz4) (a : ℕ) where
  -- In the buffers of the cells, once they are uncompressed
  unfoldable pub count_cell : Bucket → ℕ → ℕ
  count_cell b i =
      if is_set b.freecells i
      then count_ok a (uncompressed z (Cold.get b i).0 (Cold.get b i).1)
      else 0

  unfoldable pub count_cells : Bucket → ℕ → ℕ → ℕ
  count_cells b zero i = 0
  count_cells b (suc n) i = count_cell b i + count_cells b n (i + 1)

  unfoldable pub count_bucket : Bucket → ℕ
  unfolding count_cells
  count_bucket b = count_cells b (b.freecells.nwords * 64) 0

  unfoldable pub count_cold : List Bucket → ℕ
  count_cold [] = 0
  count_cold (b ∷ bs) = count_bucket b + count_cold bs

  -- In the blocks of the hot buffers, once they are uncompressed
  unfoldable pub count_blocks : Bytes → ℕ
  count_blocks buf = count_ok a (blocks_text z (suc (length buf)) buf)

  unfoldable pub count_hot : Dict Bytes → ℕ
  count_hot [] = 0
  count_hot ((key, buf) ∷ hot) = count_blocks buf + count_hot hot

  -- In all that was flushed and all that is held
  unfoldable pub count_total : BufferCache → ℕ
  count_total c = count_all a c.flushed + count_cold c.cold + count_hot c.hot

  -- What a step that only flushes does: `n` more of the byte are flushed, and nothing else changes.
  pub record Flushed (n : ℕ) (c c' : BufferCache) : Type 0 where
    pub same : c' ≡ record c { flushed = c'.flushed; nflushes = c'.nflushes }
    pub more : count_all a c'.flushed ≡ count_all a c.flushed + n

  pub Flushed-trans :
      (n k : ℕ) (c d e : BufferCache) → Flushed n c d → Flushed k d e → Flushed (n + k) c e
  Flushed-trans n k c d e p q = record {
    same =
        q.same
        ∙ ap (λ (t : BufferCache). record t { flushed = e.flushed; nflushes = e.nflushes }) p.same;
    more = omega (arith, p.more, q.more);
  }

  on_flush-Flushed : (s : Bytes) (c : BufferCache) → Flushed (count a s) c (on_flush s c)
  unfolding on_flush count_all
  on_flush-Flushed s c = record {
    same = refl;
    more = omega (arith, count_all-append a c.flushed (s ∷ []));
  }

  pub flush_blocks-Flushed :
      (buf : Bytes) (c c' : BufferCache)
      → flush_blocks z buf c ≡ ok c'
      → Flushed (count_blocks buf) c c'
  unfolding flush_blocks count_blocks
  flush_blocks-Flushed buf c c' h =
      let r = returned (blocks_text z (suc (length buf)) buf) _ h in
      subst (λ d. Flushed (count_ok a (blocks_text z (suc (length buf)) buf)) c d)
        (ok-injective r.rest)
        (subst (λ n. Flushed n c (on_flush r.value c)) (sym (ap (count_ok a) r.call))
          (on_flush-Flushed r.value c))

  pub decompress_and_flush-Flushed :
      (buf : Bytes) (y : Bool) (c c' : BufferCache)
      → decompress_and_flush z buf y c ≡ ok c'
      → Flushed (count_ok a (uncompressed z buf y)) c c'
  unfolding decompress_and_flush
  decompress_and_flush-Flushed buf y c c' h =
      let r = returned (uncompressed z buf y) _ h in
      subst (λ d. Flushed (count_ok a (uncompressed z buf y)) c d) (ok-injective r.rest)
        (subst (λ n. Flushed n c (on_flush r.value c)) (sym (ap (count_ok a) r.call))
          (on_flush-Flushed r.value c))
