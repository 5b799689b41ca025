-- ===== src/BufferCache/Rounds/Put.antt =====
-- pkg/buffercache/cache.go: one call of Put or Flush.
use mathlib.Core.Option.{none}
use baker.Common.{
  equal_iff, Bytes, [], ℕ, zero, suc, ◌+◌, ◌≤◌, Result, ok, err, panic, out_of_fuel, Bool,
  if◌then◌else◌, length, ltb, ltb→lt, ltb-false, ◌≡◌, refl, ap, ◌∙◌, arith,
}
use baker.Common.Dict.{Dict, lookup, insert, delete, lookup-delete}
use baker.BufferCache.Location.{
  LocationMap, is_cold, cold_bucket_idx, cold_cell_idx, hot_cache_location,
}
use baker.BufferCache.Bitmap.{clear_bit}
use baker.BufferCache.Cold
use baker.BufferCache.Cold.{Bucket, is_sorted, new_buckets, new_cold_cache, smallest_fit_bucket}
use baker.BufferCache.{
  Lz4, BufferCache, set_bucket, bucket_at, flush_blocks, flush_all, flush_hot, flush_bucket,
  flush_buckets, flush_cold, flush, stored, put_again, put_in_bucket, put_in_cold, put_block,
  flush_entry, put_in_hot, move_to_hot_cache, put_buffer,
}
use baker.BufferCache.Rounds.{
  Ends, then_Ends, option_Ends, if_Ends, Any, HasRoom, Limited, Limited-refl, Limited-trans, Same,
  bucket_at-Ends, flush_blocks-Ends, flush_all-Ends, flush_bucket-Ends,
}

weaken_Ends {ℓ} :
    {A : Type ℓ} (P Q : A → Type 0) (m : Result A) → Ends P m → ((a : A) → P a → Q a) → Ends Q m
weaken_Ends P Q (ok a) p f = f a p
weaken_Ends P Q (err e) p f = tt
weaken_Ends P Q panic p f = tt
weaken_Ends P Q out_of_fuel p f = p

pub HasRoom-Limited : (c d : BufferCache) → HasRoom c → Limited c d → HasRoom d
HasRoom-Limited c d h l = omega (arith, h, l.cap, l.buflen)

lookup-delete_same {ℓ} : {V : Type ℓ} (key : Bytes) (m : Dict V) → lookup key (delete key m) ≡ none
lookup-delete_same key m = ground (arith, lookup-delete key key m, equal_iff key key)

module _ (z : Lz4) where
  stored-Limited :
      (key : Bytes) (bidx : ℕ) (r : ℕ × Bucket) (c d : BufferCache)
      → Limited c d
      → Limited c (stored z key bidx r d)
  unfolding stored
  stored-Limited key bidx r c d l = record { cap = l.cap; buflen = l.buflen }

  -- The hot cache is empty.
  record IsFlushed (c d : BufferCache) : Type 0 where
    limited : Limited c d
    hot : d.hot ≡ []
    hot_cap : d.hot_cap ≡ 0

  flush_hot-Ends : (c : BufferCache) → Ends (IsFlushed c) (flush_hot z c)
  unfolding flush_hot
  flush_hot-Ends c =
      then_Ends (Limited c) (IsFlushed c) (flush_all z c.hot c) _
        (flush_all-Ends z c.hot c c (Limited-refl c))
        (λ d l. record {
          limited = record { cap = l.cap; buflen = l.buflen };
          hot = refl;
          hot_cap = refl;
        })

  -- The key has no hot buffer.
  record IsFreed (key : Bytes) (c d : BufferCache) : Type 0 where
    limited : Limited c d
    hot : lookup key d.hot ≡ none
    hot_cap : d.hot_cap ≤ c.hot_cap

  flush_entry-Ends :
      (key bbuf : Bytes) (c : BufferCache) → Ends (IsFreed key c) (flush_entry z key bbuf c)
  unfolding flush_entry
  flush_entry-Ends key bbuf c =
      let c' = record c { m = delete key c.m; hot = delete key c.hot } in
      then_Ends (Same c') (IsFreed key c) (flush_blocks z bbuf c') _ (flush_blocks-Ends z bbuf c')
        (λ d s. record {
          limited = record {
            cap = ap (λ (t : BufferCache). t.maxcap) s;
            buflen = ap (λ (t : BufferCache). t.maxbuflen) s;
          };
          hot = ap (λ (t : BufferCache). lookup key t.hot) s ∙ lookup-delete_same key c.hot;
          hot_cap = omega (arith, ap (λ (t : BufferCache). t.hot_cap) s);
        })

  put_again-Ends :
      (key buf : Bytes) (y : Bool) (bidx : ℕ) (c d : BufferCache)
      → Limited c d
      → Ends (Limited c) (put_again z key buf y bidx d)
  unfolding put_again
  put_again-Ends key buf y bidx c d l =
      then_Ends Any (Limited c) (bucket_at d.cold bidx) _ (bucket_at-Ends d.cold bidx) (λ b t.
        option_Ends (Limited c) (Cold.put buf y b) panic _ (λ e. tt)
          (λ r e. stored-Limited key bidx r c d l))

  put_in_bucket-Ends :
      (key buf : Bytes) (y : Bool) (bidx : ℕ) (c d : BufferCache)
      → Limited c d
      → Ends (Limited c) (put_in_bucket z key buf y bidx d)
  unfolding put_in_bucket
  put_in_bucket-Ends key buf y bidx c d l =
      then_Ends Any (Limited c) (bucket_at d.cold bidx) _ (bucket_at-Ends d.cold bidx) (λ b t.
        option_Ends (Limited c) (Cold.put buf y b) _ _
          (λ e.
            then_Ends (Limited d) (Limited c) (flush_bucket z bidx d) _ (flush_bucket-Ends z bidx d)
              (λ g k.
                put_again-Ends key buf y bidx c _
                  (let j = Limited-trans c d g l k in record { cap = j.cap; buflen = j.buflen })))
          (λ r e. stored-Limited key bidx r c d l))

  put_in_cold-Ends :
      (in_hot : BufferCache → Result BufferCache) (key buf : Bytes) (y : Bool) (c d : BufferCache)
      → Limited c d
      → ((m : LocationMap) → Ends (Limited c) (in_hot (record d { m = m })))
      → Ends (Limited c) (put_in_cold z in_hot key buf y d)
  unfolding put_in_cold
  put_in_cold-Ends in_hot key buf y c d l h =
      option_Ends (Limited c) (smallest_fit_bucket d.cold (length buf)) _ _
        (λ e. h (insert key hot_cache_location d.m))
        (λ bidx e. put_in_bucket-Ends key buf y bidx c d l)

  -- With room for the buffer, and no hot buffer of the key, the first call of `putInHot` is the last.
  put_in_hot_fresh :
      (fuel : ℕ) (key buf : Bytes) (y : Bool) (c d : BufferCache)
      → Limited c d
      → lookup key d.hot ≡ none
      → (length buf + 4 ≤ d.maxbuflen → d.hot_cap + length buf + 4 ≤ d.maxcap)
      → Ends (Limited c) (put_in_hot z (suc fuel) key buf y d)
  unfolding put_in_hot put_block
  put_in_hot_fresh fuel key buf y c d l n h =
      if_Ends (Limited c) (ltb d.maxbuflen (length buf + 4)) panic _ (λ e. tt)
        (λ e.
          if_Ends (Limited c) (ltb d.maxcap (d.hot_cap + length buf + 4)) _ _
            (λ e'. absurd (omega (arith, h (ltb-false _ _ e), ltb→lt _ _ e')))
            (λ e'.
              option_Ends (Limited c) (lookup key d.hot) _ _
                (λ k. record { cap = l.cap; buflen = l.buflen }) (λ v k. absurd (cc))))

  -- The second call of `putInHot`, from `putInCold`, with the hot cache as a flush left it
  put_in_cold_fresh :
      (fuel : ℕ) (key buf : Bytes) (y : Bool) (c d : BufferCache)
      → Limited c d
      → lookup key d.hot ≡ none
      → (length buf + 4 ≤ d.maxbuflen → d.hot_cap + length buf + 4 ≤ d.maxcap)
      → Ends (Limited c) (put_in_cold z (put_in_hot z (suc fuel) key buf y) key buf y d)
  put_in_cold_fresh fuel key buf y c d l n h =
      put_in_cold-Ends (put_in_hot z (suc fuel) key buf y) key buf y c d l (λ m.
        put_in_hot_fresh fuel key buf y c (record d { m = m })
          (record { cap = l.cap; buflen = l.buflen }) n h)

  put_in_hot-Ends :
      (fuel : ℕ) (key buf : Bytes) (y : Bool) (c : BufferCache)
      → HasRoom c
      → Ends (Limited c) (put_in_hot z (suc (suc fuel)) key buf y c)
  unfolding put_in_hot put_block lookup
  put_in_hot-Ends fuel key buf y c room =
      if_Ends (Limited c) (ltb c.maxbuflen (length buf + 4)) panic _ (λ e. tt)
        (λ e.
          if_Ends (Limited c) (ltb c.maxcap (c.hot_cap + length buf + 4)) _ _
            (λ f. then_Ends (IsFlushed c) (Limited c) (flush_hot z c) _ (flush_hot-Ends c) (λ d k.
              put_in_cold_fresh fuel key buf y c d k.limited (ap (lookup key) k.hot)
                (λ h. omega (arith, h, room, k.hot_cap, k.limited.cap, k.limited.buflen))))
            (λ f.
              option_Ends (Limited c) (lookup key c.hot) _ _
                (λ n. record { cap = refl; buflen = refl })
                (λ bbuf n.
                  if_Ends (Limited c) (ltb c.maxbuflen (length buf + length bbuf + 4)) _ _
                    (λ g.
                      then_Ends (IsFreed key c) (Limited c) (flush_entry z key bbuf c) _
                        (flush_entry-Ends key bbuf c)
                        (λ d k.
                          put_in_cold_fresh fuel key buf y c d k.limited k.hot
                            (λ h. omega (arith, ltb-false _ _ f, k.hot_cap, k.limited.cap))))
                    (λ g. record { cap = refl; buflen = refl }))))

  -- A call of `putInHot` by `Put`
  put_in_hot_twice :
      (key buf : Bytes) (y : Bool) (c d : BufferCache)
      → HasRoom c
      → Limited c d
      → Ends (Limited c) (put_in_hot z 2 key buf y d)
  put_in_hot_twice key buf y c d room l =
      weaken_Ends (Limited d) (Limited c) (put_in_hot z 2 key buf y d)
        (put_in_hot-Ends 0 key buf y d (HasRoom-Limited c d room l))
        (λ e k. Limited-trans c d e l k)

  move_to_hot_cache-Ends :
      (key : Bytes) (loc : ℕ) (c : BufferCache)
      → HasRoom c
      → Ends (Limited c) (move_to_hot_cache z key loc c)
  unfolding move_to_hot_cache
  move_to_hot_cache-Ends key loc c room =
      then_Ends Any (Limited c) (bucket_at c.cold (cold_bucket_idx loc)) _
        (bucket_at-Ends c.cold (cold_bucket_idx loc))
        (λ b t.
          let freed = record b { freecells = clear_bit b.freecells (cold_cell_idx loc) } in
          let r = Cold.get b (cold_cell_idx loc) in
          let d = record c { cold = set_bucket c.cold (cold_bucket_idx loc) freed } in
          then_Ends (Limited c) (Limited c) (put_in_hot z 2 key r.0 r.1 d) _
            (put_in_hot_twice key r.0 r.1 c d room (record { cap = refl; buflen = refl }))
            (λ e l. record { cap = l.cap; buflen = l.buflen }))

  pub put_buffer-Ends :
      (key buf : Bytes) (y : Bool) (c : BufferCache)
      → HasRoom c
      → Ends (Limited c) (put_buffer z key buf y c)
  unfolding put_buffer
  put_buffer-Ends key buf y c room =
      option_Ends (Limited c) (lookup key c.m) _ _
        (λ e. put_in_cold-Ends (put_in_hot z 2 key buf y) key buf y c c (Limited-refl c) (λ m.
          put_in_hot_twice key buf y c (record c { m = m }) room
            (record { cap = refl; buflen = refl })))
        (λ loc e.
          then_Ends (Limited c) (Limited c)
            (if is_cold loc then move_to_hot_cache z key loc c else ok c) _
            (if_Ends (Limited c) (is_cold loc) _ (ok c) (λ t. move_to_hot_cache-Ends key loc c room)
              (λ t. Limited-refl c))
            (λ d l. put_in_hot_twice key buf y c d room l))

  flush_buckets-Ends :
      (n bidx : ℕ) (c d : BufferCache) → Limited c d → Ends (Limited c) (flush_buckets z n bidx d)
  unfolding flush_buckets
  flush_buckets-Ends zero bidx c d l = l
  flush_buckets-Ends (suc n) bidx c d l =
      then_Ends (Limited d) (Limited c) (flush_bucket z bidx d) _ (flush_bucket-Ends z bidx d)
        (λ e k. flush_buckets-Ends n (bidx + 1) c e (Limited-trans c d e l k))

  pub flush-Ends : (c : BufferCache) → Ends (Limited c) (flush z c)
  unfolding flush flush_cold
  flush-Ends c =
      then_Ends (Limited c) (Limited c) (flush_cold z c) _
        (flush_buckets-Ends (length c.cold) 0 c c (Limited-refl c))
        (λ d l. then_Ends (IsFlushed d) (Limited c) (flush_hot z d) _ (flush_hot-Ends d) (λ e k.
          let j = Limited-trans c d e l k.limited in record { cap = j.cap; buflen = j.buflen }))
