-- ===== src/BufferCache/Rounds.antt =====
-- pkg/buffercache/cache.go: the loop over blocks, and the calls between putInHot and putInCold.
pub mod Put
pub mod Calls
use mathlib.Core.Option.{Option, none, some}
use baker.Common.{
  equal, equal_iff, Bytes, List, [], ◌∷◌, ◌++◌, ℕ, zero, suc, ◌+◌, ◌-◌, ◌*◌, ◌^◌, ◌%◌, ◌≤◌, ◌<◌,
  Result, ok, err, panic, out_of_fuel, ◌>>=◌, Bool, true, false, Bool-cases, if◌then◌else◌, length,
  take, drop, length-drop, ltb, leb, ◌==◌, ==_iff, ◌≡◌, refl, sym, ap, ◌∙◌, subst, ◌⊎◌, inl, inr,
  arith,
}
use baker.Common.Dict.{Dict, lookup, insert, delete, lookup-delete}
use baker.BufferCache.Bitmap.{is_set}
use baker.BufferCache.Location.{
  is_cold, cold_bucket_idx, cold_cell_idx, hot_cache_location, remove_cold,
}
use baker.BufferCache.Cold
use baker.BufferCache.Cold.{Bucket, flush_cells, uint32, smallest_fit_bucket}
use baker.BufferCache.{
  Lz4, BufferCache, on_flush, set_bucket, bucket_at, uncompressed, decompress_and_flush,
  blocks_text, flush_blocks, flush_all, flush_hot, flush_bucket, stored, put_again, put_in_bucket,
  put_in_cold, put_block, flush_entry, put_in_hot, rounds, move_to_hot_cache, compress_buffer,
  put_buffer, put,
}

-- A call ends within its fuel, and what it returns is in P.
abbrev pub Ends {ℓ} : {A : Type ℓ} → (A → Type 0) → Result A → Type 0
Ends P (ok a) = P a
Ends P (err e) = Unit
Ends P panic = Unit
Ends P out_of_fuel = ⊥

module _ {ℓ κ} {A : Type ℓ} {B : Type κ} where
  pub then_Ends :
      (P : A → Type 0) (Q : B → Type 0) (m : Result A) (k : A → Result B)
      → Ends P m
      → ((a : A) → P a → Ends Q (k a))
      → Ends Q (m >>= k)
  then_Ends P Q (ok a) k p q = q a p
  then_Ends P Q (err e) k p q = tt
  then_Ends P Q panic k p q = tt
  then_Ends P Q out_of_fuel k p q = p

  pub option_Ends :
      (Q : B → Type 0) (o : Option A) (x : Result B) (f : A → Result B)
      → (o ≡ none → Ends Q x)
      → ((a : A) → o ≡ some a → Ends Q (f a))
      → Ends Q (elim o [ none ↦ x | some a ↦ f a ])
  option_Ends Q none x f p q = p refl
  option_Ends Q (some a) x f p q = q a refl

pub if_Ends {κ} :
    {B : Type κ} (Q : B → Type 0) (b : Bool) (x y : Result B)
    → (b ≡ true → Ends Q x)
    → (b ≡ false → Ends Q y)
    → Ends Q (if b then x else y)
if_Ends Q true x y p q = p refl
if_Ends Q false x y p q = q refl

abbrev pub Any {ℓ} : {A : Type ℓ} → A → Type 0
Any a = Unit

-- A hot cache has room for one buffer.
abbrev pub HasRoom : BufferCache → Type 0
HasRoom c = c.maxbuflen ≤ c.maxcap

-- The limits are as they were.
pub record Limited (c d : BufferCache) : Type 0 where
  pub cap : d.maxcap ≡ c.maxcap
  pub buflen : d.maxbuflen ≡ c.maxbuflen

pub Limited-refl : (c : BufferCache) → Limited c c
Limited-refl c = record { cap = refl; buflen = refl }

pub Limited-trans : (c d e : BufferCache) → Limited c d → Limited d e → Limited c e
Limited-trans c d e p q = record { cap = q.cap ∙ p.cap; buflen = q.buflen ∙ p.buflen }

-- All but what was flushed is as it was.
abbrev pub Same : BufferCache → BufferCache → Type 0
Same c d = d ≡ record c { flushed = d.flushed; nflushes = d.nflushes }

pub Same-Limited : (c d : BufferCache) → Same c d → Limited c d
Same-Limited c d s = record {
  cap = ap (λ (t : BufferCache). t.maxcap) s;
  buflen = ap (λ (t : BufferCache). t.maxbuflen) s;
}

pub bucket_at-Ends : (bs : List Bucket) (i : ℕ) → Ends Any (bucket_at bs i)
unfolding bucket_at
bucket_at-Ends [] i = tt
bucket_at-Ends (b ∷ bs) zero = tt
bucket_at-Ends (b ∷ bs) (suc i) = bucket_at-Ends bs i

module _ (z : Lz4) where
  uncompressed-Ends : (buf : Bytes) (y : Bool) → Ends Any (uncompressed z buf y)
  unfolding uncompressed
  uncompressed-Ends buf false = tt
  uncompressed-Ends buf true = option_Ends Any (z.uncompress buf) panic ok (λ e. tt) (λ a e. tt)

  decompress_and_flush-Ends :
      (buf : Bytes) (y : Bool) (c : BufferCache) → Ends (Limited c) (decompress_and_flush z buf y c)
  unfolding decompress_and_flush on_flush
  decompress_and_flush-Ends buf y c =
      then_Ends Any (Limited c) (uncompressed z buf y) _ (uncompressed-Ends buf y)
        (λ b t. record { cap = refl; buflen = refl })

  blocks_text-Ends :
      (fuel : ℕ) (buf : Bytes) → length buf < fuel → Ends Any (blocks_text z fuel buf)
  unfolding blocks_text
  blocks_text-Ends zero buf h = absurd (omega (arith, h))
  blocks_text-Ends (suc fuel) [] h = tt
  blocks_text-Ends (suc fuel) (b0 ∷ []) h = tt
  blocks_text-Ends (suc fuel) (b0 ∷ b1 ∷ []) h = tt
  blocks_text-Ends (suc fuel) (b0 ∷ b1 ∷ b2 ∷ []) h = tt
  blocks_text-Ends (suc fuel) (b0 ∷ b1 ∷ b2 ∷ b3 ∷ rest) h =
      let n = uint32 b0 b1 b2 b3 % 2 ^ 31 in
      let next = uncompressed z (take n rest) (leb (2 ^ 31) (uint32 b0 b1 b2 b3)) in
      let more = blocks_text-Ends fuel (drop n rest) (omega (arith, h, length-drop n rest)) in
      if_Ends {B = Bytes} Any (ltb (length rest) n) panic _ (λ e. tt)
        (λ e.
          then_Ends {B = Bytes} Any Any next _
            (uncompressed-Ends (take n rest) (leb (2 ^ 31) (uint32 b0 b1 b2 b3)))
            (λ b t.
              then_Ends {B = Bytes} Any Any (blocks_text z fuel (drop n rest))
                (λ s. ok (b ++ b'\n' ∷ s)) more (λ s u. tt)))

  pub flush_blocks-Ends : (buf : Bytes) (c : BufferCache) → Ends (Same c) (flush_blocks z buf c)
  unfolding flush_blocks on_flush
  flush_blocks-Ends buf c =
      then_Ends Any (Same c) (blocks_text z (suc (length buf)) buf) _
        (blocks_text-Ends (suc (length buf)) buf (omega arith)) (λ b t. refl)

  pub flush_all-Ends :
      (hot : Dict Bytes) (c d : BufferCache) → Limited c d → Ends (Limited c) (flush_all z hot d)
  unfolding flush_all
  flush_all-Ends [] c d l = l
  flush_all-Ends ((key, buf) ∷ hot) c d l =
      then_Ends (Same d) (Limited c) (flush_blocks z buf d) _ (flush_blocks-Ends buf d)
        (λ e k. flush_all-Ends hot c e (Limited-trans c d e l (Same-Limited d e k)))

  flush_cells-Ends :
      (b : Bucket) (n i : ℕ) (c d : BufferCache)
      → Limited c d
      → Ends (Limited c) (flush_cells (decompress_and_flush z) b n i d)
  unfolding flush_cells
  flush_cells-Ends b zero i c d l = l
  flush_cells-Ends b (suc n) i c d l =
      then_Ends (Limited d) (Limited c) (if is_set b.freecells i then _ else ok d) _
        (if_Ends (Limited d) (is_set b.freecells i) _ (ok d) (λ e. decompress_and_flush-Ends _ _ d)
          (λ e. Limited-refl d))
        (λ e k. flush_cells-Ends b n (i + 1) c e (Limited-trans c d e l k))

  pub flush_bucket-Ends : (bidx : ℕ) (c : BufferCache) → Ends (Limited c) (flush_bucket z bidx c)
  unfolding flush_bucket Cold.flush
  flush_bucket-Ends bidx c =
      let Q = λ (r : Bucket × BufferCache). Limited c r.1 in
      then_Ends Any (Limited c) (bucket_at c.cold bidx) _ (bucket_at-Ends c.cold bidx) (λ b t.
        then_Ends Q (Limited c) (Cold.flush (decompress_and_flush z) b c) _
          (then_Ends (Limited c) Q
            (flush_cells (decompress_and_flush z) b (b.freecells.nwords * 64) 0 c) _
            (flush_cells-Ends b (b.freecells.nwords * 64) 0 c c (Limited-refl c)) (λ d l. l))
          (λ r l. record { cap = l.cap; buflen = l.buflen }))
