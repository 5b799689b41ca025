-- ===== src/BufferCache/Rounds/Calls.antt =====
-- pkg/buffercache/cache.go: calls of Put and Flush on a cache.
use baker.Common.{
  Bytes, List, [], ◌∷◌, ℕ, ◌%◌, Result, ok, err, bad_config, ◌||◌, not, panic, out_of_fuel, ◌>>=◌,
  ltb, ltb-false, ◌==◌, ◌≢◌,
}
use baker.BufferCache.Cold.{Bucket, is_sorted, new_buckets, new_cold_cache}
use baker.BufferCache.{Lz4, Config, BufferCache, new, flush, put}
use baker.BufferCache.Rounds.{Ends, then_Ends, if_Ends, Any, HasRoom, Limited}
use baker.BufferCache.Rounds.Put.{HasRoom-Limited, put_buffer-Ends, flush-Ends}

-- A call of the cache by its user
pub data Call : Type 0 where
  put_call : Bytes → Bytes → Call
  flush_call : Call

module _ (z : Lz4) where
  unfoldable pub call : Call → BufferCache → Result BufferCache
  unfolding put flush
  call (put_call key buf) c = put z key buf c
  call flush_call c = flush z c

  unfoldable pub calls : List Call → BufferCache → Result BufferCache
  unfolding call
  calls [] c = ok c
  calls (a ∷ rest) c = do c' ← call a c; calls rest c'

  call-Ends : (a : Call) (c : BufferCache) → HasRoom c → Ends (Limited c) (call a c)
  unfolding call put
  call-Ends (put_call key buf) c h = put_buffer-Ends z key _ _ c h
  call-Ends flush_call c h = flush-Ends z c

  calls-Ends : (rest : List Call) (c : BufferCache) → HasRoom c → Ends HasRoom (calls rest c)
  unfolding calls
  calls-Ends [] c h = h
  calls-Ends (a ∷ rest) c h =
      then_Ends (Limited c) HasRoom (call a c) _ (call-Ends a c h)
        (λ d l. calls-Ends rest d (HasRoom-Limited c d h l))

new_cold_cache-Ends :
    (n : ℕ) (bsizes : List ℕ) → Ends (Any {A = List Bucket}) (new_cold_cache n bsizes)
unfolding new_cold_cache
new_cold_cache-Ends n bsizes =
    if_Ends {B = List Bucket} Any (n == 0 || not (n % 64 == 0)) (err bad_config) _ (λ e. tt)
      (λ e.
        if_Ends {B = List Bucket} Any (not (is_sorted bsizes)) (err bad_config)
          (ok (new_buckets n bsizes)) (λ f. tt) (λ f. tt))

new-Ends : (cfg : Config) → Ends HasRoom (new cfg)
unfolding new
new-Ends cfg =
    if_Ends HasRoom (ltb cfg.max_capacity cfg.max_buffer_length) (err bad_config) _ (λ e. tt)
      (λ e.
        then_Ends {A = List Bucket} Any HasRoom (new_cold_cache cfg.cells_per_bucket cfg.buckets) _
          (new_cold_cache-Ends cfg.cells_per_bucket cfg.buckets) (λ cold t. ltb-false _ _ e))

Ends-returns {ℓ} : {A : Type ℓ} (P : A → Type 0) (m : Result A) → Ends P m → m ≢ out_of_fuel
Ends-returns P (ok a) p e = cc
Ends-returns P (err x) p e = cc
Ends-returns P panic p e = cc
Ends-returns P out_of_fuel p e = p

-- On a cache that `New` makes, calls of `Put` and `Flush` in any order all end, by returning or by a panic:
-- a `Put` calls `putInHot` at most twice for one buffer, and the loop over the blocks of a hot buffer of n
-- bytes ends within n + 1 rounds.
pub new-calls :
    (z : Lz4) (cfg : Config) (rest : List Call) → (new cfg >>= calls z rest) ≢ out_of_fuel
new-calls z cfg rest = Ends-returns HasRoom (new cfg >>= calls z rest) (
    then_Ends HasRoom HasRoom (new cfg) (calls z rest) (new-Ends cfg)
      (λ c h. calls-Ends z rest c h))
