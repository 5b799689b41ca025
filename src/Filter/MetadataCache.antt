-- ===== src/Filter/MetadataCache.antt =====
-- filter/metadata/cache.go: a cache of at most 100 entries, that is emptied when it is full. Keys are
-- addresses; the map is an association list with one entry for a key.
use mathlib.Core.Option.{Option, none, some}
use baker.Common.{List, [], ◌∷◌, ℕ, ◌+◌, ◌-◌, if◌then◌else◌, length, ◌==◌}

pub record MetadataCache (A : Type 0) : Type 0 where
  pub cache : List (ℕ × A)
  pub nentries : ℕ

abbrev pub max_cache_entries : ℕ
max_cache_entries = 100

module _ {A : Type 0} where
  -- `c.cache.Load(key)`
  unfoldable pub find : List (ℕ × A) → ℕ → Option A
  find [] key = none
  find ((k, v) ∷ m) key = if k == key then some v else find m key

  unfoldable pub load : MetadataCache A → ℕ → Option A
  unfolding find
  load c key = find c.cache key

  -- `clear`: the empty map, and how many entries it had.
  unfoldable pub clear : MetadataCache A → MetadataCache A × ℕ
  clear c = (record c { cache = [] }, length c.cache)

  -- `c.nentries -= c.clear()` if the cache is full
  unfoldable pub make_room : MetadataCache A → MetadataCache A
  unfolding clear
  make_room c =
      if c.nentries == max_cache_entries
      then record (clear c).0 { nentries = c.nentries - (clear c).1 }
      else c

  -- `LoadOrStore`, and the count of what it stored
  unfoldable pub load_or_store : MetadataCache A → ℕ → A → MetadataCache A
  unfolding find
  load_or_store c key value = elim (find c.cache key) [
    | some v ↦ c
    | none ↦ record c { cache = (key, value) ∷ c.cache; nentries = c.nentries + 1 }
  ]

  unfoldable pub store : MetadataCache A → ℕ → A → MetadataCache A
  unfolding make_room load_or_store
  store c key value = load_or_store (make_room c) key value
