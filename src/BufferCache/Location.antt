-- ===== src/BufferCache/Location.antt =====
-- pkg/buffercache/location.go: where a buffer is, packed in a uint32: the highest bit for the hot cache,
-- else the bucket in the highest byte and the cell in the rest. The map is an association list.
use Prim.Native.Nat.{bit_or}
use baker.Common.{
  zero, suc, ap₂, ◌∙◌, ==_iff, [], ◌∷◌, ℕ, ◌+◌, ◌*◌, ◌/◌, ◌%◌, ◌^◌, ◌<◌, Bool, true, not,
  if◌then◌else◌, ◌==◌, ◌&&◌, leb, ◌≡◌, refl, arith,
}
use baker.Common.Dict.{Dict}

-- `location`
abbrev pub Location : Type 0
Location = ℕ

abbrev pub hot_cache_location : Location
hot_cache_location = 2 ^ 31

-- `l & 0x80000000 != 0`
unfoldable pub is_hot : Location → Bool
is_hot l = leb (2 ^ 31) (l % 2 ^ 32)

unfoldable pub is_cold : Location → Bool
unfolding is_hot
is_cold l = not (is_hot l)

unfoldable pub cold_bucket_idx : Location → ℕ
cold_bucket_idx l = l / 2 ^ 24

-- `l & 0x00ffffff`
unfoldable pub cold_cell_idx : Location → ℕ
cold_cell_idx l = l % 2 ^ 24

-- `location(bidx)<<24 | location(cidx)`: the highest byte is that of the two, joined bitwise.
unfoldable pub cold_location : ℕ → ℕ → Location
cold_location bidx cidx = bit_or (bidx % 256) (cidx / 2 ^ 24 % 256) * 2 ^ 24 + cidx % 2 ^ 24

abbrev pub LocationMap : Type 0
LocationMap = Dict Location

-- The loop of `removeCold`
unfoldable pub remove_cold : ℕ → LocationMap → LocationMap
unfolding is_hot cold_bucket_idx
remove_cold bidx [] = []
remove_cold bidx ((key, loc) ∷ m) =
    let rest = remove_cold bidx m in
    if not (is_hot loc) && (bidx == cold_bucket_idx loc) then rest else (key, loc) ∷ rest

-- The loop of `removeHot`
unfoldable pub remove_hot : LocationMap → LocationMap
unfolding is_hot
remove_hot [] = []
remove_hot ((key, loc) ∷ m) =
    let rest = remove_hot m in if is_hot loc then rest else (key, loc) ∷ rest

all_below : ℕ → (ℕ → Bool) → Bool
all_below zero p = true
all_below (suc n) p = p n && all_below n p

at_below : (n : ℕ) (p : ℕ → Bool) (i : ℕ) → all_below n p ≡ true → i < n → p i ≡ true
unfolding all_below
at_below zero p i h l = absurd (omega arith)
at_below (suc n) p i h l = ground (arith, at_below n p i)

or_zero_table : all_below 128 (λ b. bit_or b 0 == b) ≡ true
unfolding all_below
or_zero_table = refl

bit_or_zero : (b : ℕ) → b < 128 → bit_or b 0 ≡ b
bit_or_zero b h = (==_iff _ b).0 (at_below 128 _ b or_zero_table h)

-- A location below 128 buckets of at most 2²⁴ cells is read back as it was packed, and is cold.
pub cold_location-unpack :
    (b c : ℕ)
    → b < 128
    → c < 2 ^ 24
    → (cold_bucket_idx (cold_location b c) ≡ b)
      × (cold_cell_idx (cold_location b c) ≡ c)
      × (is_cold (cold_location b c) ≡ true)
unfolding cold_location cold_bucket_idx cold_cell_idx is_cold
cold_location-unpack b c h k =
    unpacked (bit_or (b % 256) (c / 2 ^ 24 % 256))
      (ap₂ bit_or {x = b % 256} (omega arith) (omega arith) ∙ bit_or_zero b h)
  where
    unpacked :
        (t : ℕ)
        → t ≡ b
        → ((t * 2 ^ 24 + c % 2 ^ 24) / 2 ^ 24 ≡ b)
          × ((t * 2 ^ 24 + c % 2 ^ 24) % 2 ^ 24 ≡ c)
          × (not (leb (2 ^ 31) ((t * 2 ^ 24 + c % 2 ^ 24) % 2 ^ 32)) ≡ true)
    unpacked t e = ground arith
