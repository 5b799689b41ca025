-- ===== src/Common/Sort.antt =====
-- What the program uses of Go's package sort.
use mathlib.Core.Bool.{Bool, true, false, ◌&&◌, ◌||◌}
use mathlib.Core.List.{List, [], ◌∷◌}
use baker.Common.Tests.{Bytes, ltb, ◌==◌, if◌then◌else◌}

module _ {ℓ} {A : Type ℓ} (less : A → A → Bool) where
  unfoldable pub insert_sorted : A → List A → List A
  insert_sorted a [] = a ∷ []
  insert_sorted a (b ∷ bs) =
      let rest = insert_sorted a bs in if less b a then b ∷ rest else a ∷ b ∷ bs

  -- `sort.Slice`, on elements that are the same if neither is less than the other.
  unfoldable pub sort : List A → List A
  unfolding insert_sorted
  sort [] = []
  sort (a ∷ as') = insert_sorted a (sort as')

-- `s < t` on strings: bytewise.
unfoldable pub less_bytes : Bytes → Bytes → Bool
less_bytes _ [] = false
less_bytes [] (d ∷ t) = true
less_bytes (c ∷ s) (d ∷ t) = let rest = less_bytes s t in ltb c d || (c == d && rest)
