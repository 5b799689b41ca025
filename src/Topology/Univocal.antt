-- ===== src/Topology/Univocal.antt =====
-- topology.go: makeUnivocal, which numbers the names of filters that occur more than once.
use baker.Common.Strconv.{itoa}
use baker.Common.{Bytes, List, [], ◌∷◌, ◌++◌, ℕ, ◌+◌, ◌-◌, equal, if◌then◌else◌, ltb}

-- `m[s]` of the map of counts, 0 for a missing key.
abbrev pub Counts : Type 0
Counts = Bytes → ℕ

-- `m[s] = n`
unfoldable pub put : Bytes → ℕ → Counts → Counts
put s n m t = if equal s t then n else m t

-- The first pass: `m[s]++` for each name.
unfoldable pub count_names : List Bytes → Counts → Counts
unfolding put
count_names [] m = m
count_names (s ∷ ss) m = count_names ss (put s (m s + 1) m)

-- `slist[i] += "_" + strconv.Itoa(idx+1)` if the name occurred `idx` times more.
unfoldable pub numbered : Bytes → ℕ → Bytes
unfolding itoa
numbered s idx = if ltb 0 idx then s ++ (b'_' ∷ itoa (idx + 1)) else s

-- The second pass, from the back, with the counts that it leaves.
unfoldable pub rename : List Bytes → Counts → List Bytes × Counts
unfolding numbered put
rename [] m = ([], m)
rename (s ∷ ss) m =
    let (names, m') = rename ss m in
    let idx = m' s - 1 in (numbered s idx ∷ names, if ltb 0 idx then put s (m' s - 1) m' else m')

unfoldable pub make_univocal : List Bytes → List Bytes
unfolding rename count_names
make_univocal slist = (rename slist (count_names slist (λ s. 0))).0

-- How often a name occurs.
unfoldable pub occurrences : Bytes → List Bytes → ℕ
occurrences t [] = 0
occurrences t (s ∷ ss) = (if equal s t then 1 else 0) + occurrences t ss

-- Each name numbered by how often it occurred before it.
unfoldable pub number_from : List Bytes → List Bytes → List Bytes
unfolding occurrences
number_from before [] = []
number_from before (s ∷ ss) = numbered s (occurrences s before) ∷ number_from (before ++ s ∷ []) ss
