-- ===== src/StatsOutput/Counted.antt =====
-- output/stats.go: what the statistics are, once Run has read all records.
use mathlib.Core.Option.{Option, none}
use baker.Common.{List, [], ◌∷◌, ℕ, ◌+◌, ◌≤◌, length, All, ◌≡◌, ◌⊎◌}
use baker.RecordType.{RecordType}
use baker.StatsOutput.{Stats}

abbrev pub sum : List ℕ → ℕ
sum [] = 0
sum (n ∷ ns) = n + sum ns

abbrev pub IsBetween : ℕ → ℕ → ℕ → Type 0
IsBetween a b n = (a ≤ n) × (n ≤ b)

-- Every record is an error or a sample of its size, and, if there is a timestamp, each of the samples was
-- one of the timestamps: missing, malformed or a sample.
pub record IsCounted (s : Stats) : Type 0 where
  pub lines : s.errn + length s.sizes.qt ≡ s.totaln
  pub errs : s.sizes.errs ≡ 0
  pub bytes : s.sizes.totbytes ≡ sum s.sizes.qt
  pub between : All (IsBetween s.sizes.smallest s.sizes.biggest) s.sizes.qt
  pub times :
      (s.timestamp ≡ none)
      ⊎ (s.times.nerrors + (s.times.nempties + length s.times.qt) ≡ length s.sizes.qt)
