-- ===== src/Filter/Slice/Bounds.antt =====
-- filter/slice.go: the bytes that the filter takes.
use baker.Common.{
  ℕ, ◌-◌, ◌<◌, min, pos, ltbℤ, eqbℤ, ok, if◌then◌else◌, take, drop, ◌==◌, ◌⊎◌, ◌≡◌, arith,
}
use baker.Record.{Slice, bytes, content, len}
use baker.LogLine.{slice_range}
use baker.Filter.Slice.{SliceFilter, slice}

-- Where the slice of a value of `n` bytes ends: 0 stands for its end.
abbrev pub bound : ℕ → ℕ → ℕ
bound last n = if last == 0 then n else min last n

-- Of a value, the filter takes the bytes from its start index up to its end index, or up to the end
-- of a shorter value, and none of a value that ends before the start index.
pub slice_within :
    (f : SliceFilter) (first last : ℕ) (v : Slice)
    → f.start_idx ≡ pos first
    → f.end_idx ≡ pos last
    → (last ≡ 0) ⊎ (first < last)
    → slice f v
      ≡ ok (
          bytes
            (take (bound last (len v) - min first (len v)) (drop (min first (len v)) (content v))))
unfolding slice slice_range ltbℤ eqbℤ
slice_within f first last v p q h = rw (p, q) (ground arith)
