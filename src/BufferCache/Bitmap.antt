-- ===== src/BufferCache/Bitmap.antt =====
-- pkg/buffercache/bitmap.go: which cells of a bucket are taken. A uint64 that is used for its bits is the
-- function from the number of a bit, the lowest first, to whether it is set.
pub mod Free
use mathlib.Core.Option.{Option, none, some}
use baker.Common.{
  ℕ, zero, suc, ◌+◌, ◌-◌, ◌*◌, ◌/◌, ◌%◌, Bool, true, false, not, if◌then◌else◌, ◌==◌, ◌&&◌,
}

abbrev pub Word : Type 0
Word = ℕ → Bool

-- The slice of words: its length, and its words.
pub record Bitmap : Type 0 where
  pub nwords : ℕ
  pub word : ℕ → Word

-- `bits.LeadingZeros64`, of the `n` lowest bits
unfoldable pub leading_zeros : ℕ → Word → ℕ
leading_zeros zero x = 0
leading_zeros (suc n) x = let more = leading_zeros n x in if x n then 0 else suc more

unfoldable pub find_first_zero64 : Word → Option ℕ
find_first_zero64 x =
    let l = leading_zeros 64 (λ i. not (x i)) in
    if not (leading_zeros 64 x == 0) then some 63 else if l == 64 then none else some (63 - l)

-- The loop of `findFreeCell` over the `n` words from word `i` on
unfoldable pub find_from : ℕ → ℕ → Bitmap → Option ℕ
find_from zero i bm = none
find_from (suc n) i bm = elim (find_first_zero64 (bm.word i)) [
  | some index ↦ some (i * 64 + index)
  | none ↦ find_from n (i + 1) bm
]

unfoldable pub find_free_cell : Bitmap → Option ℕ
unfolding find_from
find_free_cell bm = find_from bm.nwords 0 bm

-- Whether the cell's bit is set: the test in `bucket.flush`
unfoldable pub is_set : Bitmap → ℕ → Bool
is_set bm i = bm.word (i / 64) (i % 64)

unfoldable pub write_bit : Bitmap → ℕ → Bool → Bitmap
write_bit bm i b =
    let word = λ (k j : ℕ). if k == i / 64 && j == i % 64 then b else bm.word k j in
    record bm { word = word }

unfoldable pub set_bit : Bitmap → ℕ → Bitmap
unfolding write_bit
set_bit bm i = write_bit bm i true

unfoldable pub clear_bit : Bitmap → ℕ → Bitmap
unfolding write_bit
clear_bit bm i = write_bit bm i false

-- `bitmap(make([]uint64, n))`
unfoldable pub make : ℕ → Bitmap
make n = record { nwords = n; word = λ k j. false }
