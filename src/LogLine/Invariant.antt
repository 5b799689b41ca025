-- ===== src/LogLine/Invariant.antt =====
-- logline.go: what holds of every LogLine that `Parse`, `Set`, `Clear` and `Copy` make.
use baker.Common.{
  ℕ, zero, suc, ◌-◌, ◌≤◌, ◌<◌, ◌≡◌, ◌≢◌, ◌⊎◌, inl, inr, refl, arith, not, ◌==◌, if◌then◌else◌, leb,
  ltb, ltbℤ, ◌+ℤ◌, ◌-ℤ◌, pos_part, take, drop, ℤ, pos, negsuc, ok,
}
use baker.Record.{FieldIndex, Slice, nil, bytes, content, len}
use baker.LogLine.{log_line_num_fields, LogLine, empty, get_parsed, get, slice_range}

-- `n` is at most the length of `s`, as the position of a separator or the end of the line.
abbrev pub IsPosition : Slice → ℤ → Type 0
IsPosition s (pos n) = n ≤ len s
IsPosition s (negsuc n) = ⊥

pub record IsValid {V : Type 0} (l : LogLine V) : Type 0 where
  pub idx_start : (l.idx 0 ≡ pos 0) ⊎ (l.idx 0 ≡ negsuc 0)
  pub idx_position : (i : ℕ) → IsPosition l.line (l.idx (suc i))
  pub no_line : l.line ≡ nil → (i : ℕ) → l.idx (suc i) ≡ pos 0
  pub wcnt_byte : l.wcnt ≤ 255
  pub wmask_bound : (f : FieldIndex) → l.wmask f ≤ l.wcnt
  pub wmask_injective : (f g : FieldIndex) → l.wmask f ≡ l.wmask g → l.wmask f ≢ 0 → f ≡ g

module _ {V : Type 0} where
  pub empty-IsValid : (sep : ℕ) → IsValid (empty {V = V} sep)
  unfolding empty
  empty-IsValid sep = record {
    idx_start = inl refl;
    idx_position = λ i. omega arith;
    no_line = λ e i. refl;
    wcnt_byte = omega arith;
    wmask_bound = λ f. omega arith;
    wmask_injective = λ f g e ne. absurd (ne refl);
  }

-- The start of the field behind a separator at `i`, and the bytes between there and `hi`.
abbrev pub after : ℤ → ℕ
after (pos n) = suc n
after (negsuc n) = 0

abbrev pub between : Slice → ℕ → ℕ → Slice
between s lo hi = if ltb lo hi then bytes (take (hi - lo) (drop lo (content s))) else nil

abbrev IsSeparator : ℤ → Type 0
IsSeparator (pos n) = Unit
IsSeparator (negsuc n) = n ≡ 0

get_range :
    (s : Slice) (a b : ℤ)
    → IsSeparator a
    → IsPosition s b
    → (if ltbℤ (b -ℤ (a +ℤ pos 1)) (pos 1) then ok nil else slice_range s (a +ℤ pos 1) b)
      ≡ ok (between s (after a) (pos_part b))
unfolding ◌+ℤ◌ ◌-ℤ◌ ltbℤ slice_range
get_range s a (negsuc m) ha hb = absurd hb
get_range s (pos n) (pos m) ha hb = ground arith
get_range s (negsuc n) (pos m) ha hb = ground arith

module _ {V : Type 0} where
  IsSeparator-idx : {l : LogLine V} (f : FieldIndex) → IsValid l → IsSeparator (l.idx f)
  IsSeparator-idx {l} zero v = elim v.idx_start [ inl e ↦ rw e tt | inr e ↦ rw e refl ]
  IsSeparator-idx {l} (suc f) v = position (l.idx (suc f)) (v.idx_position f)
    where
      position : (b : ℤ) → IsPosition l.line b → IsSeparator b
      position (pos n) h = tt
      position (negsuc n) h = absurd h

  -- The field as parsed is what lies between two separators.
  pub get_parsed-between :
      {l : LogLine V} (f : FieldIndex)
      → IsValid l
      → get_parsed l f ≡ ok (between l.line (after (l.idx f)) (pos_part (l.idx (suc f))))
  unfolding get_parsed
  get_parsed-between {l} f v =
      get_range l.line (l.idx f) (l.idx (suc f)) (IsSeparator-idx f v) (v.idx_position f)

  -- What a field holds: the value set, nothing for a custom field, or the bytes parsed.
  abbrev pub value : LogLine V → FieldIndex → Slice
  value l f =
      if not (l.wmask f == 0)
      then l.wdata (l.wmask f)
      else if leb log_line_num_fields f
      then nil
      else between l.line (after (l.idx f)) (pos_part (l.idx (suc f)))

  -- Of a valid line every field of the array is read with no panic.
  pub get-value : {l : LogLine V} (f : FieldIndex) → IsValid l → f < 3100 → get l f ≡ ok (value l f)
  unfolding get
  get-value f v h = ground (arith, get_parsed-between f v)
