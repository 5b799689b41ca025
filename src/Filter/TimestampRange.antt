-- ===== src/Filter/TimestampRange.antt =====
-- filter/timestamp_range.go: Process. The two bounds are what `time.Parse(…).Unix()` or
-- `time.Now().Unix()` returned to the constructor, which is not modelled.
use mathlib.Core.Option.{Option, none, some}
use baker.Common.{ℕ, ◌+◌, ℤ, ltbℤ, ok, ◌>>=◌, Bool, not, if◌then◌else◌, ◌||◌}
use baker.Common.Strconv.{parse_int}
use baker.Record.{FieldIndex, content}
use baker.RecordType.{RecordType}
use baker.Filter.Names.{Outcome}

pub record TimestampRange : Type 0 where
  pub num_filtered_lines : ℕ
  pub start_date : ℤ
  pub end_date : ℤ
  pub fidx : FieldIndex

module _ {V : Type 0} (T : RecordType V) where
  open T use {Rec, get}

  unfoldable pub out_of_range : TimestampRange → Option ℤ → Bool
  unfolding ltbℤ
  out_of_range f none = Bool.true
  out_of_range f (some ts) = ltbℤ ts f.start_date || not (ltbℤ ts f.end_date)

  unfoldable pub process : TimestampRange → Rec → Outcome TimestampRange Rec
  unfolding out_of_range parse_int
  process f l = do
    v ← get l f.fidx
    if out_of_range f (parse_int (content v))
        then ok (record f { num_filtered_lines = f.num_filtered_lines + 1 }, none)
        else ok (f, some l)
