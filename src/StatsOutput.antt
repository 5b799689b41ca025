-- ===== src/StatsOutput.antt =====
-- output/stats.go: the output that gathers statistics of the records. The estimate of quantiles is the list
-- of the values that are inserted into it.
pub mod Samples
pub mod Counted
mod Tests
use mathlib.Core.Option.{Option, none, some}
use baker.Common.{
  Bytes, List, [], ◌∷◌, ℕ, zero, suc, ◌+◌, ◌-◌, ◌^◌, ◌%◌, ℤ, pos, ltbℤ, Result, ok, err, bad_config,
  file_error, ◌>>=◌, Bool, true, false, not, ◌&&◌, if◌then◌else◌, ltb, length, ◌==◌,
}
use baker.Common.Dict.{Dict, lookup, insert}
use baker.Common.Strconv.{parse_int}
use baker.Record.{FieldIndex, Slice, content, Metadata}
use baker.LogLine.{is_nil}
use baker.RecordType.{RecordType}
use baker.Filter.Names.{FieldByName, resolve}
use baker.Topology.{OutputRecord}

pub record StatsConfig : Type 0 where
  pub count_empty_fields : Bool
  pub csv_path : Bytes
  pub timestamp_field : Bytes

-- "stats.csv"
abbrev pub default_csv_path : Bytes
default_csv_path = b's' ∷ b't' ∷ b'a' ∷ b't' ∷ b's' ∷ b'.' ∷ b'c' ∷ b's' ∷ b'v' ∷ []

unfoldable pub fill_defaults : StatsConfig → StatsConfig
fill_defaults c = record c {
  csv_path = if length c.csv_path == 0 then default_csv_path else c.csv_path;
}

pub record SizeStats : Type 0 where
  pub totbytes : ℕ
  pub errs : ℕ
  pub qt : List ℕ
  pub smallest : ℕ
  pub biggest : ℕ

unfoldable pub add_size : ℕ → Bool → SizeStats → SizeStats
add_size size valid s = if not valid then record s { errs = s.errs + 1 } else record s {
  biggest = if ltb s.biggest size then size else s.biggest;
  smallest = if ltb size s.smallest then size else s.smallest;
  qt = size ∷ s.qt;
  totbytes = s.totbytes + size;
}

pub record FieldStats : Type 0 where
  pub m : Dict ℕ
  pub field : FieldIndex
  pub empties : Bool

abbrev pub or_zero : Option ℕ → ℕ
or_zero none = 0
or_zero (some n) = n

-- `s.m[k]++`
abbrev pub increment : Bytes → Dict ℕ → Dict ℕ
increment k m = insert k (or_zero (lookup k m) + 1) m

pub record TimestampStats : Type 0 where
  pub nerrors : ℕ
  pub nempties : ℕ
  pub first : ℤ
  pub last : ℤ
  pub qt : List ℤ

unfoldable pub add_timestamp : Slice → TimestampStats → TimestampStats
unfolding parse_int
add_timestamp b s =
    if is_nil b then record s { nempties = s.nempties + 1 } else elim (parse_int (content b)) [
      | none ↦ record s { nerrors = s.nerrors + 1 }
      | some ts ↦ record s {
        first = if ltbℤ ts s.first then ts else s.first;
        last = if ltbℤ s.last ts then ts else s.last;
        qt = ts ∷ s.qt;
      }
    ]

-- `Stats`; the index of the timestamp is `none` for -1.
pub record Stats : Type 0 where
  pub totaln : ℕ
  pub errn : ℕ
  pub sizes : SizeStats
  pub fields : List FieldStats
  pub times : TimestampStats
  pub timestamp : Option FieldIndex

abbrev pub new_fields : Bool → List FieldIndex → List FieldStats
new_fields empties [] = []
new_fields empties (f ∷ fs) =
    record { m = []; field = f; empties = empties } ∷ new_fields empties fs

abbrev pub timestamp_index : FieldByName → Bytes → Result (Option FieldIndex)
timestamp_index field_by_name [] = ok none
timestamp_index field_by_name (c ∷ cs) = do i ← resolve field_by_name (c ∷ cs); ok (some i)

-- `os.Create` of a file, which `creates` tells the outcome of
abbrev pub create_file : Bool → Result Bool
create_file true = ok true
create_file false = err file_error

-- NewStats
unfoldable pub new : (Bytes → Bool) → StatsConfig → FieldByName → List FieldIndex → Result Stats
unfolding fill_defaults
new creates cfg field_by_name fields = do
  created ← create_file (creates (fill_defaults cfg).csv_path)
  timestamp ← timestamp_index field_by_name (fill_defaults cfg).timestamp_field
  ok (record {
    totaln = 0;
    errn = 0;
    sizes = record { totbytes = 0; errs = 0; qt = []; smallest = 2 ^ 32 - 1; biggest = 0 };
    fields = new_fields (fill_defaults cfg).count_empty_fields fields;
    times = record { nerrors = 0; nempties = 0; first = pos (2 ^ 63 - 1); last = pos 0; qt = [] };
    timestamp = timestamp;
  })

module _ {V : Type 0} (T : RecordType V) where
  unfoldable pub add_field : T.Rec → FieldStats → Result FieldStats
  add_field ll s = do
    b ← T.get ll s.field
    ok (if not s.empties && is_nil b then s else record s { m = increment (content b) s.m })

  unfoldable pub add_fields : T.Rec → List FieldStats → Result (List FieldStats)
  unfolding add_field
  add_fields ll [] = ok []
  add_fields ll (f ∷ fs) = do g ← add_field ll f; gs ← add_fields ll fs; ok (g ∷ gs)

  unfoldable pub add_time : T.Rec → Option FieldIndex → TimestampStats → Result TimestampStats
  unfolding add_timestamp
  add_time ll none s = ok s
  add_time ll (some f) s = do b ← T.get ll f; ok (add_timestamp b s)

  -- A record of the loop of Run, whose outcome ValidateRecord has decided.
  unfoldable pub add_record : T.Rec → ℕ → Bool → Stats → Result Stats
  unfolding add_fields add_size add_time
  add_record ll size valid s = if not valid then ok (record s { errn = s.errn + 1 }) else (do
    fields ← add_fields ll s.fields
    times ← add_time ll s.timestamp s.times
    ok (record s {
      fields = fields;
      sizes = add_size (size % 2 ^ 32) valid s.sizes;
      times = times;
    }))

  -- The loop of Run. One record is parsed into again and again, and the error of Parse is ignored.
  unfoldable pub run :
      (T.Rec → Bool × FieldIndex) → Metadata V → List OutputRecord → T.Rec → Stats → Result Stats
  unfolding add_record
  run validate_record meta [] ll s = ok s
  run validate_record meta (raw ∷ raws) ll s = do
    let ll' = (T.parse ll raw.raw meta).0
    s' ←
        add_record ll' (length (content raw.raw)) (validate_record ll').0
          (record s { totaln = s.totaln + 1 })
    run validate_record meta raws ll' s'
