-- ===== src/Filter/Timestamp.antt =====
-- filter/timestamp.go
use mathlib.Core.Option.{some}
use baker.Common.{Bytes, Result, ok, ◌>>=◌}
use baker.Common.Strconv.{format_int}
use baker.Record.{FieldIndex, bytes}
use baker.RecordType.{RecordType}
use baker.Filter.Names.{FieldByName, resolve, Outcome}
use baker.Filter.External.{External}

pub record Timestamp : Type 0 where
  pub fidx : FieldIndex

unfoldable pub new : FieldByName → Bytes → Result Timestamp
unfolding resolve
new field_by_name name = do f ← resolve field_by_name name; ok (record { fidx = f })

module _ {V : Type 0} (T : RecordType V) (x : External V) where
  open T use {Rec, set}

  unfoldable pub process : Timestamp → Rec → Outcome Timestamp Rec
  unfolding format_int
  process f l = do l' ← set l f.fidx (bytes (format_int x.now)); ok (f, some l')
