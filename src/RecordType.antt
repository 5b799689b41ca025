-- ===== src/RecordType.antt =====
-- record.go: the interface Record, as the operations that filters and the topology call, and what they
-- rely on. `Cache` is left out: no modelled component calls it through the interface.
pub mod LogLines
use mathlib.Core.Option.{Option}
use baker.Common.{ℕ, Bool, ◌≡◌, ◌==◌, if◌then◌else◌, Bytes, Error, Result, ok}
use baker.Record.{FieldIndex, Slice, Metadata}

pub record RecordType (V : Type 0) : Type 1 where
  pub Rec : Type 0
  pub parse : Rec → Slice → Metadata V → Rec × Option Error
  pub to_text : Rec → Bytes → Result Bytes
  pub copy : Rec → Result Rec
  pub clear : Rec → Rec
  pub get : Rec → FieldIndex → Result Slice
  pub set : Rec → FieldIndex → Slice → Result Rec
  pub meta : Rec → Bytes → Option V

-- What `Set` promises: a field set holds the value, the others stay, and `Set` keeps a record valid.
pub record RecordLaws {V : Type 0} (T : RecordType V) : Type 1 where
  pub Valid : T.Rec → Type 0
  pub set_valid :
      (r : T.Rec) (f : FieldIndex) (v : Slice) (r' : T.Rec)
      → Valid r
      → T.set r f v ≡ ok r'
      → Valid r'
  pub get_set :
      (r : T.Rec) (f g : FieldIndex) (v : Slice) (r' : T.Rec)
      → Valid r
      → T.set r f v ≡ ok r'
      → T.get r' g ≡ (if f == g then ok v else T.get r g)
