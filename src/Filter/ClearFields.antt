-- ===== src/Filter/ClearFields.antt =====
-- filter/clear_fields.go
pub mod Cleared
use mathlib.Core.Option.{Option, none, some}
use baker.Common.{Bytes, ltb, List, [], ◌∷◌, ℕ, Result, ok, ◌>>=◌}
use baker.Common.Sort.{sort}
use baker.Record.{FieldIndex, Slice, nil}
use baker.RecordType.{RecordType}
use baker.Filter.Names.{FieldByName, resolve_all, Outcome}

pub record ClearFields : Type 0 where
  pub fields : List FieldIndex

unfoldable pub new : FieldByName → List Bytes → Result ClearFields
unfolding resolve_all sort
new field_by_name names = do
  fs ← resolve_all field_by_name names
  ok (record { fields = sort ltb fs })

module _ {V : Type 0} (T : RecordType V) where
  open T use {Rec, set}

  unfoldable pub clear_all : List FieldIndex → Rec → Result Rec
  clear_all [] l = ok l
  clear_all (f ∷ fs) l = do l' ← set l f nil; clear_all fs l'

  unfoldable pub process : ClearFields → Rec → Outcome ClearFields Rec
  unfolding clear_all
  process f l = do l' ← clear_all f.fields l; ok (f, some l')
