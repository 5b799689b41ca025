-- ===== src/Filter/PartialClone.antt =====
-- filter/partial_clone.go
use mathlib.Core.Option.{some}
use baker.Common.{
  Bytes, List, [], ◌∷◌, Result, ok, err, bad_config, ◌>>=◌, if◌then◌else◌, length, ◌==◌,
}
use baker.Record.{FieldIndex}
use baker.RecordType.{RecordType}
use baker.Filter.Names.{FieldByName, resolve_all, Outcome}

pub record PartialClone : Type 0 where
  pub field_idx : List FieldIndex

unfoldable pub new : FieldByName → List Bytes → Result PartialClone
unfolding resolve_all
new field_by_name names =
    if length names == 0
    then err bad_config
    else do fs ← resolve_all field_by_name names; ok (record { field_idx = fs })

-- The filter's `createRecord` is the argument `created`, the record that it returns.
module _ {V : Type 0} (T : RecordType V) (created : T.Rec) where
  open T use {Rec, get, set}

  unfoldable pub clone_fields : List FieldIndex → Rec → Rec → Result Rec
  clone_fields [] r l2 = ok l2
  clone_fields (f ∷ fs) r l2 = do v ← get r f; l3 ← set l2 f v; clone_fields fs r l3

  unfoldable pub process : PartialClone → Rec → Outcome PartialClone Rec
  unfolding clone_fields
  process s r = do l2 ← clone_fields s.field_idx r created; ok (s, some l2)
