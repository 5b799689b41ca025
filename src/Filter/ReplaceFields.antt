-- ===== src/Filter/ReplaceFields.antt =====
-- filter/replace_fields.go
use mathlib.Core.Option.{some}
use baker.Common.{
  Bytes, List, [], ◌∷◌, ◌%◌, Result, ok, err, bad_config, ◌>>=◌, not, if◌then◌else◌, length, ◌==◌,
  ◌&&◌, ◌||◌,
}
use baker.Record.{FieldIndex, bytes}
use baker.RecordType.{RecordType}
use baker.Filter.Names.{FieldByName, resolve, Outcome}
use baker.Filter.Dedup.{contains}

pub record Config : Type 0 where
  pub copy_fields : List Bytes
  pub replace_fields : List Bytes

-- The replacements are kept in two lists in the source, walked side by side.
pub record ReplaceFields : Type 0 where
  pub copy_fields : List (FieldIndex × FieldIndex)
  pub replace_fields : List (FieldIndex × Bytes)

-- The loop over [value, field, value, field, …], with the names of the destinations met so far.
unfoldable pub parse_replace :
    FieldByName → List Bytes → List Bytes → Result (List (FieldIndex × Bytes) × List Bytes)
parse_replace field_by_name (value ∷ name ∷ rest) dsts = do
  dst ← resolve field_by_name name
  let more = parse_replace field_by_name rest (name ∷ dsts)
  (fs, seen) ← if contains dsts name then err bad_config else more
  ok ((dst, value) ∷ fs, seen)
parse_replace field_by_name _ dsts = ok ([], dsts)

-- The loop over [source, field, source, field, …]
unfoldable pub parse_copy :
    FieldByName → List Bytes → List Bytes → List Bytes → Result (List (FieldIndex × FieldIndex))
parse_copy field_by_name (from ∷ name ∷ rest) replaced dsts = do
  src ← resolve field_by_name from
  dst ← resolve field_by_name name
  let more = parse_copy field_by_name rest replaced (name ∷ dsts)
  fs ← if src == dst || contains dsts name || contains replaced name then err bad_config else more
  ok ((src, dst) ∷ fs)
parse_copy field_by_name _ replaced dsts = ok []

unfoldable pub new : FieldByName → Config → Result ReplaceFields
unfolding resolve contains parse_replace parse_copy
new field_by_name cfg =
    if length cfg.copy_fields == 0 && length cfg.replace_fields == 0
      || not (length cfg.copy_fields % 2 == 0)
      || not (length cfg.replace_fields % 2 == 0)
    then err bad_config
    else do
      (replaces, replaced) ← parse_replace field_by_name cfg.replace_fields []
      copies ← parse_copy field_by_name cfg.copy_fields replaced []
      ok (record { copy_fields = copies; replace_fields = replaces })

module _ {V : Type 0} (T : RecordType V) where
  open T use {Rec, get, set}

  unfoldable pub copy_all : List (FieldIndex × FieldIndex) → Rec → Result Rec
  copy_all [] l = ok l
  copy_all ((src, dst) ∷ fs) l = do v ← get l src; l' ← set l dst v; copy_all fs l'

  unfoldable pub replace_all : List (FieldIndex × Bytes) → Rec → Result Rec
  replace_all [] l = ok l
  replace_all ((dst, v) ∷ fs) l = do l' ← set l dst (bytes v); replace_all fs l'

  unfoldable pub process : ReplaceFields → Rec → Outcome ReplaceFields Rec
  unfolding copy_all replace_all
  process f l = do
    l1 ← copy_all f.copy_fields l
    l2 ← replace_all f.replace_fields l1
    ok (f, some l2)
