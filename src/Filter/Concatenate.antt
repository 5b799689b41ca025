-- ===== src/Filter/Concatenate.antt =====
-- filter/concatenate.go. `append(v, c.separator...)` may write behind the field in the line's own
-- buffer, over a byte that no later read returns; the slices of the model do not share memory.
pub mod Joined
use mathlib.Core.Option.{Option, none, some}
use baker.Common.{
  Bytes, List, [], ◌∷◌, ◌++◌, ℕ, Result, ok, err, bad_separator, ◌>>=◌, Bool, true, false, not,
  if◌then◌else◌, leb,
}
use baker.Record.{FieldIndex, Slice, bytes, content}
use baker.RecordType.{RecordType}
use baker.Filter.Names.{FieldByName, resolve, resolve_all, Outcome}

pub record Config : Type 0 where
  pub fields : List Bytes
  pub target : Bytes
  pub separator : Bytes

pub record Concatenate : Type 0 where
  pub fields : List FieldIndex
  pub target : FieldIndex
  pub separator : Bytes

-- Empty, or one byte that is not above `unicode.MaxASCII`.
unfoldable pub parse_separator : Bytes → Result Bytes
parse_separator [] = ok []
parse_separator (c ∷ []) = if leb c 0x7f then ok (c ∷ []) else err bad_separator
parse_separator (c ∷ d ∷ s) = err bad_separator

unfoldable pub new : FieldByName → Config → Result Concatenate
unfolding resolve resolve_all parse_separator
new field_by_name cfg = do
  fs ← resolve_all field_by_name cfg.fields
  target ← resolve field_by_name cfg.target
  separator ← parse_separator cfg.separator
  ok (record { fields = fs; target = target; separator = separator })

module _ {V : Type 0} (T : RecordType V) where
  open T use {Rec, get, set}

  -- The loop over the fields: the separator follows every value but the last.
  unfoldable pub append_values : Bytes → List FieldIndex → Rec → Bytes → Result Bytes
  append_values sep [] l key = ok key
  append_values sep (f ∷ []) l key = do v ← get l f; ok (key ++ content v)
  append_values sep (f ∷ g ∷ fs) l key = do
    v ← get l f
    append_values sep (g ∷ fs) l (key ++ (content v ++ sep))

  unfoldable pub process : Concatenate → Rec → Outcome Concatenate Rec
  unfolding append_values
  process c l = do
    key ← append_values c.separator c.fields l []
    l' ← set l c.target (bytes key)
    ok (c, some l')
