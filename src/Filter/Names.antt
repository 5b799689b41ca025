-- ===== src/Filter/Names.antt =====
-- filter/: how the constructors of filters turn the names of fields into indexes, and what Process
-- returns.
use mathlib.Core.Option.{Option, none, some}
use baker.Common.{Bytes, List, [], ◌∷◌, Result, unknown_field, ok, err, ◌>>=◌}
use baker.Record.{FieldIndex}

-- `cfg.FieldByName`, with `none` for (_, false)
abbrev pub FieldByName : Type 0
FieldByName = Bytes → Option FieldIndex

unfoldable pub resolve : FieldByName → Bytes → Result FieldIndex
resolve field_by_name name = elim (field_by_name name) [ none ↦ err unknown_field | some f ↦ ok f ]

-- The loop that resolves a list of names, up to the first unknown one.
unfoldable pub resolve_all : FieldByName → List Bytes → Result (List FieldIndex)
unfolding resolve
resolve_all field_by_name [] = ok []
resolve_all field_by_name (n ∷ ns) = do
  f ← resolve field_by_name n
  fs ← resolve_all field_by_name ns
  ok (f ∷ fs)

-- The filter as `Process` leaves it, and the record that it gives to `next`, if it calls it.
abbrev pub Outcome : Type 0 → Type 0 → Type 0
Outcome F R = Result (F × Option R)
