-- ===== src/Filter/NotNull.antt =====
-- filter/notnull.go
use mathlib.Core.Option.{none, some}
use baker.Common.{
  Bytes, List, [], ◌∷◌, ℕ, ◌+◌, Result, ok, ◌>>=◌, Bool, true, false, ◌≡◌, if◌then◌else◌, All,
}
use baker.Record.{FieldIndex, bytes}
use baker.RecordType.{RecordType}
use baker.LogLine.{is_nil}
use baker.Filter.Names.{FieldByName, resolve_all, Outcome}

pub record NotNull : Type 0 where
  pub num_filtered_lines : ℕ
  pub fields : List FieldIndex

unfoldable pub new : FieldByName → List Bytes → Result NotNull
unfolding resolve_all
new field_by_name names = do
  fs ← resolve_all field_by_name names
  ok (record { num_filtered_lines = 0; fields = fs })

module _ {V : Type 0} (T : RecordType V) where
  open T use {Rec, get}

  -- Whether the loop over the fields finds a nil one.
  unfoldable pub any_null : Rec → List FieldIndex → Result Bool
  any_null l [] = ok false
  any_null l (f ∷ fs) = do v ← get l f; let rest = any_null l fs; if is_nil v then ok true else rest

  unfoldable pub process : NotNull → Rec → Outcome NotNull Rec
  unfolding any_null
  process v l = do
    null ← any_null l v.fields
    if null
        then ok (record v { num_filtered_lines = v.num_filtered_lines + 1 }, none)
        else ok (v, some l)

  -- Every field that the filter checks is there.
  abbrev pub HasAll : Rec → List FieldIndex → Type 0
  HasAll l fs = All (λ f. (b : Bytes) × (get l f ≡ ok (bytes b))) fs
