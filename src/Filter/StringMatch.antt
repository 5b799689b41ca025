-- ===== src/Filter/StringMatch.antt =====
-- filter/string_match.go
pub mod Matches
use mathlib.Core.Option.{Option, none, some}
use baker.Common.{
  Bytes, List, [], ◌∷◌, ℕ, ◌+◌, Result, ok, err, bad_config, ◌>>=◌, Bool, true, false, not, equal,
  if◌then◌else◌, length, ◌==◌, ◌||◌,
}
use baker.Record.{FieldIndex, Slice, content}
use baker.RecordType.{RecordType}
use baker.Filter.Names.{FieldByName, resolve, Outcome}

pub record Config : Type 0 where
  pub field : Bytes
  pub strings : List Bytes
  pub invert_match : Bool

pub record StringMatch : Type 0 where
  pub field : FieldIndex
  pub strings : List Bytes
  pub invert : Bool
  pub discarded : ℕ

unfoldable pub new : FieldByName → Config → Result StringMatch
unfolding resolve
new field_by_name cfg = if length cfg.strings == 0 then err bad_config else do
  f ← resolve field_by_name cfg.field
  ok (record { field = f; strings = cfg.strings; invert = cfg.invert_match; discarded = 0 })

-- The loop of `isMatchAny`
unfoldable pub match_any : Bytes → List Bytes → Bool
match_any buf [] = false
match_any buf (s ∷ ss) = equal buf s || match_any buf ss

module _ {V : Type 0} (T : RecordType V) where
  open T use {Rec, get}

  unfoldable pub is_match_any : StringMatch → Rec → Result Bool
  is_match_any f l = do buf ← get l f.field; ok (match_any (content buf) f.strings)

  -- `f.isMatchAny(l) == !f.invert`
  unfoldable pub process : StringMatch → Rec → Outcome StringMatch Rec
  unfolding is_match_any
  process f l = do
    found ← is_match_any f l
    let discard = if f.invert then not found else found
    if discard then ok (record f { discarded = f.discarded + 1 }, none) else ok (f, some l)
