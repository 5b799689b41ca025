-- ===== src/Filter/Dedup.antt =====
-- filter/dedup.go
pub mod Keys
use mathlib.Core.Option.{Option, none, some}
use baker.Common.{
  Bytes, List, [], ◌∷◌, ℕ, ◌+◌, Result, ok, err, bad_separator, ◌>>=◌, Bool, true, false, not,
  equal, if◌then◌else◌, length, ◌==◌, ◌||◌, leb, get_or,
}
use baker.Record.{FieldIndex, Slice, content}
use baker.RecordType.{RecordType}
use baker.LogLine.Split.{join}
use baker.Filter.Names.{FieldByName, resolve_all, Outcome}

pub record Config : Type 0 where
  pub fields : List Bytes
  pub key_separator : Bytes

unfoldable pub fill_defaults : Config → Config
fill_defaults cfg =
    if length cfg.key_separator == 0 then record cfg { key_separator = 0x1e ∷ [] } else cfg

pub record Dedup : Type 0 where
  pub fields : List FieldIndex
  pub sep : ℕ
  pub dedup_set : List Bytes
  pub num_filtered_lines : ℕ

-- `sep := []rune(s)` has one element, not above `unicode.MaxASCII`: one byte below 128. Any other byte
-- or sequence is decoded to a rune above, or to several.
unfoldable pub is_ascii_char : Bytes → Bool
is_ascii_char [] = false
is_ascii_char (c ∷ []) = leb c 0x7f
is_ascii_char (c ∷ d ∷ s) = false

unfoldable pub new : FieldByName → Config → Result Dedup
unfolding resolve_all is_ascii_char fill_defaults
new field_by_name cfg = do
  let dcfg = fill_defaults cfg
  fs ← resolve_all field_by_name dcfg.fields
  if not (is_ascii_char dcfg.key_separator)
      then err bad_separator
      else ok (record {
        fields = fs;
        sep = get_or dcfg.key_separator 0 0;
        dedup_set = [];
        num_filtered_lines = 0;
      })

-- Whether the set holds the key
unfoldable pub contains : List Bytes → Bytes → Bool
contains [] key = false
contains (k ∷ ks) key = equal k key || contains ks key

module _ {V : Type 0} (T : RecordType V) where
  open T use {Rec, get}

  unfoldable pub field_values : List FieldIndex → Rec → Result (List Bytes)
  field_values [] l = ok []
  field_values (f ∷ fs) l = do v ← get l f; vs ← field_values fs l; ok (content v ∷ vs)

  unfoldable pub construct_key : Dedup → Rec → Result Bytes
  unfolding field_values
  construct_key f l = do vs ← field_values f.fields l; ok (join f.sep vs)

  -- `LoadOrStore` reports whether the key was there, and stores it if it was not.
  unfoldable pub process : Dedup → Rec → Outcome Dedup Rec
  unfolding construct_key contains
  process f l = do
    key ← construct_key f l
    if contains f.dedup_set key
        then ok (record f { num_filtered_lines = f.num_filtered_lines + 1 }, none)
        else ok (record f { dedup_set = key ∷ f.dedup_set }, some l)
