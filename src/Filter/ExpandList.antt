-- ===== src/Filter/ExpandList.antt =====
-- filter/expand_list.go
pub mod Sorted
use mathlib.Core.Option.{Option, none, some}
use baker.Common.{
  Bytes, List, [], ◌∷◌, ℕ, ℤ, pos, negsuc, Result, ok, err, bad_config, bad_separator, ◌>>=◌, Bool,
  true, false, not, if◌then◌else◌, length, ◌==◌, leb, get_or,
}
use baker.Common.Dict.{Dict}
use baker.Common.Strconv.{parse_int}
use baker.Common.Sort.{sort, less_bytes}
use baker.Record.{FieldIndex, Slice, bytes, content, len}
use baker.RecordType.{RecordType}
use baker.LogLine.Split.{split}
use baker.Filter.Names.{FieldByName, resolve, Outcome}
use baker.Filter.Dedup.{is_ascii_char}

-- `fields` maps a list index, as text, to a record field. Its keys differ.
pub record Config : Type 0 where
  pub source : Bytes
  pub fields : Dict Bytes
  pub separator : Bytes

unfoldable pub fill_default : Config → Config
fill_default c = if length c.separator == 0 then record c { separator = b';' ∷ [] } else c

-- The slices listIdx and fields of the source, which are as long as each other, as one list.
pub record ExpandList : Type 0 where
  pub source : FieldIndex
  pub fields : List (ℕ × FieldIndex)
  pub sep : ℕ

unfoldable pub list_index : Bytes → Result ℕ
unfolding parse_int
list_index k = elim (parse_int k) [
  | none ↦ err bad_config
  | some (pos n) ↦ ok n
  | some (negsuc n) ↦ err bad_config
]

-- The loop that builds `fields` and `listIdx`.
unfoldable pub resolve_fields : FieldByName → List (Bytes × Bytes) → Result (List (ℕ × FieldIndex))
unfolding resolve list_index
resolve_fields field_by_name [] = ok []
resolve_fields field_by_name ((k, v) ∷ kvs) = do
  f ← resolve field_by_name v
  i ← list_index k
  fs ← resolve_fields field_by_name kvs
  ok ((i, f) ∷ fs)

-- `sort.Strings` on the keys
unfoldable pub sort_keys : Dict Bytes → Dict Bytes
unfolding sort less_bytes
sort_keys m = sort (λ (p q : Bytes × Bytes). less_bytes p.0 q.0) m

unfoldable pub new : FieldByName → Config → Result ExpandList
unfolding fill_default resolve resolve_fields sort_keys is_ascii_char
new field_by_name cfg = do
  let dcfg = fill_default cfg
  source ← resolve field_by_name dcfg.source
  fields ← resolve_fields field_by_name (sort_keys dcfg.fields)
  if is_ascii_char dcfg.separator
      then ok (record { source = source; fields = fields; sep = get_or dcfg.separator 0 0 })
      else err bad_separator

module _ {V : Type 0} (T : RecordType V) where
  open T use {Rec, get, set}

  -- The loop over listIdx, which stops at the first index that is out of range.
  unfoldable pub expand : List Bytes → List (ℕ × FieldIndex) → Rec → Result Rec
  expand part [] l = ok l
  expand part ((idx, f) ∷ fs) l =
      let next = (do l' ← set l f (bytes (get_or part idx [])); expand part fs l') in
      if leb (length part) idx then ok l else next

  unfoldable pub process : ExpandList → Rec → Outcome ExpandList Rec
  unfolding expand
  process f l = do
    list ← get l f.source
    l' ← if len list == 0 then ok l else expand (split f.sep (content list)) f.fields l
    ok (f, some l')
