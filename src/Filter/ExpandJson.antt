-- ===== src/Filter/ExpandJson.antt =====
-- filter/expand_json.go. The order in which Go reads the map of fields is that of the list.
use mathlib.Core.Option.{Option, none, some}
use baker.Common.{
  Bytes, List, [], ◌∷◌, Result, ok, err, bad_config, ◌>>=◌, if◌then◌else◌, length, ◌==◌,
}
use baker.Common.Dict.{Dict}
use baker.Record.{FieldIndex, Slice, bytes, content, len}
use baker.RecordType.{RecordType}
use baker.Filter.Names.{FieldByName, resolve, Outcome}
use baker.Filter.External.{External, number, text, boolean, other}

pub record Config : Type 0 where
  pub source : Bytes
  pub fields : Dict Bytes
  pub true_false_values : List Bytes

-- "true" and "false"
abbrev default_values : List Bytes
default_values = (b't' ∷ b'r' ∷ b'u' ∷ b'e' ∷ []) ∷ (b'f' ∷ b'a' ∷ b'l' ∷ b's' ∷ b'e' ∷ []) ∷ []

unfoldable pub fill_defaults : Config → Config
fill_defaults cfg =
    if length cfg.true_false_values == 0
    then record cfg { true_false_values = default_values }
    else cfg

-- The slices `fields` and `jexp` of the source, as one list of pairs.
pub record ExpandJson (J : Type 0) : Type 0 where
  pub fields : List (FieldIndex × (Option J → Option J))
  pub source : FieldIndex
  pub true_value : Bytes
  pub false_value : Bytes

module _ {V : Type 0} (x : External V) where
  -- The loop of the constructor
  unfoldable pub compile_fields :
      FieldByName → Dict Bytes → Result (List (FieldIndex × (Option x.Json → Option x.Json)))
  unfolding resolve
  compile_fields field_by_name [] = ok []
  compile_fields field_by_name ((path, name) ∷ rest) = do
    f ← resolve field_by_name name
    c ← elim (x.compile_path path) [ none ↦ err bad_config | some c ↦ ok c ]
    fs ← compile_fields field_by_name rest
    ok ((f, c) ∷ fs)

  -- `len(dcfg.TrueFalseValues) != 2`
  unfoldable pub two_values : List Bytes → Result (Bytes × Bytes)
  two_values (t ∷ f ∷ []) = ok (t, f)
  two_values _ = err bad_config

  unfoldable pub new : FieldByName → Config → Result (ExpandJson x.Json)
  unfolding fill_defaults resolve compile_fields two_values
  new field_by_name cfg = do
    let dcfg = fill_defaults cfg
    source ← resolve field_by_name dcfg.source
    fields ← compile_fields field_by_name dcfg.fields
    (t, f) ← two_values dcfg.true_false_values
    ok (record { fields = fields; source = source; true_value = t; false_value = f })

  -- `postProcessJSON`
  unfoldable pub post_process_json : ExpandJson x.Json → x.Json → Bytes
  post_process_json f r = elim (x.view r) [
    | number s ↦ s
    | text s ↦ s
    | boolean b ↦ if b then f.true_value else f.false_value
    | other s ↦ s
  ]

  -- `processJSON`
  unfoldable pub process_json : Slice → Option x.Json
  process_json s = if len s == 0 then none else x.decode (content s)

module _ {V : Type 0} (T : RecordType V) (x : External V) where
  open T use {Rec, get, set}

  -- The loop over the expressions
  unfoldable pub expand_paths :
      ExpandJson x.Json
      → Option x.Json
      → List (FieldIndex × (Option x.Json → Option x.Json))
      → Rec
      → Result Rec
  unfolding post_process_json
  expand_paths f j [] l = ok l
  expand_paths f j ((dst, search_path) ∷ fs) l =
      (elim (search_path j) [ none ↦ ok l | some r ↦ set l dst (bytes (post_process_json x f r)) ])
      >>= λ l'. expand_paths f j fs l'

  unfoldable pub process : ExpandJson x.Json → Rec → Outcome (ExpandJson x.Json) Rec
  unfolding process_json expand_paths
  process f l = do
    v ← get l f.source
    l' ← expand_paths f (process_json x v) f.fields l
    ok (f, some l')
