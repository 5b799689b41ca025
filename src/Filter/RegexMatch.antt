-- ===== src/Filter/RegexMatch.antt =====
-- filter/regex_match.go
use mathlib.Core.Option.{Option, none, some}
use baker.Common.{
  Bytes, List, [], ◌∷◌, ℕ, ◌+◌, Result, ok, err, bad_config, ◌>>=◌, Bool, true, false, not,
  if◌then◌else◌, length, ◌==◌,
}
use baker.Record.{FieldIndex, content}
use baker.RecordType.{RecordType}
use baker.Filter.Names.{FieldByName, resolve, Outcome}

pub record Config : Type 0 where
  pub fields : List Bytes
  pub regexs : List Bytes
  pub invert_match : Bool

-- The two slices of the source, `fields` and `res`, as one list of pairs.
pub record RegexMatch : Type 0 where
  pub fields : List (FieldIndex × (Bytes → Bool))
  pub invert : Bool
  pub discarded : ℕ

-- The loop of the constructor
unfoldable pub compile_all :
    (Bytes → Option (Bytes → Bool))
    → FieldByName
    → List Bytes
    → List Bytes
    → Result (List (FieldIndex × (Bytes → Bool)))
unfolding resolve
compile_all compile field_by_name (name ∷ names) (regex ∷ regexs) = do
  f ← resolve field_by_name name
  re ← elim (compile regex) [ none ↦ err bad_config | some re ↦ ok re ]
  rest ← compile_all compile field_by_name names regexs
  ok ((f, re) ∷ rest)
compile_all compile field_by_name _ _ = ok []

unfoldable pub new : (Bytes → Option (Bytes → Bool)) → FieldByName → Config → Result RegexMatch
unfolding compile_all
new compile field_by_name cfg =
    if not (length cfg.fields == length cfg.regexs) then err bad_config else do
      fields ← compile_all compile field_by_name cfg.fields cfg.regexs
      ok (record { fields = fields; invert = cfg.invert_match; discarded = 0 })

module _ {V : Type 0} (T : RecordType V) where
  open T use {Rec, get}

  -- The loop without invert: whether all fields match.
  unfoldable pub match_all : List (FieldIndex × (Bytes → Bool)) → Rec → Result Bool
  match_all [] l = ok true
  match_all ((f, re) ∷ fs) l = do
    v ← get l f
    let rest = match_all fs l
    if not (re (content v)) then ok false else rest

  -- The loop with invert: whether any field matches.
  unfoldable pub match_any : List (FieldIndex × (Bytes → Bool)) → Rec → Result Bool
  match_any [] l = ok false
  match_any ((f, re) ∷ fs) l = do
    v ← get l f
    let rest = match_any fs l
    if re (content v) then ok true else rest

  -- `f.match`
  unfoldable pub is_match : RegexMatch → Rec → Result Bool
  unfolding match_all match_any
  is_match f l = if not f.invert then match_all f.fields l else match_any f.fields l

  -- `f.match(l) == f.invert`
  unfoldable pub process : RegexMatch → Rec → Outcome RegexMatch Rec
  unfolding is_match
  process f l = do
    found ← is_match f l
    let discard = if f.invert then found else not found
    if discard then ok (record f { discarded = f.discarded + 1 }, none) else ok (f, some l)
