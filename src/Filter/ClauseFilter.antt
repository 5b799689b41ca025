-- ===== src/Filter/ClauseFilter.antt =====
-- filter/clausefilter.go. Where the code ends the program by log.Fatal, the model panics.
pub mod Formulas
mod Tests
use mathlib.Core.Option.{Option, none, some}
use baker.Common.{
  Bytes, List, [], ◌∷◌, ℕ, ◌+◌, Result, ok, err, panic, ◌>>=◌, Bool, true, false, not, equal,
  if◌then◌else◌, length, ◌==◌, ◌&&◌, ◌||◌,
}
use baker.Record.{FieldIndex, Slice, content}
use baker.RecordType.{RecordType}
use baker.Filter.External.{External, Node, Nodes, node, no_more, next}
use baker.Filter.Names.{FieldByName, Outcome}

-- `Clause`, with the fields that each of its types uses.
pub data Clause : Type 0 where
  not_clause : Clause → Clause
  and_clause : Clause → Clause → Clause
  or_clause : Clause → Clause → Clause
  atom_clause : FieldIndex → Bytes → Clause
  true_clause : Clause
  false_clause : Clause

pub record ClauseFilter : Type 0 where
  pub top_clause : Clause
  pub num_filtered_lines : ℕ

-- "and", "or" and "not"
abbrev pub and_name : Bytes
and_name = b'a' ∷ b'n' ∷ b'd' ∷ []

abbrev pub or_name : Bytes
or_name = b'o' ∷ b'r' ∷ []

abbrev pub not_name : Bytes
not_name = b'n' ∷ b'o' ∷ b't' ∷ []

abbrev pub value_of : Node → Bytes
value_of (node value children) = value

-- The last case of `parseClauseSexp`: a field and the value it is compared with.
unfoldable pub parse_atom : FieldByName → Bytes → Nodes → Result Clause
parse_atom field_by_name field (next value no_more) = elim (field_by_name field) [
  | none ↦ panic
  | some f ↦ ok (atom_clause f (value_of value))
]
parse_atom field_by_name field _ = panic

-- `parseClauseSexp`. The node that it builds of an and or an or with more than two arguments has the
-- same keyword and the arguments from the second on, so the loop is one over the arguments.
unfoldable mutual
  unfolding parse_atom

  pub parse_clause_sexp : FieldByName → Node → Result Clause
  parse_clause_sexp field_by_name (node value no_more) = panic
  parse_clause_sexp field_by_name (node value (next first rest)) =
      if equal (value_of first) and_name
      then parse_arguments field_by_name true rest
      else if equal (value_of first) or_name
      then parse_arguments field_by_name false rest
      else if equal (value_of first) not_name
      then parse_not field_by_name rest
      else parse_atom field_by_name (value_of first) rest

  -- The arguments of an and (`true`) or an or (`false`)
  pub parse_arguments : FieldByName → Bool → Nodes → Result Clause
  parse_arguments field_by_name b no_more = ok (if b then false_clause else true_clause)
  parse_arguments field_by_name b (next x no_more) = parse_clause_sexp field_by_name x
  parse_arguments field_by_name b (next x (next y rest)) = do
    left ← parse_clause_sexp field_by_name x
    right ← parse_arguments field_by_name b (next y rest)
    ok (if b then and_clause left right else or_clause left right)

  -- The argument of a not
  pub parse_not : FieldByName → Nodes → Result Clause
  parse_not field_by_name (next x no_more) = do
    c ← parse_clause_sexp field_by_name x
    ok (not_clause c)
  parse_not field_by_name _ = panic

abbrev pub is_space : ℕ → Bool
is_space c = c == b' ' || c == b'\r' || c == b'\n' || c == b'\t'

-- `strings.TrimLeft` and `strings.TrimRight` of " \r\n\t"
unfoldable pub trim_left : Bytes → Bytes
trim_left [] = []
trim_left (c ∷ s) = let rest = trim_left s in if is_space c then rest else c ∷ s

unfoldable pub trim_right : Bytes → Bytes
trim_right [] = []
trim_right (c ∷ s) =
    let rest = trim_right s in if length rest == 0 && is_space c then [] else c ∷ rest

module _ {V : Type 0} (x : External V) where
  unfoldable pub parse_clause : FieldByName → Bytes → Result Clause
  unfolding trim_left trim_right parse_clause_sexp
  parse_clause field_by_name raw =
      let s = trim_left (trim_right raw) in
      if length s == 0
      then ok true_clause
      else elim (x.parse_sexp s) [ none ↦ panic | some n ↦ parse_clause_sexp field_by_name n ]

  unfoldable pub new : FieldByName → Bytes → Result ClauseFilter
  unfolding parse_clause
  new field_by_name clause = do
    c ← parse_clause field_by_name clause
    ok (record { top_clause = c; num_filtered_lines = 0 })

module _ {V : Type 0} (T : RecordType V) where
  open T use {Rec, get}

  unfoldable pub match_clause : Rec → Clause → Result Bool
  match_clause l (not_clause c) = do r ← match_clause l c; ok (not r)
  match_clause l (and_clause a b) = do
    left ← match_clause l a
    let right = match_clause l b
    if left then right else ok false
  match_clause l (or_clause a b) = do
    left ← match_clause l a
    let right = match_clause l b
    if left then ok true else right
  match_clause l (atom_clause f contents) = do v ← get l f; ok (equal (content v) contents)
  match_clause l true_clause = ok true
  match_clause l false_clause = ok false

  unfoldable pub process : ClauseFilter → Rec → Outcome ClauseFilter Rec
  unfolding match_clause
  process f l = do
    matched ← match_clause l f.top_clause
    if matched
        then ok (f, some l)
        else ok (record f { num_filtered_lines = f.num_filtered_lines + 1 }, none)
