-- ===== src/Filter/ClauseFilter/Tests.antt =====
-- The theorem on ClauseFilter, at the clause (and (p a) (not (q a))) and the line "a,,c".
use mathlib.Core.Option.{none, some}
use baker.Common.{true, Bytes, [], ◌∷◌, ℕ, ok, equal, if◌then◌else◌, ◌≡◌, refl}
use baker.Record.{bytes}
use baker.RecordType.LogLines.{log_lines}
use baker.LogLine.{LogLine, empty, get, get_parsed, parse, scan, update, prefix}
use baker.Filter.Names.{FieldByName}
use baker.Filter.ClauseFilter.{Clause, parse_clause_sexp, process}
use baker.Filter.ClauseFilter.Formulas.{
  Formula, all_of, negated, is_equal, nothing, also, to_node, holds, IsField, IsOver, process-holds,
}

abbrev p : Bytes
p = b'p' ∷ []

abbrev q : Bytes
q = b'q' ∷ []

abbrev field_by_name : FieldByName
field_by_name name = if equal name p then some 0 else if equal name q then some 2 else none

abbrev line : LogLine ℕ
line = (parse (empty b',') (bytes (b'a' ∷ b',' ∷ b',' ∷ b'c' ∷ [])) none).0

abbrev value : Bytes → Bytes
value name = if equal name p then b'a' ∷ [] else b'c' ∷ []

abbrev clause : Formula
clause = all_of (also (is_equal p (b'a' ∷ [])) (also (negated (is_equal q (b'a' ∷ []))) nothing))

p-IsField : IsField (log_lines ℕ) field_by_name value line p
unfolding equal get get_parsed parse scan empty update prefix
p-IsField = record {
  no_and = refl;
  no_or = refl;
  no_not = refl;
  index = 0;
  known = refl;
  slice = bytes (b'a' ∷ []);
  read = refl;
  same = refl;
}

q-IsField : IsField (log_lines ℕ) field_by_name value line q
unfolding equal get get_parsed parse scan empty update prefix
q-IsField = record {
  no_and = refl;
  no_or = refl;
  no_not = refl;
  index = 2;
  known = refl;
  slice = bytes (b'c' ∷ []);
  read = refl;
  same = refl;
}

clause-IsOver : IsOver (log_lines ℕ) field_by_name value line clause
unfolding IsOver
clause-IsOver = (p-IsField, (q-IsField, tt))

clause_holds : holds value clause ≡ true
unfolding holds equal
clause_holds = refl

process-holds_example :
    (c : Clause) × (parse_clause_sexp field_by_name (to_node clause) ≡ ok c)
    × (process (log_lines ℕ) (record { top_clause = c; num_filtered_lines = 7 }) line ≡ (
        if holds value clause
        then ok (record { top_clause = c; num_filtered_lines = 7 }, some line)
        else ok (record { top_clause = c; num_filtered_lines = 8 }, none)))
process-holds_example = process-holds (log_lines ℕ) field_by_name value line 7 clause clause-IsOver
