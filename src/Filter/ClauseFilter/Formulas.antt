-- ===== src/Filter/ClauseFilter/Formulas.antt =====
-- filter/clausefilter.go: the formulas that a clause stands for.
use mathlib.Core.Option.{none, some}
use baker.Common.{
  Bytes, [], ℕ, ◌+◌, Result, ok, ◌>>=◌, Bool, true, false, not, equal, if◌then◌else◌, ◌&&◌, ◌||◌,
  ◌≡◌, refl, subst, arith,
}
use baker.Record.{FieldIndex, Slice, content}
use baker.RecordType.{RecordType}
use baker.Filter.External.{Node, Nodes, node, no_more, next}
use baker.Filter.Names.{FieldByName}
use baker.Filter.ClauseFilter.{
  Clause, not_clause, and_clause, or_clause, atom_clause, true_clause, false_clause, and_name,
  or_name, not_name, parse_atom, parse_clause_sexp, parse_arguments, match_clause, process,
}

-- Boolean formulas over the fields of a record
mutual
  pub data Formula : Type 0 where
    all_of : Formulas → Formula
    any_of : Formulas → Formula
    negated : Formula → Formula
    is_equal : Bytes → Bytes → Formula

  pub data Formulas : Type 0 where
    nothing : Formulas
    also : Formula → Formulas → Formulas

abbrev leaf : Bytes → Node
leaf s = node s no_more

abbrev list_of : Bytes → Nodes → Node
list_of name ns = node [] (next (leaf name) ns)

-- The s-expression of a formula
unfoldable mutual
  pub to_node : Formula → Node
  to_node (all_of fs) = list_of and_name (to_nodes fs)
  to_node (any_of fs) = list_of or_name (to_nodes fs)
  to_node (negated f) = list_of not_name (next (to_node f) no_more)
  to_node (is_equal name v) = list_of name (next (leaf v) no_more)

  pub to_nodes : Formulas → Nodes
  to_nodes nothing = no_more
  to_nodes (also f fs) = next (to_node f) (to_nodes fs)

-- Whether a formula holds where `value` tells the fields' values: all of none is false, and any of none
-- is true.
unfoldable mutual
  pub holds : (Bytes → Bytes) → Formula → Bool
  holds value (all_of nothing) = false
  holds value (all_of (also f fs)) = holds value f && all_hold value fs
  holds value (any_of nothing) = true
  holds value (any_of (also f fs)) = holds value f || any_holds value fs
  holds value (negated f) = not (holds value f)
  holds value (is_equal name v) = equal (value name) v

  pub all_hold : (Bytes → Bytes) → Formulas → Bool
  all_hold value nothing = true
  all_hold value (also f fs) = holds value f && all_hold value fs

  pub any_holds : (Bytes → Bytes) → Formulas → Bool
  any_holds value nothing = false
  any_holds value (also f fs) = holds value f || any_holds value fs

module _ {V : Type 0} (T : RecordType V) (field_by_name : FieldByName) (value : Bytes → Bytes)
    (l : T.Rec) where
  -- A name of a field, no keyword, with what the record has there.
  pub record IsField (name : Bytes) : Type 0 where
    pub no_and : equal name and_name ≡ false
    pub no_or : equal name or_name ≡ false
    pub no_not : equal name not_name ≡ false
    pub index : FieldIndex
    pub known : field_by_name name ≡ some index
    pub slice : Slice
    pub read : T.get l index ≡ ok slice
    pub same : content slice ≡ value name

  -- Every name in the formula is one of a field.
  unfoldable mutual
    pub IsOver : Formula → Type 0
    IsOver (all_of fs) = AreOver fs
    IsOver (any_of fs) = AreOver fs
    IsOver (negated f) = IsOver f
    IsOver (is_equal name v) = IsField name

    pub AreOver : Formulas → Type 0
    AreOver nothing = Unit
    AreOver (also f fs) = IsOver f × AreOver fs

  -- A clause that was parsed, and what it matches.
  record Parsed (m : Result Clause) (b : Bool) : Type 0 where
    clause : Clause
    parsed : m ≡ ok clause
    matched : match_clause T l clause ≡ ok b

  and_clause-Parsed :
      (m n : Result Clause) (a b : Bool)
      → Parsed m a
      → Parsed n b
      → Parsed (do left ← m; right ← n; ok (and_clause left right)) (a && b)
  unfolding match_clause
  and_clause-Parsed m n a b p q = record {
    clause = and_clause p.clause q.clause;
    parsed = rw (p.parsed, q.parsed) refl;
    matched = rw (p.matched, q.matched) (ground arith);
  }

  or_clause-Parsed :
      (m n : Result Clause) (a b : Bool)
      → Parsed m a
      → Parsed n b
      → Parsed (do left ← m; right ← n; ok (or_clause left right)) (a || b)
  unfolding match_clause
  or_clause-Parsed m n a b p q = record {
    clause = or_clause p.clause q.clause;
    parsed = rw (p.parsed, q.parsed) refl;
    matched = rw (p.matched, q.matched) (ground arith);
  }

  not_clause-Parsed :
      (m : Result Clause) (a : Bool) → Parsed m a → Parsed (do c ← m; ok (not_clause c)) (not a)
  unfolding match_clause
  not_clause-Parsed m a p = record {
    clause = not_clause p.clause;
    parsed = rw (p.parsed) refl;
    matched = rw (p.matched) refl;
  }

  parse_atom-Parsed :
      (name v : Bytes)
      → IsField name
      → Parsed (parse_clause_sexp field_by_name (to_node (is_equal name v))) (equal (value name) v)
  unfolding match_clause parse_clause_sexp to_node parse_atom
  parse_atom-Parsed name v h = record {
    clause = atom_clause h.index v;
    parsed = rw (h.no_and, h.no_or, h.no_not, parse_atom, h.known) refl;
    matched = rw (h.read, h.same) refl;
  }

  and_true : (b : Bool) → b ≡ (b && true)
  and_true true = refl
  and_true false = refl

  or_false : (b : Bool) → b ≡ (b || false)
  or_false true = refl
  or_false false = refl

  mutual
    unfolding parse_clause_sexp match_clause to_node holds IsOver equal

    holds-Parsed :
        (f : Formula)
        → IsOver f
        → Parsed (parse_clause_sexp field_by_name (to_node f)) (holds value f)
    holds-Parsed (all_of nothing) h = record {
      clause = false_clause;
      parsed = refl;
      matched = refl;
    }
    holds-Parsed (all_of (also f fs)) h = all_hold-Parsed f fs (holds-Parsed f h.0) h.1
    holds-Parsed (any_of nothing) h = record { clause = true_clause; parsed = refl; matched = refl }
    holds-Parsed (any_of (also f fs)) h = any_holds-Parsed f fs (holds-Parsed f h.0) h.1
    holds-Parsed (negated f) h =
        not_clause-Parsed (parse_clause_sexp field_by_name (to_node f)) (holds value f)
          (holds-Parsed f h)
    holds-Parsed (is_equal name v) h = parse_atom-Parsed name v h

    all_hold-Parsed :
        (f : Formula) (fs : Formulas)
        → Parsed (parse_clause_sexp field_by_name (to_node f)) (holds value f)
        → AreOver fs
        → Parsed
            (parse_arguments field_by_name true (next (to_node f) (to_nodes fs)))
            (holds value f && all_hold value fs)
    all_hold-Parsed f nothing h k =
        subst (Parsed (parse_clause_sexp field_by_name (to_node f))) (and_true (holds value f)) h
    all_hold-Parsed f (also g gs) h k =
        and_clause-Parsed (parse_clause_sexp field_by_name (to_node f)) _ (holds value f) _ h
          (all_hold-Parsed g gs (holds-Parsed g k.0) k.1)

    any_holds-Parsed :
        (f : Formula) (fs : Formulas)
        → Parsed (parse_clause_sexp field_by_name (to_node f)) (holds value f)
        → AreOver fs
        → Parsed
            (parse_arguments field_by_name false (next (to_node f) (to_nodes fs)))
            (holds value f || any_holds value fs)
    any_holds-Parsed f nothing h k =
        subst (Parsed (parse_clause_sexp field_by_name (to_node f))) (or_false (holds value f)) h
    any_holds-Parsed f (also g gs) h k =
        or_clause-Parsed (parse_clause_sexp field_by_name (to_node f)) _ (holds value f) _ h
          (any_holds-Parsed g gs (holds-Parsed g k.0) k.1)

  -- The s-expression of a formula, whose names are those of fields that the record has, is parsed to a
  -- clause with which the filter hands the record on if the formula holds of it, and else drops and counts
  -- it. An `and` of nothing does not hold, an `or` of nothing does.
  pub process-holds :
      (n : ℕ) (f : Formula)
      → IsOver f
      → (c : Clause) × (parse_clause_sexp field_by_name (to_node f) ≡ ok c)
        × (process T (record { top_clause = c; num_filtered_lines = n }) l ≡ (
            if holds value f
            then ok (record { top_clause = c; num_filtered_lines = n }, some l)
            else ok (record { top_clause = c; num_filtered_lines = n + 1 }, none)))
  unfolding process
  process-holds n f h = let p = holds-Parsed f h in (p.clause, p.parsed, rw (p.matched) refl)
