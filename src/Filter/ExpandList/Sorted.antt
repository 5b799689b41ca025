-- ===== src/Filter/ExpandList/Sorted.antt =====
-- filter/expand_list.go: the comment "we can break because f.listIdx is sorted".
use baker.Common.{
  Bytes, List, [], ◌∷◌, ℕ, ◌≤◌, Result, ok, ◌>>=◌, Bool-cases, if◌then◌else◌, length, leb, leb→le,
  le→leb, get_or, All, ◌≡◌, refl, sym, ap, fun_ext, inl, inr, arith,
}
use baker.Record.{FieldIndex, bytes}
use baker.RecordType.{RecordType}
use baker.Filter.ExpandList.{expand}

-- The indexes do not decrease.
abbrev pub IsSorted : List (ℕ × FieldIndex) → Type 0
IsSorted [] = Unit
IsSorted ((idx, f) ∷ fs) = All (λ p. idx ≤ p.0) fs × IsSorted fs

module _ {V : Type 0} (T : RecordType V) where
  open T use {Rec, get, set}

  -- Every element of the list that has a field is written to it, those out of range are passed over.
  unfoldable pub expand_all : List Bytes → List (ℕ × FieldIndex) → Rec → Result Rec
  expand_all part [] l = ok l
  expand_all part ((idx, f) ∷ fs) l =
      let rest = expand_all part fs l in
      let next = (do l' ← set l f (bytes (get_or part idx [])); expand_all part fs l') in
      if leb (length part) idx then rest else next

  expand_all-beyond :
      (part : List Bytes) (idx : ℕ) (fs : List (ℕ × FieldIndex)) (l : Rec)
      → length part ≤ idx
      → All (λ p. idx ≤ p.0) fs
      → expand_all part fs l ≡ ok l
  unfolding expand_all
  expand_all-beyond part idx [] l h q = refl
  expand_all-beyond part idx ((j, f) ∷ fs) l h q =
      rw (le→leb (length part) j (omega (arith, q.0))) (expand_all-beyond part idx fs l h q.1)

  -- With indexes that do not decrease, the loop that stops writes all that the loop that goes on would.
  pub expand-expand_all :
      (part : List Bytes) (fs : List (ℕ × FieldIndex)) (l : Rec)
      → IsSorted fs
      → expand T part fs l ≡ expand_all part fs l
  unfolding expand expand_all
  expand-expand_all part [] l h = refl
  expand-expand_all part ((idx, f) ∷ fs) l h = elim (Bool-cases (leb (length part) idx)) [
    | inl e ↦ rw e (sym (expand_all-beyond part idx fs l (leb→le (length part) idx e) h.0))
    | inr e ↦ rw e (
        ap (λ k. set l f (bytes (get_or part idx [])) >>= k)
          (fun_ext λ l'. expand-expand_all part fs l' h.1))
  ]
