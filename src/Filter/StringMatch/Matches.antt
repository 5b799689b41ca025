-- ===== src/Filter/StringMatch/Matches.antt =====
-- filter/string_match.go: which records StringMatch discards.
use mathlib.Core.Option.{none, some}
use baker.Common.{
  Bytes, List, [], ◌∷◌, ◌+◌, ok, Bool, true, not, Bool-cases, equal, equal_iff, if◌then◌else◌, ◌↔◌,
  ◌≡◌, refl, sym, inl, inr, arith,
}
use baker.Record.{Slice, content}
use baker.RecordType.{RecordType}
use baker.Filter.Dedup.Keys.{IsIn}
use baker.Filter.StringMatch.{StringMatch, match_any, is_match_any, process}

match_any-IsIn : (buf : Bytes) (ss : List Bytes) → (match_any buf ss ≡ true) ↔ IsIn buf ss
unfolding match_any
match_any-IsIn buf [] = (λ h. cc, λ h. absurd h)
match_any-IsIn buf (s ∷ ss) = elim (Bool-cases (equal buf s)) [
  | inl e ↦ (λ h. inl (sym ((equal_iff buf s).0 e)), λ h. rw e refl)
  | inr e ↦ (
    λ h. inr ((match_any-IsIn buf ss).0 (ground arith)),
    λ h. elim h [
      | inl p ↦ ground (arith, equal_iff buf s)
      | inr p ↦ rw e ((match_any-IsIn buf ss).1 p)
    ],
  )
]

module _ {V : Type 0} (T : RecordType V) where
  -- Of a record whose field can be read, `Process` tells whether the value is one of the strings: it
  -- discards and counts the record if it is, or, with invert, if it is not, and else hands it on
  -- unchanged.
  pub process-match :
      (f : StringMatch) (l : T.Rec) (v : Slice)
      → T.get l f.field ≡ ok v
      → (found : Bool) × ((found ≡ true) ↔ IsIn (content v) f.strings)
        × (process T f l ≡ (
            if (if f.invert then not found else found)
            then ok (record f { discarded = f.discarded + 1 }, none)
            else ok (f, some l)))
  unfolding process is_match_any
  process-match f l v e =
      (match_any (content v) f.strings, match_any-IsIn (content v) f.strings, rw e refl)
