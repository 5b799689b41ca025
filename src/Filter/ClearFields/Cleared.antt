-- ===== src/Filter/ClearFields/Cleared.antt =====
-- filter/clear_fields.go: what a record holds behind the filter.
use mathlib.Core.Option.{some}
use baker.Common.{
  List, [], ◌∷◌, Returned, returned, ok, ok-injective, Bool, false, if◌then◌else◌, ◌==◌, ◌||◌, ◌≡◌,
  sym, ap, arith,
}
use baker.Record.{FieldIndex, nil}
use baker.RecordType.{RecordType, RecordLaws}
use baker.Filter.ClearFields.{ClearFields, clear_all, process}

-- Whether a field is among those of the filter.
unfoldable pub is_cleared : List FieldIndex → FieldIndex → Bool
is_cleared [] g = false
is_cleared (f ∷ fs) g = f == g || is_cleared fs g

module _ {V : Type 0} (T : RecordType V) (laws : RecordLaws T) where
  open T use {Rec, get, set}

  clear_all-cons :
      (f : FieldIndex) (fs : List FieldIndex) (l l' : Rec)
      → clear_all T (f ∷ fs) l ≡ ok l'
      → Returned (set l f nil) (λ k. clear_all T fs k) l'
  unfolding clear_all
  clear_all-cons f fs l l' e = returned (set l f nil) (λ k. clear_all T fs k) e

  get-clear_all :
      (fs : List FieldIndex) (l l' : Rec) (g : FieldIndex)
      → laws.Valid l
      → clear_all T fs l ≡ ok l'
      → get l' g ≡ (if is_cleared fs g then ok nil else get l g)
  get-clear_all [] l l' g h e =
      unfold clear_all is_cleared in ap (λ k. get k g) (ok-injective (sym e))
  get-clear_all (f ∷ fs) l l' g h e =
      let a = clear_all-cons f fs l l' e in
      after a.value (laws.get_set l f g nil a.value h a.call)
        (get-clear_all fs a.value l' g (laws.set_valid l f nil a.value h a.call) a.rest)
    where
      after :
          (k : Rec)
          → get k g ≡ (if f == g then ok nil else get l g)
          → get l' g ≡ (if is_cleared fs g then ok nil else get k g)
          → get l' g ≡ (if is_cleared (f ∷ fs) g then ok nil else get l g)
      after k p q = unfold is_cleared in ground arith

  -- In the record that `Process` hands on, each of the filter's fields is nil, and each other field is
  -- what it was, for a valid record.
  pub get-process :
      (c c' : ClearFields) (l l' : Rec) (g : FieldIndex)
      → laws.Valid l
      → process T c l ≡ ok (c', some l')
      → get l' g ≡ (if is_cleared c.fields g then ok nil else get l g)
  unfolding process
  get-process c c' l l' g h e =
      let a = returned (clear_all T c.fields l) (λ k. ok (c, some k)) e in
      get-clear_all c.fields l l' g h (ground (arith, a.call, a.rest))
