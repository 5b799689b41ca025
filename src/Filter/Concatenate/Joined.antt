-- ===== src/Filter/Concatenate/Joined.antt =====
-- filter/concatenate.go: the value that the filter writes.
use mathlib.Core.Option.{some}
use baker.Common.{
  Bytes, List, [], ◌∷◌, ◌++◌, returned, ok, if◌then◌else◌, ◌==◌, ok-injective, ◌≡◌, refl, sym, ap,
  ◌∙◌, append_assoc, arith,
}
use baker.Record.{FieldIndex, Slice, bytes, content}
use baker.RecordType.{RecordType, RecordLaws}
use baker.Filter.Dedup.{field_values}
use baker.Filter.Concatenate.{Concatenate, append_values, process}

-- The texts, one after the other, with the separator, which may be empty, between them
unfoldable pub join_by : Bytes → List Bytes → Bytes
join_by sep [] = []
join_by sep (v ∷ []) = v
join_by sep (v ∷ w ∷ vs) = v ++ (sep ++ join_by sep (w ∷ vs))

module _ {V : Type 0} (T : RecordType V) where
  -- The first field's value, and the values of the others.
  record Values (f : FieldIndex) (fs : List FieldIndex) (l : T.Rec) (vs : List Bytes) : Type 0 where
    first : Slice
    others : List Bytes
    get_first : T.get l f ≡ ok first
    get_others : field_values T fs l ≡ ok others
    all : vs ≡ content first ∷ others

  values :
      (f : FieldIndex) (fs : List FieldIndex) (l : T.Rec) (vs : List Bytes)
      → field_values T (f ∷ fs) l ≡ ok vs
      → Values f fs l vs
  unfolding field_values
  values f fs l vs e =
      let a = returned (T.get l f) _ e in
      let b = returned (field_values T fs l) _ a.rest in
      record {
        first = a.value;
        others = b.value;
        get_first = a.call;
        get_others = b.call;
        all = sym (ok-injective b.rest);
      }

  append_values-from :
      (sep : Bytes) (f : FieldIndex) (fs : List FieldIndex) (l : T.Rec) (vs : List Bytes)
      (key : Bytes)
      → field_values T (f ∷ fs) l ≡ ok vs
      → append_values T sep (f ∷ fs) l key ≡ ok (key ++ join_by sep vs)
  append_values-from sep f [] l vs key e =
      let a = values f [] l vs e in one a.first a.others a.get_first a.get_others a.all
    where
      one :
          (v : Slice) (ws : List Bytes)
          → T.get l f ≡ ok v
          → field_values T [] l ≡ ok ws
          → vs ≡ content v ∷ ws
          → append_values T sep (f ∷ []) l key ≡ ok (key ++ join_by sep vs)
      one v [] p q r = unfold append_values join_by in rw (p, r) refl
      one v (w ∷ ws) p q r = unfold field_values in cc
  append_values-from sep f (g ∷ fs) l vs key e =
      let a = values f (g ∷ fs) l vs e in
      let b = values g fs l a.others a.get_others in
      more a.first (content b.first) b.others a.get_first
        (a.all ∙ ap (λ ws. content a.first ∷ ws) b.all)
        (append_values-from sep g fs l a.others (key ++ (content a.first ++ sep)) a.get_others
          ∙ ap (λ ws. ok ((key ++ (content a.first ++ sep)) ++ join_by sep ws)) b.all)
    where
      more :
          (v : Slice) (w : Bytes) (ws : List Bytes)
          → T.get l f ≡ ok v
          → vs ≡ content v ∷ w ∷ ws
          → append_values T sep (g ∷ fs) l (key ++ (content v ++ sep))
            ≡ ok ((key ++ (content v ++ sep)) ++ join_by sep (w ∷ ws))
          → append_values T sep (f ∷ g ∷ fs) l key ≡ ok (key ++ join_by sep vs)
      more v w ws p r ih =
          unfold append_values join_by in
          rw (p, r)
            (ih
              ∙ ap ok (
                  append_assoc key (content v ++ sep) (join_by sep (w ∷ ws))
                  ∙ ap (λ t. key ++ t) (append_assoc (content v) sep (join_by sep (w ∷ ws)))))

  append_values-join_by :
      (sep : Bytes) (fs : List FieldIndex) (l : T.Rec) (vs : List Bytes)
      → field_values T fs l ≡ ok vs
      → append_values T sep fs l [] ≡ ok (join_by sep vs)
  append_values-join_by sep [] l vs e = unfold append_values field_values join_by in ground arith
  append_values-join_by sep (f ∷ fs) l vs e = append_values-from sep f fs l vs [] e

  -- If a valid record has values `vs` for the fields, and takes the join of them by the separator, which is
  -- empty or not, as the value of the target, then the filter hands the record on, with the join in the
  -- target, and with every other field as it was.
  pub process-join_by :
      (laws : RecordLaws T) (c : Concatenate) (l l' : T.Rec) (vs : List Bytes)
      → laws.Valid l
      → field_values T c.fields l ≡ ok vs
      → T.set l c.target (bytes (join_by c.separator vs)) ≡ ok l'
      → (process T c l ≡ ok (c, some l'))
        × ((g : FieldIndex)
            → T.get l' g
              ≡ (if c.target == g then ok (bytes (join_by c.separator vs)) else T.get l g))
  unfolding process
  process-join_by laws c l l' vs v e h = (
    rw (append_values-join_by c.separator c.fields l vs e) (rw h refl),
    λ g. laws.get_set l c.target g (bytes (join_by c.separator vs)) l' v h,
  )
