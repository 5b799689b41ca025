-- ===== src/Filter/Dedup/Keys.antt =====
-- filter/dedup.go: which records Dedup drops.
use mathlib.Core.Option.{none, some}
use baker.Common.{
  Bytes, List, [], ◌∷◌, ℕ, ◌+◌, ok, ok-injective, Bool, true, false, equal, equal_iff, ◌≡◌, ◌↔◌,
  ◌⊎◌, inl, inr, refl, sym, ap, ◌∙◌, arith, All, Bool-cases,
}
use baker.RecordType.{RecordType}
use baker.LogLine.Split.{join, split, split-join, HasNo}
use baker.Filter.Dedup.{Dedup, contains, field_values, construct_key, process}

-- A key among those of the set.
abbrev pub IsIn : Bytes → List Bytes → Type 0
IsIn key [] = ⊥
IsIn key (k ∷ ks) = (k ≡ key) ⊎ IsIn key ks

contains-IsIn : (ks : List Bytes) (key : Bytes) → (contains ks key ≡ true) ↔ IsIn key ks
unfolding contains
contains-IsIn [] key = (λ h. cc, λ h. absurd h)
contains-IsIn (k ∷ ks) key = elim (Bool-cases (equal k key)) [
  | inl e ↦ (λ h. inl ((equal_iff k key).0 e), λ h. rw e refl)
  | inr e ↦ (
    λ h. inr ((contains-IsIn ks key).0 (ground arith)),
    λ h. elim h [
      | inl p ↦ ground (arith, equal_iff k key)
      | inr p ↦ rw e ((contains-IsIn ks key).1 p)
    ],
  )
]

-- Lists of values without the separator have the same key only if they are the same.
pub join-injective :
    (sep : ℕ) (f g : Bytes) (fs gs : List Bytes)
    → All (HasNo sep) (f ∷ fs)
    → All (HasNo sep) (g ∷ gs)
    → join sep (f ∷ fs) ≡ join sep (g ∷ gs)
    → ◌≡◌ {A = List Bytes} (f ∷ fs) (g ∷ gs)
join-injective sep f g fs gs hf hg e =
    sym (split-join sep f fs hf) ∙ ap (split sep) e ∙ split-join sep g gs hg

module _ {V : Type 0} (T : RecordType V) where
  open T use {Rec, get}

  -- A record is dropped, and counted, exactly when its key was seen before; else it is passed on
  -- unchanged and its key is remembered.
  pub process-IsIn :
      (f : Dedup) (l : Rec) (key : Bytes)
      → construct_key T f l ≡ ok key
      → (IsIn key f.dedup_set
          × (process T f l ≡ ok (record f { num_filtered_lines = f.num_filtered_lines + 1 }, none)))
        ⊎ ((¬ IsIn key f.dedup_set)
            × (process T f l ≡ ok (record f { dedup_set = key ∷ f.dedup_set }, some l)))
  unfolding process
  process-IsIn f l key e = elim (Bool-cases (contains f.dedup_set key)) [
    | inl c ↦ inl ((contains-IsIn f.dedup_set key).0 c, rw (e, c) refl)
    | inr c ↦ inr ((λ h. absurd (clash ((contains-IsIn f.dedup_set key).1 h) c)), rw (e, c) refl)
  ]
    where
      clash : {b : Bool} → b ≡ true → b ≡ false → ⊥
      clash p q = cc

  -- Two records whose compared fields hold no separator have the same key only if these fields hold
  -- the same bytes.
  pub construct_key-injective :
      (f : Dedup) (l m : Rec) (v w key : Bytes) (vs ws : List Bytes)
      → field_values T f.fields l ≡ ok (v ∷ vs)
      → field_values T f.fields m ≡ ok (w ∷ ws)
      → All (HasNo f.sep) (v ∷ vs)
      → All (HasNo f.sep) (w ∷ ws)
      → construct_key T f l ≡ ok key
      → construct_key T f m ≡ ok key
      → ◌≡◌ {A = List Bytes} (v ∷ vs) (w ∷ ws)
  unfolding construct_key
  construct_key-injective f l m v w key vs ws lv mw hv hw el em =
      join-injective f.sep v w vs ws hv hw
        (ok-injective (rw lv at el) ∙ sym (ok-injective (rw mw at em)))
