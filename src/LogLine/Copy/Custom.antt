-- ===== src/LogLine/Copy/Custom.antt =====
-- logline.go: the loop of `Copy` over the custom fields.
use baker.Common.{
  ℕ, zero, suc, ◌+◌, ◌≤◌, ◌<◌, ◌≡◌, ◌≢◌, refl, sym, ◌∙◌, arith, ==_iff, Bool-cases, ◌==◌,
  if◌then◌else◌, Bytes, [], ◌∷◌, inl, inr, ok,
}
use baker.Record.{content, Slice, nil, bytes, FieldIndex}
use baker.LogLine.{LogLine, get, set, copy_field, copy_custom}
use baker.LogLine.Invariant.{IsValid, value, get-value}
use baker.LogLine.Fields.{set_cases, set-IsValid, set_total, get-set}
use baker.LogLine.Parsed.{field}

pub content-field : (b : Bytes) → content (field b) ≡ b
content-field [] = refl
content-field (c ∷ cs) = refl

module _ {V : Type 0} where
  -- What `Set` leaves alone, and how far the count of modified fields grows.
  pub record Keeps (l l' : LogLine V) (n : ℕ) : Type 0 where
    pub metadata : l'.metadata ≡ l.metadata
    pub cache : l'.cache ≡ l.cache
    pub field_separator : l'.field_separator ≡ l.field_separator
    pub wcnt : l'.wcnt ≤ l.wcnt + n

  pub set-Keeps :
      (l : LogLine V) (f : FieldIndex) (v : Slice) {l' : LogLine V}
      → IsValid l
      → set l f v ≡ ok l'
      → Keeps l l' 1
  set-Keeps l f v h e = elim (set_cases l f v h e) [
    | inl p ↦
        rw p.1
          (record { metadata = refl; cache = refl; field_separator = refl; wcnt = omega arith })
    | inr p ↦
        rw p.2
          (record { metadata = refl; cache = refl; field_separator = refl; wcnt = omega arith })
  ]

  -- One custom field copied into a line that has none there.
  record CopiesField (cpy : LogLine V) (f : FieldIndex) (v : Slice) (r : LogLine V) : Type 0 where
    returns : copy_field cpy f v ≡ ok r
    valid : IsValid r
    keeps : Keeps cpy r 1
    fields : (g : FieldIndex) → get r g ≡ (if f == g then ok v else get cpy g)

  copy_field_total :
      (cpy : LogLine V) (f : FieldIndex) (v : Slice)
      → IsValid cpy
      → f < 3100
      → cpy.wcnt < 255
      → get cpy f ≡ ok nil
      → (r : LogLine V) × CopiesField cpy f v r
  copy_field_total cpy f nil h b w e = (
    cpy,
    record {
      returns = unfold copy_field in refl;
      valid = h;
      keeps = record { metadata = refl; cache = refl; field_separator = refl; wcnt = omega arith };
      fields = λ g. elim (Bool-cases (f == g)) [
        | inl p ↦ rw (p, ← (==_iff f g).0 p) e
        | inr p ↦ rw p refl
      ];
    },
  )
  copy_field_total cpy f (bytes b) h lt w e =
      let (r, done) = set_total cpy f (bytes b) lt (inr w) in
      (
        r,
        record {
          returns = unfold copy_field in done;
          valid = set-IsValid cpy f (bytes b) h done;
          keeps = set-Keeps cpy f (bytes b) h done;
          fields = λ g. get-set cpy f g (bytes b) h done;
        },
      )

  -- The custom fields from `f` on copied, `n` of them.
  pub record CopiesCustom (l cpy : LogLine V) (n : ℕ) (f : FieldIndex) (r : LogLine V)
      : Type 0 where
    pub returns : copy_custom l n f cpy ≡ ok r
    pub valid : IsValid r
    pub keeps : Keeps cpy r n
    pub before : (g : FieldIndex) → g < f → get r g ≡ get cpy g
    pub within : (g : FieldIndex) → f ≤ g → g < f + n → get r g ≡ get l g

  copied_other :
      {cpy c : LogLine V} {f : FieldIndex} {v : Slice}
      → CopiesField cpy f v c
      → (g : FieldIndex) → f ≢ g
      → get c g ≡ get cpy g
  copied_other one g ne = one.fields g ∙ ground arith

  module _ (l cpy c : LogLine V) (f : FieldIndex) (one : CopiesField cpy f (value l f) c) where
    copied_self : IsValid l → f < 3100 → get c f ≡ get l f
    copied_self v b = one.fields f ∙ rw ((==_iff f f).1 refl) (sym (get-value f v b))

    CopiesCustom-cons :
        (n : ℕ) {r : LogLine V}
        → IsValid l
        → f < 3100
        → CopiesCustom l c n (suc f) r
        → CopiesCustom l cpy (suc n) f r
    unfolding copy_custom
    CopiesCustom-cons n v b rest = record {
      returns = rw (get-value f v b, one.returns) rest.returns;
      valid = rest.valid;
      keeps = record {
        metadata = rest.keeps.metadata ∙ one.keeps.metadata;
        cache = rest.keeps.cache ∙ one.keeps.cache;
        field_separator = rest.keeps.field_separator ∙ one.keeps.field_separator;
        wcnt = omega (arith, rest.keeps.wcnt, one.keeps.wcnt);
      };
      before = λ g p. rest.before g (omega arith) ∙ copied_other one g (omega arith);
      within = λ g p q. elim (Bool-cases (f == g)) [
        | inl e ↦
            let same : f ≡ g = (==_iff f g).0 e in
            rw (← same) (rest.before f (omega arith) ∙ copied_self v b)
        | inr e ↦ rest.within g (ground arith) (omega arith)
      ];
    }

  pub copy_custom_total :
      (l : LogLine V) (n : ℕ) (f : FieldIndex) (cpy : LogLine V)
      → IsValid l
      → IsValid cpy
      → f + n ≤ 3100
      → cpy.wcnt + n ≤ 255
      → ((g : FieldIndex) → f ≤ g → g < 3100 → get cpy g ≡ ok nil)
      → (r : LogLine V) × CopiesCustom l cpy n f r
  unfolding copy_custom
  copy_custom_total l zero f cpy v h b w e = (
    cpy,
    record {
      returns = refl;
      valid = h;
      keeps = record { metadata = refl; cache = refl; field_separator = refl; wcnt = omega arith };
      before = λ g p. refl;
      within = λ g p q. absurd (omega arith);
    },
  )
  copy_custom_total l (suc n) f cpy v h b w e =
      let (c, one) =
        copy_field_total cpy f (value l f) h (omega arith) (omega arith)
          (e f (omega arith) (omega arith)) in
      let (r, rest) =
        copy_custom_total l n (suc f) c v one.valid (omega arith) (omega (arith, one.keeps.wcnt))
          (λ g p q. copied_other one g (omega arith) ∙ e g (omega arith) q) in
      (r, CopiesCustom-cons l cpy c f one n v (omega arith) rest)
