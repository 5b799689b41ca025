-- ===== src/LogLine/Copy.antt =====
-- logline.go: `Copy`.
pub mod Custom
use mathlib.Core.Option.{none, some}
use baker.Common.{
  ℕ, zero, suc, ◌+◌, ◌^◌, ◌≤◌, ◌<◌, ◌≡◌, ◌≢◌, refl, sym, ap, ◌∙◌, arith, ==_iff, ==_ne, Bool-cases,
  ◌==◌, if◌then◌else◌, Bytes, [], ◌∷◌, inl, inr, length, ok,
}
use baker.Common.Dict.{lookup}
use baker.Record
use baker.Record.{content, Slice, nil, bytes, FieldIndex, Metadata}
use baker.LogLine.{
  LogLine, get, set, empty, parse, to_text, copy, copy_field, copy_custom, entries, meta,
}
use baker.LogLine.Invariant.{IsValid, value, get-value}
use baker.LogLine.Fields.{set_cases, set-IsValid, set_total, get-set}
use baker.LogLine.Parsed.{IsFresh, field, parse-IsValid, parse_keeps, get-parse_custom}
use baker.LogLine.RoundTrip.{IsClean, written, written-accepted, get-written}
use baker.LogLine.Text.{to_text-join}
use baker.LogLine.Copy.Custom.{copy_custom_total, content-field}

module _ {V : Type 0} where
  -- `r` is a copy of `l`: it holds the same bytes in every field, the same slices in the custom
  -- fields, and has the metadata, the separator and the very cache of `l`.
  pub record IsCopy (l r : LogLine V) : Type 0 where
    pub valid : IsValid r
    pub fields :
        (f : FieldIndex)
        → f < 3000
        → (v : Slice) × (w : Slice) × (get l f ≡ ok v) × (get r f ≡ ok w) × (content w ≡ content v)
    pub custom : (f : FieldIndex) → 3000 ≤ f → f < 3100 → get r f ≡ get l f
    pub metas : (key : Bytes) → meta r key ≡ meta l key
    pub separator : r.field_separator ≡ l.field_separator
    pub shared : r.cache ≡ l.cache

  get-entries :
      (md : Metadata V) (key : Bytes) → Record.get (some (entries md)) key ≡ Record.get md key
  unfolding Record.get
  get-entries none key = unfold lookup in refl
  get-entries (some m) key = refl

  -- The line that `Copy` begins with.
  abbrev blank : LogLine V → LogLine V
  blank l = record (empty l.field_separator) {
    cache = l.cache;
    metadata = some (entries l.metadata);
  }

  blank-IsFresh : (l : LogLine V) → IsFresh (blank l)
  unfolding empty
  blank-IsFresh l = record {
    idx_zero = λ i. refl;
    wmask_zero = λ f. refl;
    no_line = refl;
    wcnt_zero = refl;
  }

  blank-separator : (l : LogLine V) → (blank l).field_separator ≡ l.field_separator
  unfolding empty
  blank-separator l = refl

  module _ (l : LogLine V) (fuel : ℕ) where
    copy-copy_custom :
        (text : Bytes)
        → l.wcnt ≢ 0
        → to_text fuel l [] ≡ ok text
        → copy fuel l
          ≡ copy_custom l 100 3000 (parse (blank l) (bytes text) (some (entries l.metadata))).0
    unfolding copy
    copy-copy_custom text nz e = rw (==_ne l.wcnt 0 nz, e) refl

    module _ (v : IsValid l) (clean : IsClean l) (nz : l.wcnt ≢ 0) (w : l.wcnt < 255)
        (h : 256 ≤ fuel)
        (short : (text : Bytes) → to_text fuel l [] ≡ ok text → length text < 2 ^ 31) where
      copy_modified : (r : LogLine V) × (copy fuel l ≡ ok r) × IsCopy l r
      copy_modified =
          let md : Metadata V = some (entries l.metadata) in
          let z = blank-IsFresh l in
          let same = blank-separator l in
          let t = written l v clean (blank l) z same md in
          let text = to_text-join l fuel [] v nz w h in
          let ok_len : length t < 2 ^ 31 = short t text in
          let accepted = written-accepted l v clean (blank l) z same md in
          let keeps = parse_keeps (blank l) (bytes t) md z ok_len accepted in
          let (r, done) =
            copy_custom_total l 100 3000 (parse (blank l) (bytes t) md).0 v
              (parse-IsValid (blank l) (bytes t) md z ok_len accepted) (omega arith) (omega arith)
              (λ g p q. get-parse_custom (blank l) (bytes t) md z ok_len accepted g p q) in
          (
            r,
            copy-copy_custom t nz text ∙ done.returns,
            record {
              valid = done.valid;
              fields = λ f b. (
                value l f,
                field (content (value l f)),
                get-value f v (omega arith),
                done.before f b ∙ get-written l v clean (blank l) z same md f b ok_len,
                content-field (content (value l f)),
              );
              custom = λ f p q. done.within f p q;
              metas = λ key.
                  unfold meta in
                  (ap (λ (m : Metadata V). Record.get m key) (done.keeps.metadata ∙ keeps.0)
                    ∙ get-entries l.metadata key);
              separator = done.keeps.field_separator ∙ keeps.2 ∙ same;
              shared = done.keeps.cache ∙ keeps.1;
            },
          )

  -- The copy of a line with no modified field: its own indexes over its own bytes.
  abbrev plain : LogLine V → LogLine V
  plain l = record (blank l) { line = l.line; idx = l.idx }

  plain-IsValid : (l : LogLine V) → IsValid l → IsValid (plain l)
  unfolding empty
  plain-IsValid l v = record {
    idx_start = v.idx_start;
    idx_position = v.idx_position;
    no_line = v.no_line;
    wcnt_byte = omega arith;
    wmask_bound = λ f. omega arith;
    wmask_injective = λ f g e ne. absurd (ne refl);
  }

  value-plain :
      (l : LogLine V) (f : FieldIndex) → IsValid l → l.wcnt ≡ 0 → value (plain l) f ≡ value l f
  unfolding empty
  value-plain l f v z = ground (arith, v.wmask_bound f)

  value-blank :
      (l : LogLine V) (f : FieldIndex)
      → IsValid l
      → l.wcnt ≡ 0
      → l.line ≡ nil
      → value (blank l) f ≡ value l f
  unfolding empty
  value-blank l f v z e = ground (arith, v.wmask_bound f, v.no_line e f)

  blank-IsValid : (l : LogLine V) → IsValid (blank l)
  unfolding empty
  blank-IsValid l = record {
    idx_start = inl refl;
    idx_position = λ i. omega arith;
    no_line = λ e i. refl;
    wcnt_byte = omega arith;
    wmask_bound = λ f. omega arith;
    wmask_injective = λ f g e ne. absurd (ne refl);
  }

  -- A line with the same values and the head of `blank` is a copy.
  same-IsCopy :
      {l r : LogLine V}
      → IsValid l
      → IsValid r
      → ((f : FieldIndex) → value r f ≡ value l f)
      → r.metadata ≡ some (entries l.metadata)
      → r.field_separator ≡ l.field_separator
      → r.cache ≡ l.cache
      → IsCopy l r
  same-IsCopy {l} {r} v u e m s c = record {
    valid = u;
    fields = λ f b. (
      value l f,
      value r f,
      get-value f v (omega arith),
      get-value f u (omega arith),
      ap content (e f),
    );
    custom = λ f p q. get-value f u q ∙ ap ok (e f) ∙ sym (get-value f v q);
    metas = λ key.
        unfold meta in ap (λ (d : Metadata V). Record.get d key) m ∙ get-entries l.metadata key;
    separator = s;
    shared = c;
  }

  copy_unmodified :
      (l : LogLine V) (fuel : ℕ)
      → IsValid l
      → l.wcnt ≡ 0
      → (r : LogLine V) × (copy fuel l ≡ ok r) × IsCopy l r
  unfolding copy
  copy_unmodified l fuel v z = of_line l.line refl
    where
      of_line : (s : Slice) → l.line ≡ s → (r : LogLine V) × (copy fuel l ≡ ok r) × IsCopy l r
      of_line nil e = (
        blank l,
        rw (z, e) refl,
        same-IsCopy v (blank-IsValid l) (λ f. value-blank l f v z e) refl (blank-separator l) refl,
      )
      of_line (bytes t) e = (
        plain l,
        rw (z, e) refl,
        same-IsCopy v (plain-IsValid l v) (λ f. value-plain l f v z) refl (blank-separator l) refl,
      )

  -- `Copy` of a valid line with 254 modified fields at most, none of whose fields holds the separator
  -- and whose text is shorter than 2^31 bytes, returns a copy within 256 rounds.
  pub copy_total :
      (l : LogLine V) (fuel : ℕ)
      → IsValid l
      → IsClean l
      → l.wcnt < 255
      → 256 ≤ fuel
      → ((text : Bytes) → to_text fuel l [] ≡ ok text → length text < 2 ^ 31)
      → (r : LogLine V) × (copy fuel l ≡ ok r) × IsCopy l r
  copy_total l fuel v clean w h short = elim (Bool-cases (l.wcnt == 0)) [
    | inl e ↦ copy_unmodified l fuel v ((==_iff l.wcnt 0).0 e)
    | inr e ↦ copy_modified l fuel v clean (ground arith) w h short
  ]
