-- ===== src/LogLine/Clean.antt =====
-- logline.go: the lines whose fields hold no separator.
use mathlib.Core.Option.{none}
use baker.Common.{
  ℕ, zero, suc, ◌<◌, ◌^◌, ◌≡◌, ◌≢◌, refl, sym, ◌∙◌, arith, Bool-cases, ◌==◌, Bytes, List, [], ◌∷◌,
  ◌++◌, inl, inr, get_or, ok, ok-injective, All, All-append,
}
use baker.Record.{content, len, Slice, FieldIndex, Metadata}
use baker.LogLine.{LogLine, set, parse}
use baker.LogLine.Invariant.{IsValid, value, get-value}
use baker.LogLine.Fields.{set-IsValid, get-set}
use baker.LogLine.Split.{split, split_from, split_from-sep, split_from-other, HasNo}
use baker.LogLine.Parsed.{IsFresh, field, get-parse, parse-IsValid, parse_keeps}
use baker.LogLine.Copy.Custom.{set-Keeps, content-field}
use baker.LogLine.RoundTrip.{IsClean}

split_from-All :
    (sep : ℕ) (text cur : Bytes) → HasNo sep cur → All (HasNo sep) (split_from sep cur text)
split_from-All sep [] cur h = unfold split_from in (h, tt)
split_from-All sep (c ∷ cs) cur h = elim (Bool-cases (c == sep)) [
  | inl e ↦ rw (split_from-sep sep c cs cur e) (h, split_from-All sep cs [] tt)
  | inr e ↦ rw (split_from-other sep c cs cur e) (
      split_from-All sep cs (cur ++ c ∷ [])
        (All-append (λ x. x ≢ sep) cur (c ∷ []) h ((λ p. ground arith), tt)))
]

All-get_or : (sep : ℕ) (fs : List Bytes) (k : ℕ) → All (HasNo sep) fs → HasNo sep (get_or fs k [])
All-get_or sep [] k h = tt
All-get_or sep (f ∷ fs) zero h = h.0
All-get_or sep (f ∷ fs) (suc k) h = All-get_or sep fs k h.1

module _ {V : Type 0} where
  -- A line that `Parse` made of a text shorter than 2^31 bytes holds the separator in no field.
  pub parse-IsClean :
      (l : LogLine V) (text : Slice) (md : Metadata V)
      → IsFresh l
      → len text < 2 ^ 31
      → (parse l text md).1 ≡ none
      → IsClean (parse l text md).0
  parse-IsClean l text md fresh short accepted f h =
      let v = parse-IsValid l text md fresh short accepted in
      let piece : Bytes = get_or (split l.field_separator (content text)) f [] in
      let e : value (parse l text md).0 f ≡ field piece =
        ok-injective
          (sym (get-value f v (omega arith)) ∙ get-parse l text md fresh short accepted f h) in
      rw (e, content-field piece, (parse_keeps l text md fresh short accepted).2)
        (All-get_or l.field_separator (split l.field_separator (content text)) f
          (unfold split in split_from-All l.field_separator (content text) [] tt))

  -- `Set` of a value without the separator keeps that.
  pub set-IsClean :
      (l : LogLine V) (f : FieldIndex) (v : Slice) {l' : LogLine V}
      → IsValid l
      → IsClean l
      → HasNo l.field_separator (content v)
      → set l f v ≡ ok l'
      → IsClean l'
  set-IsClean l f v {l'} valid clean c e g h =
      let valid' = set-IsValid l f v valid e in
      rw ((set-Keeps l f v valid e).field_separator) (elim (Bool-cases (f == g)) [
        | inl p ↦
            let same : value l' g ≡ v =
              ok-injective
                (sym (get-value g valid' (omega arith)) ∙ get-set l f g v valid e ∙ rw p refl) in
            rw same c
        | inr p ↦
            let same : value l' g ≡ value l g = ok-injective (
              sym (get-value g valid' (omega arith))
              ∙ get-set l f g v valid e
              ∙ rw p (get-value g valid (omega arith))) in
            rw same (clean g h)
      ])
