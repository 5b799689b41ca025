-- ===== src/LogLine/RoundTrip.antt =====
-- logline.go: the text of `ToText`, given to `Parse`.
use mathlib.Core.Option.{none}
use baker.Common.{
  ℕ, zero, suc, ◌+◌, ◌-◌, ◌^◌, ◌≤◌, ◌<◌, ◌≡◌, ◌≢◌, refl, sym, ap, ◌∙◌, arith, false, not,
  Bool-cases, ◌==◌, if◌then◌else◌, leb, Bytes, [], inl, inr, length, get_or, pos, eqbℤ, eqbℤ_pos,
  ok, ok-injective, All, le→leb,
}
use native.Mathlib.Nat.{add-zero, zero-add}
use baker.Record.{content, len, Slice, nil, bytes, FieldIndex, Metadata}
use baker.LogLine.{log_line_num_fields, LogLine, get, is_nil, last_field, to_text, parse, empty}
use baker.LogLine.Invariant.{IsValid, value, get-value}
use baker.LogLine.Split.{join, split, HasNo, split-join}
use baker.LogLine.Accepts.{parse-error}
use baker.LogLine.Parsed.{IsFresh, empty-IsFresh, empty-separator, field, get-parse}
use baker.LogLine.Text.{texts, to_text-join, find_last_behind, last_field-lt}

module _ {V : Type 0} where
  length-texts : (l : LogLine V) (f n : ℕ) → length (texts l f n) ≡ suc n
  unfolding texts
  length-texts l f zero = refl
  length-texts l f (suc n) = omega (arith, length-texts l (suc f) n)

  get_or-texts :
      (l : LogLine V) (f n k : ℕ)
      → get_or (texts l f n) k [] ≡ (if leb k n then content (value l (f + k)) else [])
  unfolding texts
  get_or-texts l f zero zero = rw add-zero refl
  get_or-texts l f zero (suc k) = ground arith
  get_or-texts l f (suc n) zero = rw add-zero (ground arith)
  get_or-texts l f (suc n) (suc k) =
      let e : suc f + k ≡ f + suc k = omega arith in
      get_or-texts l (suc f) n k ∙ ground (arith, ap (λ g. content (value l g)) e)

  -- No field of the record's own format holds the separator.
  abbrev pub IsClean : LogLine V → Type 0
  IsClean l = (f : FieldIndex) → f < 3000 → HasNo l.field_separator (content (value l f))

  texts-HasNo :
      (l : LogLine V) (f n : ℕ)
      → IsClean l
      → f + n < 3000
      → All (HasNo l.field_separator) (texts l f n)
  unfolding texts
  texts-HasNo l f zero c h = (c f (omega arith), tt)
  texts-HasNo l f (suc n) c h = (c f (omega arith), texts-HasNo l (suc f) n c (omega arith))

  wmask_behind : (l : LogLine V) (f : FieldIndex) → last_field l < f → f < 3000 → l.wmask f ≡ 0
  unfolding last_field
  wmask_behind l f h b =
      ground (arith, find_last_behind (λ i. not (l.wmask i == 0)) (log_line_num_fields - 1) f)

  idx_behind :
      (l : LogLine V) (f : FieldIndex)
      → last_field l < f
      → f < 3000
      → is_nil l.line ≡ false
      → l.idx (suc f) ≡ pos 0
  unfolding last_field
  idx_behind l f h b e = ground (
    arith,
    find_last_behind (λ i. not (eqbℤ (l.idx i) (pos 0))) log_line_num_fields (suc f),
    eqbℤ_pos (l.idx (suc f)),
  )

  -- Behind the last field of the text every field is empty.
  value_behind :
      (l : LogLine V) (f : FieldIndex)
      → IsValid l
      → last_field l < f
      → f < 3000
      → content (value l f) ≡ []
  value_behind l f v h b =
      let m : l.wmask f ≡ 0 = wmask_behind l f h b in
      let e : l.idx (suc f) ≡ pos 0 = no_position l.line refl in ground arith
    where
      no_position : (s : Slice) → l.line ≡ s → l.idx (suc f) ≡ pos 0
      no_position nil e = v.no_line e f
      no_position (bytes t) e = idx_behind l f h b (ap is_nil e)

  split-texts :
      (l : LogLine V) (n : ℕ)
      → IsClean l
      → n < 3000
      → split l.field_separator (join l.field_separator (texts l 0 n)) ≡ texts l 0 n
  unfolding texts
  split-texts l zero c h =
      split-join l.field_separator (content (value l 0)) [] (texts-HasNo l 0 zero c (omega arith))
  split-texts l (suc n) c h =
      split-join l.field_separator (content (value l 0)) (texts l 1 n)
        (texts-HasNo l 0 (suc n) c (omega arith))

  get_or_last :
      (l : LogLine V) (f : FieldIndex)
      → IsValid l
      → f < 3000
      → get_or (texts l 0 (last_field l)) f [] ≡ content (value l f)
  get_or_last l f v h =
      get_or-texts l 0 (last_field l) f ∙ elim (Bool-cases (leb f (last_field l))) [
        | inl e ↦ rw (e, zero-add) refl
        | inr e ↦ rw e (sym (value_behind l f v (ground arith) h))
      ]

  module _ (l : LogLine V) (v : IsValid l) (clean : IsClean l) (fresh : LogLine V)
      (z : IsFresh fresh) (same : fresh.field_separator ≡ l.field_separator) (md : Metadata V) where
    abbrev pub written : Bytes
    written = join l.field_separator (texts l 0 (last_field l))

    split-written : split fresh.field_separator written ≡ texts l 0 (last_field l)
    split-written = rw same (split-texts l (last_field l) clean (last_field-lt l))

    pub written-accepted : (parse fresh (bytes written) md).1 ≡ none
    written-accepted =
        parse-error fresh (bytes written) md
        ∙ rw split-written (
            rw
              (le→leb (1 + length (texts l 0 (last_field l))) 3001
                (omega (arith, length-texts l 0 (last_field l), last_field-lt l)))
              refl)

    pub get-written :
        (f : FieldIndex)
        → f < 3000
        → len (bytes written) < 2 ^ 31
        → get (parse fresh (bytes written) md).0 f ≡ ok (field (content (value l f)))
    get-written f h short =
        get-parse fresh (bytes written) md z short written-accepted f h
        ∙ rw split-written (rw (get_or_last l f v h) refl)

-- What `Parse` makes of the bytes `text`, in an empty line, has the fields of `l`.
pub record IsReadBack {V : Type 0} (l : LogLine V) (md : Metadata V) (text : Bytes) : Type 0 where
  pub accepted : (parse (empty l.field_separator) (bytes text) md).1 ≡ none
  pub fields :
      (f : FieldIndex) (v : Slice)
      → f < 3000
      → get l f ≡ ok v
      → get (parse (empty l.field_separator) (bytes text) md).0 f ≡ ok (field (content v))

module _ {V : Type 0} where
  -- `ToText` of a valid line with 1 to 254 modified fields, none of whose fields holds the separator,
  -- returns within 256 rounds a text that, if it is shorter than 2^31 bytes, `Parse` accepts and
  -- reads back: every field below 3000 has the same bytes, with nil for no bytes.
  pub to_text-parse :
      (l : LogLine V) (fuel : ℕ) (md : Metadata V)
      → IsValid l
      → IsClean l
      → l.wcnt ≢ 0
      → l.wcnt < 255
      → 256 ≤ fuel
      → (text : Bytes) × (to_text fuel l [] ≡ ok text)
        × (length text < 2 ^ 31 → IsReadBack l md text)
  to_text-parse l fuel md v clean nz w h =
      let fresh = empty-IsFresh {V = V} l.field_separator in
      let same = empty-separator V l.field_separator in
      (
        written l v clean (empty l.field_separator) fresh same md,
        to_text-join l fuel [] v nz w h,
        λ short. record {
          accepted = written-accepted l v clean (empty l.field_separator) fresh same md;
          fields = λ f u b e.
              get-written l v clean (empty l.field_separator) fresh same md f b short
              ∙ ap (λ (t : Slice). ok (field (content t)))
                  (ok-injective (sym (get-value f v (omega arith)) ∙ e));
        },
      )
