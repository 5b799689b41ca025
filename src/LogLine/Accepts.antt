-- ===== src/LogLine/Accepts.antt =====
-- logline.go: which texts `Parse` rejects.
use mathlib.Core.Option.{none, some}
use baker.Common.{
  ℕ, suc, ◌+◌, ◌≤◌, ◌<◌, ◌≡◌, refl, sym, ap, ◌∙◌, arith, Bool, not, ◌&&◌, ◌||◌, Bool-cases, ◌==◌,
  if◌then◌else◌, leb, ltb, Bytes, List, [], ◌∷◌, ◌++◌, inl, inr, length, append-nil, append_assoc,
  ℤ, int32, negsuc, too_many_fields,
}
use baker.Record.{content, Slice, Metadata}
use baker.LogLine.{log_line_num_fields, LogLine, parse, scan, update}
use baker.LogLine.Split.{split, split_from, split_from-sep, split_from-other}
use baker.LogLine.Separators.{scan-other, scan_room, scan_full}

-- The last of the fields.
unfoldable pub last : List Bytes → Bytes
last [] = []
last (f ∷ []) = f
last (f ∷ g ∷ fs) = last (g ∷ fs)

-- At most 3000 fields, or an empty one more behind a final separator; the first has index `fc` - 1.
abbrev pub fits_from : ℕ → List Bytes → Bool
fits_from fc fs =
    leb (fc + length fs) (log_line_num_fields + 1)
    || (fc + length fs == log_line_num_fields + 2 && length (last fs) == 0)

abbrev pub fits : List Bytes → Bool
fits = fits_from 1

pub split_from-pos : (sep : ℕ) (text cur : Bytes) → 0 < length (split_from sep cur text)
split_from-pos sep [] cur = unfold split_from in omega arith
split_from-pos sep (c ∷ cs) cur = elim (Bool-cases (c == sep)) [
  | inl e ↦ rw (split_from-sep sep c cs cur e) (omega arith)
  | inr e ↦ rw (split_from-other sep c cs cur e) (split_from-pos sep cs (cur ++ c ∷ []))
]

last-cons : (f : Bytes) (fs : List Bytes) → 0 < length fs → last (f ∷ fs) ≡ last fs
unfolding last
last-cons f [] h = absurd (omega arith)
last-cons f (g ∷ fs) h = refl

-- A text with no separator is one field.
last_single :
    (sep : ℕ) (text cur : Bytes)
    → length (split_from sep cur text) ≡ 1
    → last (split_from sep cur text) ≡ cur ++ text
last_single sep [] cur h = unfold split_from last in sym (append-nil cur)
last_single sep (c ∷ cs) cur h = elim (Bool-cases (c == sep)) [
  | inl e ↦
      absurd (omega (arith, split_from-pos sep cs [], rw (split_from-sep sep c cs cur e) at h))
  | inr e ↦ rw (split_from-other sep c cs cur e) (
      last_single sep cs (cur ++ c ∷ []) (rw (split_from-other sep c cs cur e) at h)
      ∙ append_assoc cur (c ∷ []) cs)
]

fits_from-cons :
    (fc : ℕ) (f : Bytes) (fs : List Bytes)
    → 0 < length fs
    → fits_from fc (f ∷ fs) ≡ fits_from (suc fc) fs
fits_from-cons fc f fs h = rw (last-cons f fs h) (ground arith)

-- At the last index the rest of the text must be empty.
fits_from_full :
    (sep : ℕ) (cs cur : Bytes) → fits_from 3000 (cur ∷ split_from sep [] cs) ≡ (length cs == 0)
fits_from_full sep [] cur = unfold split_from last in refl
fits_from_full sep (c ∷ cs) cur =
    rw (last-cons cur (split_from sep [] (c ∷ cs)) (split_from-pos sep (c ∷ cs) [])) (
      ground (
        arith,
        split_from-pos sep (c ∷ cs) [],
        λ (e : length (split_from sep [] (c ∷ cs)) ≡ 1). ap length (last_single sep (c ∷ cs) [] e),
      ))

pub scan-failed :
    (sep : ℕ) (text cur : Bytes) (i fc : ℕ) (idx : ℕ → ℤ)
    → fc ≤ 3000
    → (scan sep text i fc idx).failed ≡ not (fits_from fc (split_from sep cur text))
scan-failed sep [] cur i fc idx h = unfold scan split_from in ground arith
scan-failed sep (c ∷ cs) cur i fc idx h = elim (Bool-cases (c == sep)) [
  | inr e ↦
      rw (scan-other sep c cs i fc idx e, split_from-other sep c cs cur e)
        (scan-failed sep cs (cur ++ c ∷ []) (suc i) fc idx h)
  | inl e ↦ elim (Bool-cases (ltb fc 3000)) [
    | inl r ↦
        rw
          (
            scan_room sep c cs i fc idx e (ground arith),
            split_from-sep sep c cs cur e,
            fits_from-cons fc cur (split_from sep [] cs) (split_from-pos sep cs []),
          )
          (scan-failed sep cs [] (suc i) (suc fc) (update idx fc (int32 i)) (ground arith))
    | inr r ↦
        let full : fc ≡ 3000 = ground arith in
        rw
          (
            scan_full sep c cs i fc idx e (ground arith),
            split_from-sep sep c cs cur e,
            full,
            fits_from_full sep cs cur,
          )
          refl
  ]
]

module _ {V : Type 0} where
  -- `Parse` returns an error exactly for the texts that hold more fields than a line takes.
  pub parse-error :
      (l : LogLine V) (text : Slice) (md : Metadata V)
      → (parse l text md).1
        ≡ (if fits (split l.field_separator (content text)) then none else some too_many_fields)
  unfolding parse split
  parse-error l text md = ground (
    arith,
    scan-failed l.field_separator (content text) [] 0 1 (update l.idx 0 (negsuc 0)) (omega arith),
  )
