-- ===== src/LogLine/Parsed.antt =====
-- logline.go: the line that `Parse` makes of a text.
use mathlib.Core.Option.{none}
use baker.Common.{
  ℕ, zero, suc, ◌-◌, ◌≤◌, ◌<◌, ◌^◌, ◌≡◌, refl, sym, ap, ◌∙◌, arith, Bool-cases, ltb, ltb→lt,
  ltb-false, Bytes, List, [], ◌∷◌, inl, inr, ◌⊎◌, length, take, drop, get_or, ℤ, pos, negsuc,
  pos_part, int32-small, length-take, length-drop, take-take, take-nil, drop-take, get_or-take,
  get_or-of_le, ok,
}
use baker.Record.{content, len, Slice, nil, bytes, Metadata, FieldIndex}
use baker.LogLine.{LogLine, parse, Scanned, scan, update, prefix, get, empty}
use baker.LogLine.Invariant.{IsValid, get-value, between, after}
use baker.LogLine.Split.{split, stops, length-stops, stops-le, split-Pieces, segment, start}
use baker.LogLine.Separators.{
  write_stops, write_stops_below, write_stops_at, write_stops_above, scan-write_stops,
  stops-le-stop,
}

-- A line that nothing was parsed into and nothing set in.
pub record IsFresh {V : Type 0} (l : LogLine V) : Type 0 where
  pub idx_zero : (i : ℕ) → l.idx i ≡ pos 0
  pub wmask_zero : (f : FieldIndex) → l.wmask f ≡ 0
  pub no_line : l.line ≡ nil
  pub wcnt_zero : l.wcnt ≡ 0

pub empty-IsFresh : {V : Type 0} (sep : ℕ) → IsFresh (empty {V = V} sep)
unfolding empty
empty-IsFresh sep = record {
  idx_zero = λ i. refl;
  wmask_zero = λ f. refl;
  no_line = refl;
  wcnt_zero = refl;
}

pub empty-separator : (V : Type 0) (sep : ℕ) → (empty {V = V} sep).field_separator ≡ sep
unfolding empty
empty-separator V sep = refl

-- A field's bytes, as `Get` returns them: nil if there are none.
abbrev pub field : Bytes → Slice
field [] = nil
field (c ∷ cs) = bytes (c ∷ cs)

segment-take :
    (n lo hi : ℕ) (text : Bytes) → hi ≤ n → segment (take n text) lo hi ≡ segment text lo hi
segment-take n lo hi text h =
    rw (drop-take lo n text) (take-take (hi - lo) (n - lo) (drop lo text) (omega arith))

-- A segment that lies in the slice is what `Get` returns, nil if it is empty.
between-field :
    (s : Slice) (lo hi : ℕ) (p : Bytes)
    → hi ≤ len s
    → segment (content s) lo hi ≡ p
    → between s lo hi ≡ field p
between-field s lo hi [] h e =
    ground
      (arith, length-take (hi - lo) (drop lo (content s)), length-drop lo (content s), ap length e)
between-field s lo hi (c ∷ cs) h e = elim (Bool-cases (ltb lo hi)) [
  | inl p ↦ rw p (ap bytes e)
  | inr p ↦ absurd (
      omega (
        arith,
        length-take (hi - lo) (drop lo (content s)),
        ltb-false lo hi p,
        ap (length {A = ℕ}) e,
      ))
]

content-prefix : (s : Slice) (n : ℕ) → content (prefix s n) ≡ take n (content s)
unfolding prefix
content-prefix nil n = sym (take-nil n)
content-prefix (bytes b) n = refl

module _ {V : Type 0} (l : LogLine V) (text : Slice) (md : Metadata V) where
  abbrev from_zero : ℕ → ℤ
  from_zero = update l.idx 0 (negsuc 0)

  abbrev scanned : Scanned
  scanned = scan l.field_separator (content text) 0 1 from_zero

  abbrev text_stops : List ℕ
  text_stops = stops l.field_separator (content text) 0

  abbrev parsed : LogLine V
  parsed = record l {
    idx = write_stops from_zero 1 (take 3000 text_stops);
    line = prefix text scanned.stop;
    metadata = md;
  }

  parse-parsed : (parse l text md).1 ≡ none → (parse l text md).0 ≡ parsed
  unfolding parse
  parse-parsed h =
      ground (arith, scan-write_stops l.field_separator (content text) 0 1 from_zero (omega arith))

  length-split : length (split l.field_separator (content text)) ≡ length text_stops
  length-split = unfold split in sym (length-stops l.field_separator (content text) [] 0)

  module _ (fresh : IsFresh l) (short : len text < 2 ^ 31) where
    parsed-wmask : (f : FieldIndex) → parsed.wmask f ≡ 0
    parsed-wmask = fresh.wmask_zero

    idx_start : parsed.idx 0 ≡ negsuc 0
    unfolding update
    idx_start = write_stops_below from_zero 1 (take 3000 text_stops) 0 (omega arith)

    idx_stop :
        (k : ℕ)
        → k < 3000
        → k < length text_stops
        → parsed.idx (suc k) ≡ pos (get_or text_stops k 0)
    idx_stop k h m =
        write_stops_at from_zero 1 (take 3000 text_stops) k (suc k) (omega arith)
          (omega (arith, length-take 3000 text_stops))
        ∙ rw (get_or-take 3000 text_stops k 0 h) (
            int32-small (get_or text_stops k 0)
              (omega (arith, stops-le l.field_separator (content text) 0 k)))

    from_zero-suc : (k : ℕ) → from_zero (suc k) ≡ pos 0
    unfolding update
    from_zero-suc k = ground (arith, fresh.idx_zero (suc k))

    idx_rest : (k : ℕ) → (3000 ≤ k) ⊎ (length text_stops ≤ k) → parsed.idx (suc k) ≡ pos 0
    idx_rest k h =
        write_stops_above from_zero 1 (take 3000 text_stops) (suc k)
          (omega (arith, length-take 3000 text_stops))
        ∙ from_zero-suc k

    after-start :
        (k : ℕ) → k < 3000 → k < length text_stops → after (parsed.idx k) ≡ start 0 text_stops k
    after-start zero h m = ap after idx_start
    after-start (suc k) h m = ap after (idx_stop k (omega arith) (omega arith))

    stop-le-len :
        (k : ℕ) → k < 3000 → k < length text_stops → get_or text_stops k 0 ≤ len parsed.line
    stop-le-len k h m = rw content-prefix (
        omega (
          arith,
          length-take scanned.stop (content text),
          stops-le l.field_separator (content text) 0 k,
          stops-le-stop l.field_separator (content text) 0 1 from_zero k (omega arith) m,
        ))

    -- The bytes of the field that the indexes delimit.
    parsed-between :
        (k : ℕ)
        → k < 3000
        → between parsed.line (after (parsed.idx k)) (pos_part (parsed.idx (suc k)))
          ≡ field (get_or (split l.field_separator (content text)) k [])
    parsed-between k h = elim (Bool-cases (ltb k (length text_stops))) [
      | inr out ↦
          let past : length text_stops ≤ k = ltb-false k (length text_stops) out in
          rw
            (
              idx_rest k (inr past),
              get_or-of_le (split l.field_separator (content text)) k []
                  (omega (arith, length-split)),
            )
            (ground arith)
      | inl within ↦
          let m : k < length text_stops = ltb→lt k (length text_stops) within in
          rw (after-start k h m, idx_stop k h m)
            (between-field parsed.line (start 0 text_stops k) (get_or text_stops k 0)
              (get_or (split l.field_separator (content text)) k []) (stop-le-len k h m)
              (rw content-prefix (
                segment-take scanned.stop (start 0 text_stops k) (get_or text_stops k 0)
                  (content text)
                  (stops-le-stop l.field_separator (content text) 0 1 from_zero k (omega arith) m)
                ∙ (split-Pieces l.field_separator (content text)).at k m)))
    ]

    idx_cases :
        (i : ℕ)
        → (parsed.idx (suc i) ≡ pos 0)
          ⊎ ((parsed.idx (suc i) ≡ pos (get_or text_stops i 0))
              × (get_or text_stops i 0 ≤ len parsed.line))
    idx_cases i = elim (Bool-cases (ltb i 3000)) [
      | inr out ↦ inl (idx_rest i (inl (ltb-false i 3000 out)))
      | inl within ↦ elim (Bool-cases (ltb i (length text_stops))) [
        | inr past ↦ inl (idx_rest i (inr (ltb-false i (length text_stops) past)))
        | inl m ↦
            let h : i < 3000 = ltb→lt i 3000 within in
            let n : i < length text_stops = ltb→lt i (length text_stops) m in
            inr (idx_stop i h n, stop-le-len i h n)
      ]
    ]

    parsed-IsValid : IsValid parsed
    parsed-IsValid = record {
      idx_start = inr idx_start;
      idx_position = λ i. elim (idx_cases i) [ inl e ↦ rw e (omega arith) | inr p ↦ rw p.0 p.1 ];
      no_line = λ e i. elim (idx_cases i) [
        | inl z ↦ z
        | inr p ↦ p.0 ∙ ap pos (omega (arith, p.1, ap (λ (s : Slice). len s) e))
      ];
      wcnt_byte = omega (arith, fresh.wcnt_zero);
      wmask_bound = λ f. omega (arith, fresh.wmask_zero f);
      wmask_injective = λ f g e ne. absurd (ne (fresh.wmask_zero f));
    }

    module _ (accepted : (parse l text md).1 ≡ none) where
      -- A line that was parsed is valid.
      pub parse-IsValid : IsValid (parse l text md).0
      parse-IsValid = rw (parse-parsed accepted) parsed-IsValid

      -- `Get` on the parsed line returns the fields of the split text, nil for the empty ones.
      pub get-parse :
          (f : FieldIndex)
          → f < 3000
          → get (parse l text md).0 f
            ≡ ok (field (get_or (split l.field_separator (content text)) f []))
      get-parse f h = rw (parse-parsed accepted) (
          get-value f parsed-IsValid (omega arith)
          ∙ ap ok (ground (arith, parsed-wmask f, parsed-between f h)))

    module _ (accepted : (parse l text md).1 ≡ none) where
      pub parse_keeps :
          ((parse l text md).0.metadata ≡ md)
          × ((parse l text md).0.cache ≡ l.cache)
          × ((parse l text md).0.field_separator ≡ l.field_separator)
          × ((parse l text md).0.wcnt ≡ 0)
      parse_keeps = rw (parse-parsed accepted) (refl, refl, refl, fresh.wcnt_zero)

      pub get-parse_custom :
          (f : FieldIndex) → 3000 ≤ f → f < 3100 → get (parse l text md).0 f ≡ ok nil
      get-parse_custom f h b =
          rw (parse-parsed accepted)
            (get-value f parsed-IsValid b ∙ ap ok (ground (arith, parsed-wmask f)))
