-- ===== src/SplitWriter/Parts.antt =====
-- pkg/splitwriter/split_writer.go: the parts that Close leaves.
use baker.Common.{
  Bytes, List, concat, [], ◌∷◌, append-nil, ℕ, zero, suc, ◌≤◌, ◌<◌, Result, ok, ◌>>=◌, true, false,
  take-drop, Bool-cases, if◌then◌else◌, length, length-take, length-drop, take, drop, take-take,
  ◌==◌, ==_iff, leb, leb→le, ◌≡◌, ◌≢◌, refl, sym, ap, ◌∙◌, ◌⊎◌, inl, inr, arith,
}
use baker.SplitWriter.{SplitWriter, find_split_point, do_split, split_parts, close}
use baker.SplitWriter.LineEnd.{line_end, line_end-le, line_end-take_self, find_split_point-line_end}

module _ (w : SplitWriter) where
  -- A part that another one follows: not empty, not above maxsize, and closed by a line feed.
  abbrev pub IsClosed : Bytes → Type 0
  IsClosed p = (0 < length p) × (length p ≤ w.maxsize) × (line_end p ≡ length p)

  -- The last part is not above maxsize, or cannot be split: there is no line feed within maxsize bytes.
  abbrev pub IsLast : Bytes → Type 0
  IsLast p = (length p ≤ w.maxsize) ⊎ (line_end (take w.maxsize p) ≡ 0)

  abbrev pub IsSplit : List Bytes → Type 0
  IsSplit [] = ⊥
  IsSplit (p ∷ []) = IsLast p
  IsSplit (p ∷ q ∷ ps) = IsClosed p × IsSplit (q ∷ ps)

  IsSplit-cons : (p : Bytes) (ps : List Bytes) → IsClosed p → IsSplit ps → IsSplit (p ∷ ps)
  IsSplit-cons p [] c h = absurd h
  IsSplit-cons p (q ∷ ps) c h = (c, h)

  short_of : (f : Bytes) → line_end (take w.maxsize f) ≤ w.maxsize
  short_of f = omega (arith, line_end-le (take w.maxsize f), length-take w.maxsize f)

  -- What is cut off at the end of the last line within maxsize bytes.
  IsClosed-take :
      (f : Bytes)
      → line_end (take w.maxsize f) ≢ 0
      → IsClosed (take (line_end (take w.maxsize f)) f)
  IsClosed-take f h =
      let off = line_end (take w.maxsize f) in
      let same : take off (take w.maxsize f) ≡ take off f =
        take-take off w.maxsize f (omega (arith, short_of f)) in
      let size : length (take off f) ≡ off =
        omega (arith, length-take off f, line_end-le (take w.maxsize f), length-take w.maxsize f) in
      (
        omega (arith, size),
        omega (arith, size, short_of f),
        ap line_end (sym same) ∙ line_end-take_self (take w.maxsize f) ∙ sym size,
      )

  -- The outcome of the loop of `Close`
  abbrev pub Splits : Bytes → Result (List Bytes) → Type 0
  Splits f r = (ps : List Bytes) × (r ≡ ok ps) × (concat ps ≡ f) × IsSplit ps

  split_parts-small :
      (fuel : ℕ) (f : Bytes)
      → leb (length f) w.maxsize ≡ true
      → split_parts w (suc fuel) f (length f) ≡ ok (f ∷ [])
  unfolding split_parts
  split_parts-small fuel f e = rw (split_parts, e) refl

  -- A round of the loop on a file that is too large.
  split_parts-large :
      (fuel off : ℕ) (f : Bytes)
      → leb (length f) w.maxsize ≡ false
      → find_split_point w f ≡ ok off
      → split_parts w (suc fuel) f (length f) ≡ (
          if off == 0
          then ok (f ∷ [])
          else split_parts w fuel (drop off f) (length (drop off f)) >>= λ ps. ok (take off f ∷ ps))
  unfolding do_split split_parts
  split_parts-large fuel off f e p = rw (length-drop off f) (rw (split_parts, e, p) refl)

  abbrev rest : Bytes → Bytes
  rest f = drop (line_end (take w.maxsize f)) f

  Splits-cut :
      (f : Bytes) (r : Result (List Bytes))
      → line_end (take w.maxsize f) ≢ 0
      → Splits (rest f) r
      → Splits f (r >>= λ ps. ok (take (line_end (take w.maxsize f)) f ∷ ps))
  unfolding concat
  Splits-cut f r z (ps, p, c, i) = (
    take (line_end (take w.maxsize f)) f ∷ ps,
    rw p refl,
    rw c (take-drop (line_end (take w.maxsize f)) f),
    IsSplit-cons _ ps (IsClosed-take f z) i,
  )

  Splits-large :
      (f : Bytes) (r : Result (List Bytes))
      → (line_end (take w.maxsize f) ≢ 0 → Splits (rest f) r)
      → Splits f (
          if line_end (take w.maxsize f) == 0
          then ok (f ∷ [])
          else r >>= λ ps. ok (take (line_end (take w.maxsize f)) f ∷ ps))
  unfolding concat
  Splits-large f r k = elim (Bool-cases (line_end (take w.maxsize f) == 0)) [
    | inl z ↦ (f ∷ [], rw z refl, append-nil f, inr ((==_iff (line_end (take w.maxsize f)) 0).0 z))
    | inr z ↦
        let n : line_end (take w.maxsize f) ≢ 0 = ground (arith, z) in rw z (Splits-cut f r n (k n))
  ]

  Splits-same : (f : Bytes) (r r' : Result (List Bytes)) → r ≡ r' → Splits f r' → Splits f r
  Splits-same f r r' p (ps, q, c, i) = (ps, p ∙ q, c, i)

  split_parts-Splits :
      (fuel : ℕ) (f : Bytes)
      → 0 < w.bufsize
      → w.bufsize ≤ w.maxsize
      → length f < fuel
      → Splits f (split_parts w fuel f (length f))
  split_parts-Splits zero f b h q = absurd (omega arith)
  split_parts-Splits (suc fuel) f b h q = elim (Bool-cases (leb (length f) w.maxsize)) [
    | inl e ↦ (
      f ∷ [],
      split_parts-small fuel f e,
      (unfold concat in append-nil f),
      inl (leb→le (length f) w.maxsize e),
    )
    | inr e ↦
        Splits-same f _ _
          (split_parts-large fuel (line_end (take w.maxsize f)) f e
            (find_split_point-line_end w f b h (ground (arith, e))))
          (Splits-large f (split_parts w fuel (rest f) (length (rest f))) (λ z.
            split_parts-Splits fuel (rest f) b h (
              omega (
                arith,
                z,
                length-drop (line_end (take w.maxsize f)) f,
                line_end-le (take w.maxsize f),
                length-take w.maxsize f,
              ))))
  ]

  -- Close of a file ends with parts that make up the file, one after the other. Each part but the last is
  -- not empty, has at most maxsize bytes and ends with a line feed; the last one has at most maxsize bytes
  -- or no line feed among its first maxsize bytes. The buffer is not empty and not above maxsize.
  pub close-Splits :
      (f : Bytes)
      → 0 < w.bufsize
      → w.bufsize ≤ w.maxsize
      → (ps : List Bytes) × (close w f ≡ ok ps) × (concat ps ≡ f) × IsSplit ps
  unfolding close
  close-Splits f b h = split_parts-Splits (suc (length f)) f b h (omega arith)
