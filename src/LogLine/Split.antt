-- ===== src/LogLine/Split.antt =====
-- What the separators of a text divide it into: the reference for `Parse` and `ToText`.
use baker.Common.{
  ℕ, zero, suc, ◌+◌, ◌-◌, ◌≤◌, ◌<◌, ◌≡◌, refl, sym, ap, ◌∙◌, arith, true, false, ==_iff, Bool-cases,
  ◌==◌, Bytes, List, [], ◌∷◌, ◌++◌, append_assoc, append-nil, length, length-append, take, drop,
  get_or, All, ◌≢◌, inl, inr, take-append, drop-append,
}

-- `bytes.Split(text, sep)` behind the bytes `cur` of a field that has begun.
unfoldable pub split_from : ℕ → Bytes → Bytes → List Bytes
split_from sep cur [] = cur ∷ []
split_from sep cur (c ∷ cs) = elim (c == sep) [
  | true ↦ cur ∷ split_from sep [] cs
  | false ↦ split_from sep (cur ++ c ∷ []) cs
]

unfoldable pub split : ℕ → Bytes → List Bytes
unfolding split_from
split sep text = split_from sep [] text

-- `bytes.Join(fields, sep)`
unfoldable pub join : ℕ → List Bytes → Bytes
join sep [] = []
join sep (f ∷ []) = f
join sep (f ∷ g ∷ fs) = f ++ sep ∷ join sep (g ∷ fs)

-- The positions at which fields end, in a text that begins at byte `i`.
unfoldable pub stops : ℕ → Bytes → ℕ → List ℕ
stops sep [] i = i ∷ []
stops sep (c ∷ cs) i = elim (c == sep) [
  | true ↦ i ∷ stops sep cs (suc i)
  | false ↦ stops sep cs (suc i)
]

-- One byte more, for `split_from` and `stops` kept shut.
module _ (sep c : ℕ) (cs : Bytes) where
  pub split_from-sep :
      (cur : Bytes) → (c == sep) ≡ true → split_from sep cur (c ∷ cs) ≡ cur ∷ split_from sep [] cs
  unfolding split_from
  split_from-sep cur e = ground arith

  pub split_from-other :
      (cur : Bytes)
      → (c == sep) ≡ false
      → split_from sep cur (c ∷ cs) ≡ split_from sep (cur ++ c ∷ []) cs
  unfolding split_from
  split_from-other cur e = ground arith

  pub stops-sep : (i : ℕ) → (c == sep) ≡ true → stops sep (c ∷ cs) i ≡ i ∷ stops sep cs (suc i)
  unfolding stops
  stops-sep i e = ground arith

  pub stops-other : (i : ℕ) → (c == sep) ≡ false → stops sep (c ∷ cs) i ≡ stops sep cs (suc i)
  unfolding stops
  stops-other i e = ground arith

pub length-stops :
    (sep : ℕ) (text cur : Bytes) (i : ℕ)
    → length (stops sep text i) ≡ length (split_from sep cur text)
length-stops sep [] cur i = unfold stops split_from in refl
length-stops sep (c ∷ cs) cur i = elim (Bool-cases (c == sep)) [
  | inl e ↦
      rw (stops-sep sep c cs i e, split_from-sep sep c cs cur e)
        (ap suc (length-stops sep cs [] (suc i)))
  | inr e ↦
      rw (stops-other sep c cs i e, split_from-other sep c cs cur e)
        (length-stops sep cs (cur ++ c ∷ []) (suc i))
]

-- Every stop lies before the end of the text or at it.
pub stops-le : (sep : ℕ) (text : Bytes) (i k : ℕ) → get_or (stops sep text i) k 0 ≤ i + length text
stops-le sep [] i zero = unfold stops in omega arith
stops-le sep [] i (suc k) = unfold stops in omega arith
stops-le sep (c ∷ cs) i zero = elim (Bool-cases (c == sep)) [
  | inl e ↦ rw (stops-sep sep c cs i e) (omega arith)
  | inr e ↦ rw (stops-other sep c cs i e) (omega (arith, stops-le sep cs (suc i) zero))
]
stops-le sep (c ∷ cs) i (suc k) = elim (Bool-cases (c == sep)) [
  | inl e ↦ rw (stops-sep sep c cs i e) (omega (arith, stops-le sep cs (suc i) k))
  | inr e ↦ rw (stops-other sep c cs i e) (omega (arith, stops-le sep cs (suc i) (suc k)))
]

-- No separator in a field.
abbrev pub HasNo : ℕ → Bytes → Type 0
HasNo sep = All (λ c. c ≢ sep)

pub split_from-HasNo :
    (sep : ℕ) (field rest cur : Bytes)
    → HasNo sep field
    → split_from sep cur (field ++ rest) ≡ split_from sep (cur ++ field) rest
split_from-HasNo sep [] rest cur h = rw append-nil
split_from-HasNo sep (c ∷ cs) rest cur h = elim (Bool-cases (c == sep)) [
  | inl e ↦ absurd (h.0 ((==_iff c sep).0 e))
  | inr e ↦
      split_from-other sep c (cs ++ rest) cur e
      ∙ split_from-HasNo sep cs rest (cur ++ c ∷ []) h.1
      ∙ rw append_assoc
]

-- `Split` takes back what `Join` made of fields without separators.
pub split-join :
    (sep : ℕ) (f : Bytes) (fs : List Bytes)
    → All (HasNo sep) (f ∷ fs)
    → split sep (join sep (f ∷ fs)) ≡ f ∷ fs
unfolding split join split_from
split-join sep f [] h =
    ap (split_from sep []) (sym (append-nil f)) ∙ split_from-HasNo sep f [] [] h.0
split-join sep f (g ∷ fs) h =
    split_from-HasNo sep f (sep ∷ join sep (g ∷ fs)) [] h.0
    ∙ split_from-sep sep sep (join sep (g ∷ fs)) f ((==_iff sep sep).1 refl)
    ∙ ap (◌∷◌ f) (split-join sep g fs h.1)

-- Where the field before stop `k` begins.
abbrev pub start : ℕ → List ℕ → ℕ → ℕ
start a st zero = a
start a st (suc k) = suc (get_or st k 0)

abbrev pub segment : Bytes → ℕ → ℕ → Bytes
segment text lo hi = take (hi - lo) (drop lo text)

segment-append :
    (pre cur rest : Bytes) (i : ℕ)
    → i ≡ length pre + length cur
    → segment (pre ++ (cur ++ rest)) (length pre) i ≡ cur
segment-append pre cur rest i e =
    let n : i - length pre ≡ length cur = omega arith in
    rw (n, drop-append pre (cur ++ rest)) (take-append cur rest)

-- The bytes of `text` between the stops `st`, the first field at byte `a`, are the fields `fs`.
pub record Pieces (text : Bytes) (a : ℕ) (st : List ℕ) (fs : List Bytes) : Type 0 where
  pub at : (k : ℕ) → k < length st → segment text (start a st k) (get_or st k 0) ≡ get_or fs k []

Pieces-cons :
    {text : Bytes} {a i : ℕ} {st : List ℕ} {f : Bytes} {fs : List Bytes}
    → segment text a i ≡ f
    → Pieces text (suc i) st fs
    → Pieces text a (i ∷ st) (f ∷ fs)
Pieces-cons {text} {a} {i} {st} {f} {fs} e t = record { at = piece }
  where
    piece :
        (k : ℕ)
        → k < suc (length st)
        → segment text (start a (i ∷ st) k) (get_or (i ∷ st) k 0) ≡ get_or (f ∷ fs) k []
    piece zero h = e
    piece (suc zero) h = t.at zero (omega arith)
    piece (suc (suc k)) h = t.at (suc k) (omega arith)

Pieces-nil : {text : Bytes} {a : ℕ} → Pieces text a [] []
Pieces-nil = record { at = λ k h. absurd (omega arith) }

pub split_from-Pieces :
    (sep : ℕ) (rest pre cur text : Bytes) (i : ℕ)
    → text ≡ pre ++ (cur ++ rest)
    → i ≡ length pre + length cur
    → Pieces text (length pre) (stops sep rest i) (split_from sep cur rest)
split_from-Pieces sep [] pre cur text i t e =
    unfold stops split_from in Pieces-cons (rw t (segment-append pre cur [] i e)) Pieces-nil
split_from-Pieces sep (c ∷ cs) pre cur text i t e = elim (Bool-cases (c == sep)) [
  | inl p ↦
      let n : suc i ≡ length (pre ++ (cur ++ c ∷ [])) =
        omega (arith, length-append {0} pre (cur ++ c ∷ []), length-append {0} cur (c ∷ [])) in
      rw (stops-sep sep c cs i p, split_from-sep sep c cs cur p)
        (Pieces-cons (rw t (segment-append pre cur (c ∷ cs) i e)) (
          rw n (
            split_from-Pieces sep cs (pre ++ (cur ++ c ∷ [])) [] text
              (length (pre ++ (cur ++ c ∷ []))) (t ∙ simp append_assoc) (omega arith))))
  | inr p ↦
      rw (stops-other sep c cs i p, split_from-other sep c cs cur p)
        (split_from-Pieces sep cs pre (cur ++ c ∷ []) text (suc i) (t ∙ simp append_assoc)
          (omega (arith, length-append {0} cur (c ∷ []))))
]

-- The bytes between the stops of a text are its fields.
pub split-Pieces : (sep : ℕ) (text : Bytes) → Pieces text 0 (stops sep text 0) (split sep text)
split-Pieces sep text = unfold split in split_from-Pieces sep text [] [] text 0 refl (omega arith)
