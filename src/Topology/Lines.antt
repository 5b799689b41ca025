-- ===== src/Topology/Lines.antt =====
-- topology.go: the lines of a chunk of text, and the loop over them.
use baker.Common.{
  Bytes, List, [], ◌∷◌, ◌++◌, ℕ, zero, suc, ◌+◌, ◌≤◌, ◌<◌, Result, ok, Returned, returned, ◌>>=◌,
  true, false, if◌then◌else◌, length, ◌==◌, ==_ne, Bool-cases, ◌≡◌, refl, sym, ap, fun_ext, ◌∙◌,
  arith, append-nil, append_assoc, inl, inr,
}
use baker.Record.{Metadata}
use baker.RecordType.{RecordType}
use baker.Filter.Interface.{FilterType}
use baker.LogLine.Split.{split, split_from, split_from-sep, split_from-other}
use baker.LogLine.Accepts.{split_from-pos}
use baker.Topology.{next_line, Settings, State, run_line, run_data, run_filter_chain}

-- Without an empty last element.
unfoldable pub trim : List Bytes → List Bytes
trim [] = []
trim (f ∷ []) = if length f == 0 then [] else f ∷ []
trim (f ∷ g ∷ fs) = f ∷ trim (g ∷ fs)

-- The lines of a text: what its newlines separate, with no empty one at the end.
unfoldable pub lines : Bytes → List Bytes
unfolding trim
lines text = trim (split b'\n' text)

trim-cons : (f : Bytes) (fs : List Bytes) → 0 < length fs → trim (f ∷ fs) ≡ f ∷ trim fs
unfolding trim
trim-cons f [] h = absurd (omega arith)
trim-cons f (g ∷ fs) h = refl

pub next_line_newline : (c : ℕ) (cs : Bytes) → (c == b'\n') ≡ true → next_line (c ∷ cs) ≡ ([], cs)
unfolding next_line
next_line_newline c cs e = rw e refl

pub next_line_other :
    (c : ℕ) (cs : Bytes)
    → (c == b'\n') ≡ false
    → next_line (c ∷ cs) ≡ (c ∷ (next_line cs).0, (next_line cs).1)
unfolding next_line
next_line_other c cs e = rw e refl

split_from-next_line :
    (text cur : Bytes)
    → 0 < length cur + length text
    → trim (split_from b'\n' cur text)
      ≡ (cur ++ (next_line text).0) ∷ trim (split b'\n' (next_line text).1)
split_from-next_line [] [] h = absurd (omega arith)
split_from-next_line [] (d ∷ cur) h =
    unfold next_line split split_from trim in
    rw (==_ne (suc (length cur)) 0 (omega arith)) (ap (λ t. (d ∷ t) ∷ []) (sym (append-nil cur)))
split_from-next_line (c ∷ cs) cur h = elim (Bool-cases (c == b'\n')) [
  | inl e ↦
      rw (split_from-sep b'\n' c cs cur e, next_line_newline c cs e)
        (trim-cons cur (split_from b'\n' [] cs) (split_from-pos b'\n' cs [])
          ∙ unfold split in ap (λ t. t ∷ trim (split_from b'\n' [] cs)) (sym (append-nil cur)))
  | inr e ↦
      rw (split_from-other b'\n' c cs cur e, next_line_other c cs e)
        (split_from-next_line cs (cur ++ c ∷ []) (omega (arith, grown cur c))
          ∙ ap (λ t. t ∷ trim (split b'\n' (next_line cs).1))
              (append_assoc cur (c ∷ []) (next_line cs).0))
]
  where
    grown : (s : Bytes) (d : ℕ) → 0 < length (s ++ d ∷ [])
    grown [] d = omega arith
    grown (x ∷ s) d = omega arith

-- A text that is not empty has its first line, and the lines of the rest.
pub lines-next_line :
    (c : ℕ) (cs : Bytes) → lines (c ∷ cs) ≡ (next_line (c ∷ cs)).0 ∷ lines (next_line (c ∷ cs)).1
lines-next_line c cs =
    unfold lines in (unfold split in split_from-next_line (c ∷ cs) [] (omega arith))

next_line-length : (text : Bytes) → length (next_line text).1 ≤ length text
next_line-length [] = unfold next_line in omega arith
next_line-length (c ∷ cs) = elim (Bool-cases (c == b'\n')) [
  | inl e ↦ rw (next_line_newline c cs e) (omega arith)
  | inr e ↦ rw (next_line_other c cs e) (omega (arith, next_line-length cs))
]

next_line_shorter : (c : ℕ) (cs : Bytes) → length (next_line (c ∷ cs)).1 ≤ length cs
next_line_shorter c cs = elim (Bool-cases (c == b'\n')) [
  | inl e ↦ rw (next_line_newline c cs e) (omega arith)
  | inr e ↦ rw (next_line_other c cs e) (next_line-length cs)
]

module _ {V : Type 0} (T : RecordType V) (P : FilterType T) (s : Settings T) where
  -- Each of the lines handled in turn.
  unfoldable pub run_lines : Metadata V → List Bytes → State T P s → Result (State T P s)
  run_lines md [] t = ok t
  run_lines md (line ∷ ls) t = do t' ← run_line T P s md line t; run_lines md ls t'

  pub run_lines-cons :
      (md : Metadata V) (line : Bytes) (ls : List Bytes) (t t' : State T P s)
      → run_lines md (line ∷ ls) t ≡ ok t'
      → Returned (run_line T P s md line t) (λ u. run_lines md ls u) t'
  unfolding run_lines
  run_lines-cons md line ls t t' h = returned (run_line T P s md line t) (λ u. run_lines md ls u) h

  -- With more rounds than bytes the loop over a chunk handles exactly the lines of its text, in order.
  pub run_data-lines :
      (fuel : ℕ) (md : Metadata V) (text : Bytes) (t : State T P s)
      → length text < fuel
      → run_data T P s fuel md text t ≡ run_lines md (lines text) t
  unfolding run_data run_lines
  run_data-lines zero md text t h = absurd (omega arith)
  run_data-lines (suc fuel) md [] t h = unfold lines split split_from in refl
  run_data-lines (suc fuel) md (c ∷ cs) t h =
      rw (==_ne (suc (length cs)) 0 (omega arith), lines-next_line c cs)
        (ap (λ k. run_line T P s md (next_line (c ∷ cs)).0 t >>= k)
          (fun_ext λ t'.
            run_data-lines fuel md (next_line (c ∷ cs)).1 t'
              (omega (arith, next_line_shorter c cs))))

  -- The lines of each chunk handled in turn.
  unfoldable pub run_chunks : List (Bytes × Metadata V) → State T P s → Result (State T P s)
  unfolding run_lines
  run_chunks [] t = ok t
  run_chunks ((text, md) ∷ chunks) t = do t' ← run_lines md (lines text) t; run_chunks chunks t'

  pub run_chunks-cons :
      (text : Bytes) (md : Metadata V) (cs : List (Bytes × Metadata V)) (t t' : State T P s)
      → run_chunks ((text, md) ∷ cs) t ≡ ok t'
      → Returned (run_lines md (lines text) t) (λ u. run_chunks cs u) t'
  unfolding run_chunks
  run_chunks-cons text md cs t t' h =
      returned (run_lines md (lines text) t) (λ u. run_chunks cs u) h

  -- The whole loop over the input's chunks handles exactly the lines of their texts, in order: its
  -- rounds always suffice.
  pub run_filter_chain-lines :
      (chunks : List (Bytes × Metadata V)) (t : State T P s)
      → run_filter_chain T P s chunks t ≡ run_chunks chunks t
  unfolding run_filter_chain run_chunks
  run_filter_chain-lines [] t = refl
  run_filter_chain-lines ((text, md) ∷ chunks) t =
      rw (run_data-lines (suc (length text)) md text t (omega arith)) (
        ap (λ k. run_lines md (lines text) t >>= k)
          (fun_ext λ t'. run_filter_chain-lines chunks t'))
