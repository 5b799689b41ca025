-- ===== src/CompressedInput/Lines.antt =====
-- input/inpututils/compressedstream.go: texts that end with a newline, and their lines.
use mathlib.Core.Option.{some}
use baker.Common.{
  Bytes, List, [], ◌∷◌, ◌++◌, ℕ, zero, suc, ◌<◌, true, false, Bool-cases, length, length-append,
  length-drop, length-take, take-of_le, some-injective, take, drop, drop-append, append-nil, ◌==◌,
  ==_iff, ◌≡◌, refl, sym, ap, ◌∙◌, subst, inl, inr, arith,
}
use baker.SplitWriter.LineEnd.{line_end, line_end-le}
use baker.Topology.{next_line}
use baker.LogLine.Split.{split, split_from}
use baker.Topology.Lines.{lines, lines-next_line, next_line_newline, next_line_other}
use baker.CompressedInput.{count_newlines, read_bytes, last_byte}

-- It is empty, or its last byte is a newline.
abbrev pub EndsLine : Bytes → Type 0
EndsLine [] = Unit
EndsLine (c ∷ []) = c ≡ b'\n'
EndsLine (c ∷ d ∷ cs) = EndsLine (d ∷ cs)

-- A byte in front of the first line
abbrev push : ℕ → List Bytes → List Bytes
push c [] = (c ∷ []) ∷ []
push c (l ∷ ls) = (c ∷ l) ∷ ls

pub lines_nil : lines [] ≡ []
unfolding lines split split_from
lines_nil = refl

pub lines_newline : (c : ℕ) (cs : Bytes) → (c == b'\n') ≡ true → lines (c ∷ cs) ≡ [] ∷ lines cs
lines_newline c cs e = lines-next_line c cs ∙ ap (λ t. t.0 ∷ lines t.1) (next_line_newline c cs e)

pub lines_other : (c : ℕ) (cs : Bytes) → (c == b'\n') ≡ false → lines (c ∷ cs) ≡ push c (lines cs)
lines_other c cs e =
    lines-next_line c cs ∙ ap (λ t. t.0 ∷ lines t.1) (next_line_other c cs e) ∙ pushed cs
  where
    pushed : (s : Bytes) → (c ∷ (next_line s).0) ∷ lines (next_line s).1 ≡ push c (lines s)
    pushed [] = unfold next_line in rw lines_nil refl
    pushed (d ∷ s) = ap (push c) (sym (lines-next_line d s))

push-append : (c : ℕ) (ls ms : List Bytes) → 0 < length ls → push c (ls ++ ms) ≡ push c ls ++ ms
push-append c [] ms h = absurd (omega (arith, h))
push-append c (l ∷ ls) ms h = refl

length-push : (c : ℕ) (ls : List Bytes) → 0 < length ls → length (push c ls) ≡ length ls
length-push c [] h = absurd (omega (arith, h))
length-push c (l ∷ ls) h = refl

pub lines_pos : (c : ℕ) (cs : Bytes) → 0 < length (lines (c ∷ cs))
lines_pos c cs = omega (arith, ap length (lines-next_line c cs))

EndsLine-tail : (c : ℕ) (cs : Bytes) → EndsLine (c ∷ cs) → EndsLine cs
EndsLine-tail c [] h = tt
EndsLine-tail c (d ∷ cs) h = h

-- The lines of two texts, the first of which ends with a newline, are those of the one and of the other.
pub lines-append : (a b : Bytes) → EndsLine a → lines (a ++ b) ≡ lines a ++ lines b
lines-append [] b h = rw lines_nil refl
lines-append (c ∷ cs) b h = elim (Bool-cases (c == b'\n')) [
  | inl e ↦
      rw (lines_newline c (cs ++ b) e, lines_newline c cs e)
        (ap (◌∷◌ []) (lines-append cs b (EndsLine-tail c cs h)))
  | inr e ↦
      lines_other c (cs ++ b) e
      ∙ ap (push c) (lines-append cs b (EndsLine-tail c cs h))
      ∙ push-append c (lines cs) (lines b) (rest cs h e)
      ∙ ap (λ t. t ++ lines b) (sym (lines_other c cs e))
]
  where
    rest : (s : Bytes) → EndsLine (c ∷ s) → (c == b'\n') ≡ false → 0 < length (lines s)
    rest [] k e = ground (arith, k)
    rest (d ∷ s) k e = lines_pos d s

pub count_newlines-lines : (a : Bytes) → EndsLine a → count_newlines a ≡ length (lines a)
unfolding count_newlines
count_newlines-lines [] h = rw lines_nil refl
count_newlines-lines (c ∷ []) h =
    let e = (==_iff c b'\n').1 h in
    rw e (omega (arith, ap length (lines_newline c [] e), ap length lines_nil))
count_newlines-lines (c ∷ d ∷ cs) h = elim (Bool-cases (c == b'\n')) [
  | inl e ↦
      rw e (omega (arith, ap length (lines_newline c (d ∷ cs) e), count_newlines-lines (d ∷ cs) h))
  | inr e ↦ rw e (
      omega (
        arith,
        ap length (lines_other c (d ∷ cs) e),
        length-push c (lines (d ∷ cs)) (lines_pos d cs),
        count_newlines-lines (d ∷ cs) h,
      ))
]

pub EndsLine-append : (a b : Bytes) → EndsLine a → EndsLine b → EndsLine (a ++ b)
EndsLine-append [] b h k = k
EndsLine-append (c ∷ []) [] h k = h
EndsLine-append (c ∷ []) (d ∷ b) h k = k
EndsLine-append (c ∷ d ∷ cs) b h k = EndsLine-append (d ∷ cs) b h k

pub EndsLine-drop : (n : ℕ) (a : Bytes) → EndsLine a → EndsLine (drop n a)
EndsLine-drop zero a h = h
EndsLine-drop (suc n) [] h = tt
EndsLine-drop (suc n) (c ∷ cs) h = EndsLine-drop n cs (EndsLine-tail c cs h)

-- If nothing is behind the first bytes, they end as the text does.
pub EndsLine-take : (n : ℕ) (a : Bytes) → EndsLine a → length (drop n a) ≡ 0 → EndsLine (take n a)
EndsLine-take n a h e = subst EndsLine (sym (take-of_le n a (omega (arith, e, length-drop n a)))) h

pub last_byte-some : (a : Bytes) → 0 < length a → (c : ℕ) × (last_byte a ≡ some c)
last_byte-some [] h = absurd (omega (arith, h))
last_byte-some (c ∷ []) h = (c, refl)
last_byte-some (c ∷ d ∷ cs) h = last_byte-some (d ∷ cs) (omega arith)

pub last_byte-EndsLine :
    (a : Bytes) (c : ℕ) → last_byte a ≡ some c → (c == b'\n') ≡ true → EndsLine a
last_byte-EndsLine [] c h e = tt
last_byte-EndsLine (b ∷ []) c h e = some-injective h ∙ (==_iff c b'\n').0 e
last_byte-EndsLine (b ∷ d ∷ cs) c h e = last_byte-EndsLine (d ∷ cs) c h e

pub EndsLine-last_byte :
    (a : Bytes) (c : ℕ) → last_byte a ≡ some c → EndsLine a → (c == b'\n') ≡ true
EndsLine-last_byte [] c h e = cc
EndsLine-last_byte (b ∷ []) c h e = (==_iff c b'\n').1 (sym (some-injective h) ∙ e)
EndsLine-last_byte (b ∷ d ∷ cs) c h e = EndsLine-last_byte (d ∷ cs) c h e

-- What `read_bytes` finds: one line, and what is behind it.
pub record OneLine (text : Bytes) : Type 0 where
  pub line : Bytes
  pub rest : Bytes
  pub call : read_bytes text ≡ some (line, rest)
  pub joined : text ≡ line ++ rest
  pub ends : EndsLine line
  pub one : length (lines line) ≡ 1
  pub rest_ends : EndsLine rest

EndsLine-cons : (c : ℕ) (t : Bytes) → 0 < length t → EndsLine t → EndsLine (c ∷ t)
EndsLine-cons c [] h k = absurd (omega (arith, h))
EndsLine-cons c (d ∷ t) h k = k

lines_of_none : (t : Bytes) → 0 < length (lines t) → 0 < length t
lines_of_none [] h = omega (arith, h, ap length lines_nil)
lines_of_none (c ∷ t) h = omega arith

OneLine-newline : (c : ℕ) (cs : Bytes) → EndsLine (c ∷ cs) → (c == b'\n') ≡ true → OneLine (c ∷ cs)
unfolding read_bytes
OneLine-newline c cs h e = record {
  line = c ∷ [];
  rest = cs;
  call = rw e refl;
  joined = refl;
  ends = (==_iff c b'\n').0 e;
  one = omega (arith, ap length (lines_newline c [] e), ap length lines_nil);
  rest_ends = EndsLine-tail c cs h;
}

OneLine-other : (c : ℕ) (cs : Bytes) → (c == b'\n') ≡ false → OneLine cs → OneLine (c ∷ cs)
unfolding read_bytes
OneLine-other c cs e r =
    let some_line : 0 < length (lines r.line) = omega (arith, r.one) in
    record {
      line = c ∷ r.line;
      rest = r.rest;
      call = rw (e, r.call) refl;
      joined = ap (◌∷◌ c) r.joined;
      ends = EndsLine-cons c r.line (lines_of_none r.line some_line) r.ends;
      one = ap length (lines_other c r.line e) ∙ length-push c (lines r.line) some_line ∙ r.one;
      rest_ends = r.rest_ends;
    }

-- The search for a newline finds the end of the first line.
pub read_bytes-OneLine : (c : ℕ) (cs : Bytes) → EndsLine (c ∷ cs) → OneLine (c ∷ cs)
read_bytes-OneLine c [] h = OneLine-newline c [] h ((==_iff c b'\n').1 h)
read_bytes-OneLine c (d ∷ cs) h = elim (Bool-cases (c == b'\n')) [
  | inl e ↦ OneLine-newline c (d ∷ cs) h e
  | inr e ↦ OneLine-other c (d ∷ cs) e (read_bytes-OneLine d cs h)
]

line_end-drop : (a : Bytes) → line_end (drop (line_end a) a) ≡ 0
unfolding line_end
line_end-drop [] = refl
line_end-drop (c ∷ cs) = elim (Bool-cases (line_end cs == 0)) [
  | inl z ↦ elim (Bool-cases (c == b'\n')) [
    | inl e ↦ rw (z, e) ((==_iff _ 0).0 z)
    | inr e ↦ rw (z, e) (rw (z, e) refl)
  ]
  | inr z ↦ rw z (line_end-drop cs)
]

-- The end of the last line ends with a newline.
pub EndsLine-take-line_end : (a : Bytes) → EndsLine (take (line_end a) a)
unfolding line_end
EndsLine-take-line_end [] = tt
EndsLine-take-line_end (c ∷ cs) = elim (Bool-cases (line_end cs == 0)) [
  | inl z ↦ elim (Bool-cases (c == b'\n')) [
    | inl e ↦ rw (z, e) ((==_iff c b'\n').0 e)
    | inr e ↦ rw (z, e) tt
  ]
  | inr z ↦ rw z (
      EndsLine-cons c (take (line_end cs) cs)
        (ground (arith, z, line_end-le cs, length-take (line_end cs) cs))
        (EndsLine-take-line_end cs))
]

-- Bytes without a newline, in front of a line, make it longer.
lines_no_newline :
    (a l : Bytes)
    → line_end a ≡ 0
    → 0 < length (lines l)
    → length (lines (a ++ l)) ≡ length (lines l)
unfolding line_end
lines_no_newline [] l h k = refl
lines_no_newline (c ∷ cs) l h k =
    let e : (c == b'\n') ≡ false = ground (arith, h) in
    let z : line_end cs ≡ 0 = ground (arith, h) in
    let r = lines_no_newline cs l z k in
    ap length (lines_other c (cs ++ l) e)
    ∙ length-push c (lines (cs ++ l)) (omega (arith, r, k))
    ∙ r

-- So are those behind the last newline.
pub lines_last :
    (a l : Bytes) → length (lines l) ≡ 1 → length (lines (drop (line_end a) a ++ l)) ≡ 1
lines_last a l h = lines_no_newline (drop (line_end a) a) l (line_end-drop a) (omega (arith, h)) ∙ h

-- A text that ends with a line ends as the line does.
pub EndsLine-append_line : (a l : Bytes) → EndsLine l → length (lines l) ≡ 1 → EndsLine (a ++ l)
EndsLine-append_line [] l h k = h
EndsLine-append_line (c ∷ cs) l h k =
    EndsLine-cons c (cs ++ l)
      (omega (arith, lines_of_none l (omega (arith, k)), length-append cs l))
      (EndsLine-append_line cs l h k)

pub EndsLine-rest : (a b : Bytes) → EndsLine (a ++ b) → EndsLine b
EndsLine-rest a b h = subst EndsLine (drop-append a b) (EndsLine-drop (length a) (a ++ b) h)

-- A text whose last byte is no newline goes on where it ends with one.
pub EndsLine-more :
    (a b : Bytes) (c : ℕ)
    → last_byte a ≡ some c
    → (c == b'\n') ≡ false
    → EndsLine (a ++ b)
    → 0 < length b
EndsLine-more a [] c last e h =
    absurd (clash (sym e ∙ EndsLine-last_byte a c last (subst EndsLine (append-nil a) h)))
  where
    clash : false ≡ true → ⊥
    clash k = cc
EndsLine-more a (d ∷ b) c last e h = omega arith
