-- ===== src/SplitWriter/LineEnd.antt =====
-- pkg/splitwriter/split_writer.go: the split point of findSplitPoint.
use mathlib.Core.Option.{none, some}
use baker.Common.{
  Bytes, [], ◌∷◌, ◌++◌, ℕ, zero, suc, ◌+◌, ◌-◌, ◌≤◌, ◌<◌, Result, ok, Bool-cases, if◌then◌else◌,
  length, length-take, length-drop, take, drop, take-take, take-nil, ◌==◌, ==_iff, ==_ne, le→leb,
  ◌≡◌, ◌≢◌, refl, sym, ap, ◌∙◌, ◌⊎◌, inl, inr, arith,
}
use baker.SplitWriter.{
  SplitWriter, index_line_feed, last_line_feed, read_at, search_back, find_split_point,
}

-- The number of bytes up to the last line feed, and with it.
unfoldable pub line_end : Bytes → ℕ
line_end [] = 0
line_end (c ∷ cs) =
    let rest = line_end cs in if rest == 0 then (if c == b'\n' then 1 else 0) else suc rest

pub line_end-le : (s : Bytes) → line_end s ≤ length s
unfolding line_end
line_end-le [] = omega arith
line_end-le (c ∷ cs) = ground (arith, line_end-le cs)

line_end-append :
    (s t : Bytes)
    → line_end (s ++ t) ≡ (if line_end t == 0 then line_end s else length s + line_end t)
unfolding line_end
line_end-append [] t = ground arith
line_end-append (c ∷ cs) t = ground (arith, line_end-append cs t)

pub line_end-take_self : (s : Bytes) → line_end (take (line_end s) s) ≡ line_end s
line_end-take_self [] = unfold line_end in refl
line_end-take_self (c ∷ cs) = at (line_end (c ∷ cs)) refl (line_end-take_self cs)
  where
    at :
        (n : ℕ)
        → n ≡ line_end (c ∷ cs)
        → line_end (take (line_end cs) cs) ≡ line_end cs
        → line_end (take n (c ∷ cs)) ≡ n
    at zero e ih = unfold line_end in refl
    at (suc zero) e ih = unfold line_end in ground arith
    at (suc (suc k)) e ih =
        let q : suc k ≡ line_end cs = unfold line_end in ground arith in
        let r : line_end (take (suc k) cs) ≡ suc k = rw q ih in unfold line_end in ground arith

line_end-take_zero : (n : ℕ) (s : Bytes) → line_end s ≡ 0 → line_end (take n s) ≡ 0
unfolding line_end
line_end-take_zero zero s h = refl
line_end-take_zero (suc n) [] h = refl
line_end-take_zero (suc n) (c ∷ cs) h = ground (arith, line_end-take_zero n cs)

take-add : (m n : ℕ) (s : Bytes) → take (m + n) s ≡ take m s ++ take n (drop m s)
take-add zero n s = ap (λ k. take k s) {y = n} (omega arith)
take-add (suc m) n [] = ap (λ k. take k []) {y = suc (m + n)} (omega arith) ∙ sym (take-nil n)
take-add (suc m) n (c ∷ cs) =
    ap (λ k. take k (c ∷ cs)) {y = suc (m + n)} (omega arith) ∙ ap (λ t. c ∷ t) (take-add m n cs)

-- The first line feed is all there is to the left of the rest.
index_line_feed-line_end :
    (s : Bytes)
    → ((index_line_feed s ≡ none) × (line_end s ≡ 0))
      ⊎ ((k : ℕ) × (index_line_feed s ≡ some k)
          × (k < length s)
          × (line_end s ≡ suc k + line_end (drop (suc k) s)))
unfolding index_line_feed line_end
index_line_feed-line_end [] = inl (refl, refl)
index_line_feed-line_end (c ∷ cs) = elim (Bool-cases (c == b'\n')) [
  | inl e ↦ inr (0, rw e refl, omega arith, ground arith)
  | inr e ↦ elim (index_line_feed-line_end cs) [
    | inl h ↦ inl (rw (e, h.0) refl, ground (arith, h.1))
    | inr (k, i, l, m) ↦ inr (suc k, rw (e, i) refl, omega (arith, l), ground (arith, m))
  ]
]

last_line_feed-none :
    (fuel : ℕ) (s : Bytes) (past : ℕ)
    → index_line_feed s ≡ none
    → last_line_feed (suc fuel) s past ≡ ok past
unfolding last_line_feed
last_line_feed-none fuel s past p = rw (last_line_feed, p) refl

last_line_feed-some :
    (fuel : ℕ) (s : Bytes) (past k : ℕ)
    → index_line_feed s ≡ some k
    → last_line_feed (suc fuel) s past ≡ last_line_feed fuel (drop (suc k) s) (past + suc k)
unfolding last_line_feed
last_line_feed-some fuel s past k p = rw (last_line_feed, p) refl

last_line_feed-line_end :
    (fuel : ℕ) (s : Bytes) (past : ℕ)
    → length s < fuel
    → last_line_feed fuel s past ≡ ok (past + line_end s)
last_line_feed-line_end zero s past h = absurd (omega arith)
last_line_feed-line_end (suc fuel) s past h = elim (index_line_feed-line_end s) [
  | inl (p, q) ↦ last_line_feed-none fuel s past p ∙ ap ok (omega (arith, q))
  | inr (k, i, l, m) ↦
      last_line_feed-some fuel s past k i
      ∙ last_line_feed-line_end fuel (drop (suc k) s) (past + suc k)
          (omega (arith, length-drop (suc k) s, l))
      ∙ ap ok (omega (arith, m))
]

last_line_feed_whole : (s : Bytes) → last_line_feed (suc (length s)) s 0 ≡ ok (line_end s)
last_line_feed_whole s =
    last_line_feed-line_end (suc (length s)) s 0 (omega arith) ∙ ap ok (omega arith)

-- With no line feed behind the first `m` bytes, the last of `n` bytes is among them.
line_end-take :
    (m n : ℕ) (s : Bytes)
    → m ≤ n
    → line_end (take (n - m) (drop m s)) ≡ 0
    → line_end (take n s) ≡ line_end (take m s)
line_end-take m n s h z =
    ap (λ k. line_end (take k s)) {y = m + (n - m)} (omega arith)
    ∙ ap line_end (take-add m (n - m) s)
    ∙ line_end-append (take m s) (take (n - m) (drop m s))
    ∙ rw z refl

-- With no line feed in the `b` bytes from `cur` on, it does not matter how many of them are looked at.
line_end-take_within :
    (cur b m : ℕ) (f : Bytes)
    → cur ≤ m
    → m ≤ cur + b
    → line_end (take b (drop cur f)) ≡ 0
    → line_end (take m f) ≡ line_end (take cur f)
line_end-take_within cur b m f h q z = line_end-take cur m f h (
    ap line_end (sym (take-take (m - cur) b (drop cur f) (omega arith)))
    ∙ line_end-take_zero (m - cur) (take b (drop cur f)) z)

line_end-take_in :
    (cur b : ℕ) (f : Bytes)
    → cur ≤ length f
    → line_end (take b (drop cur f)) ≢ 0
    → line_end (take (cur + b) f) ≡ cur + line_end (take b (drop cur f))
line_end-take_in cur b f h z =
    ap line_end (take-add cur b f)
    ∙ line_end-append (take cur f) (take b (drop cur f))
    ∙ rw (==_ne (line_end (take b (drop cur f))) 0 z) (omega (arith, length-take cur f))

module _ (w : SplitWriter) where
  search_back-step :
      (fuel : ℕ) (f : Bytes) (cur : ℕ)
      → cur + w.bufsize ≤ length f
      → search_back w (suc fuel) f cur ≡ (
          let past = line_end (take w.bufsize (drop cur f)) in
          if past == 0
          then (if cur == 0 then ok 0 else search_back w fuel f (cur - w.bufsize))
          else ok (cur + past))
  unfolding search_back read_at
  search_back-step fuel f cur h =
      let buf : Bytes = take w.bufsize (drop cur f) in
      rw (le→leb (cur + w.bufsize) (length f) h, last_line_feed_whole buf) refl

  -- Reading on from further left, or from the start, is reading all from there.
  search_back-next :
      (r : Result ℕ) (f : Bytes) (cur : ℕ)
      → 0 < w.bufsize
      → line_end (take w.bufsize (drop cur f)) ≡ 0
      → (0 < cur → r ≡ ok (line_end (take (cur - w.bufsize + w.bufsize) f)))
      → (if cur == 0 then ok 0 else r) ≡ ok (line_end (take (cur + w.bufsize) f))
  search_back-next r f cur b z e =
      let all =
        line_end-take_within cur w.bufsize (cur + w.bufsize) f (omega arith) (omega arith) z in
      let less =
        line_end-take_within cur w.bufsize (cur - w.bufsize + w.bufsize) f (omega arith)
          (omega arith) z in
      elim (Bool-cases (cur == 0)) [
        | inl d ↦ rw d (
            ap ok
              (omega (arith, (==_iff cur 0).0 d, all, line_end-le (take cur f), length-take cur f)))
        | inr d ↦ rw d (e (ground (arith, d)) ∙ ap ok (less ∙ sym all))
      ]

  search_back_found :
      (r : Result ℕ) (f : Bytes) (cur : ℕ)
      → cur ≤ length f
      → (line_end (take w.bufsize (drop cur f)) ≡ 0 → r ≡ ok (line_end (take (cur + w.bufsize) f)))
      → (let past = line_end (take w.bufsize (drop cur f)) in
          if past == 0 then r else ok (cur + past))
        ≡ ok (line_end (take (cur + w.bufsize) f))
  search_back_found r f cur h e = elim (Bool-cases (line_end (take w.bufsize (drop cur f)) == 0)) [
    | inl z ↦ rw z (e ((==_iff (line_end (take w.bufsize (drop cur f))) 0).0 z))
    | inr z ↦ rw z (ap ok (sym (line_end-take_in cur w.bufsize f h (ground (arith, z)))))
  ]

  search_back-line_end :
      (fuel : ℕ) (f : Bytes) (cur : ℕ)
      → 0 < w.bufsize
      → cur + w.bufsize ≤ length f
      → cur < fuel
      → search_back w fuel f cur ≡ ok (line_end (take (cur + w.bufsize) f))
  search_back-line_end zero f cur b h q = absurd (omega arith)
  search_back-line_end (suc fuel) f cur b h q =
      search_back-step fuel f cur h
      ∙ search_back_found (if cur == 0 then ok 0 else search_back w fuel f (cur - w.bufsize)) f cur
          (omega arith)
          (λ z.
            search_back-next (search_back w fuel f (cur - w.bufsize)) f cur b z
              (λ p. search_back-line_end fuel f (cur - w.bufsize) b (omega arith) (omega arith)))

  -- The split point of a file that is too large is the end of the last line within the first maxsize
  -- bytes, or 0 if they hold no line feed: the search ends, for a buffer that is not empty and not above
  -- maxsize.
  pub find_split_point-line_end :
      (f : Bytes)
      → 0 < w.bufsize
      → w.bufsize ≤ w.maxsize
      → w.maxsize ≤ length f
      → find_split_point w f ≡ ok (line_end (take w.maxsize f))
  unfolding find_split_point
  find_split_point-line_end f b h q =
      search_back-line_end (suc w.maxsize) f (w.maxsize - w.bufsize) b (omega arith) (omega arith)
      ∙ ap (λ n. ok (line_end (take n f))) {y = w.maxsize} (omega arith)
