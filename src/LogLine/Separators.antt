-- ===== src/LogLine/Separators.antt =====
-- logline.go: the loop of `Parse`, against the stops of the text.
use baker.Common.{
  ℕ, zero, suc, ◌+◌, ◌-◌, ◌≤◌, ◌<◌, ◌≡◌, refl, arith, true, false, not, ◌||◌, Bool-cases, ◌==◌, ltb,
  Bytes, List, [], ◌∷◌, inl, inr, length, take, take-nil, get_or, ℤ, int32,
}
use baker.LogLine.{log_line_num_fields, Scanned, scan, update}
use baker.LogLine.Split.{stops, stops-sep, stops-other}

-- One byte more, for `scan` kept shut.
module _ (sep c : ℕ) (cs : Bytes) (i fc : ℕ) (idx : ℕ → ℤ) where
  pub scan-other : (c == sep) ≡ false → scan sep (c ∷ cs) i fc idx ≡ scan sep cs (suc i) fc idx
  unfolding scan
  scan-other e = ground arith

  pub scan_room :
      (c == sep) ≡ true
      → fc < 3000
      → scan sep (c ∷ cs) i fc idx ≡ scan sep cs (suc i) (suc fc) (update idx fc (int32 i))
  unfolding scan
  scan_room e h = ground arith

  pub scan_full :
      (c == sep) ≡ true
      → 3000 ≤ fc
      → scan sep (c ∷ cs) i fc idx ≡ record {
        idx = idx;
        fc = fc;
        stop = i;
        failed = ltb log_line_num_fields fc || not (length cs == 0);
      }
  unfolding scan
  scan_full e h = ground arith

-- The positions `st` written from index `fc` on.
unfoldable pub write_stops : (ℕ → ℤ) → ℕ → List ℕ → ℕ → ℤ
write_stops idx fc [] = idx
write_stops idx fc (p ∷ ps) = write_stops (update idx fc (int32 p)) (suc fc) ps

pub write_stops_below :
    (idx : ℕ → ℤ) (fc : ℕ) (st : List ℕ) (j : ℕ) → j < fc → write_stops idx fc st j ≡ idx j
unfolding write_stops update
write_stops_below idx fc [] j h = refl
write_stops_below idx fc (p ∷ ps) j h =
    ground (arith, write_stops_below (update idx fc (int32 p)) (suc fc) ps j)

pub write_stops_at :
    (idx : ℕ → ℤ) (fc : ℕ) (st : List ℕ) (k j : ℕ)
    → j ≡ fc + k
    → k < length st
    → write_stops idx fc st j ≡ int32 (get_or st k 0)
unfolding write_stops update
write_stops_at idx fc [] k j e h = absurd (omega arith)
write_stops_at idx fc (p ∷ ps) zero j e h =
    ground (arith, write_stops_below (update idx fc (int32 p)) (suc fc) ps j)
write_stops_at idx fc (p ∷ ps) (suc k) j e h =
    write_stops_at (update idx fc (int32 p)) (suc fc) ps k j (omega arith) (omega arith)

pub write_stops_above :
    (idx : ℕ → ℤ) (fc : ℕ) (st : List ℕ) (j : ℕ)
    → fc + length st ≤ j
    → write_stops idx fc st j ≡ idx j
unfolding write_stops update
write_stops_above idx fc [] j h = refl
write_stops_above idx fc (p ∷ ps) j h =
    ground (arith, write_stops_above (update idx fc (int32 p)) (suc fc) ps j)

-- The stops that the loop writes, and the end of the line behind them.
abbrev pub finished : Scanned → ℕ → ℤ
finished s = update s.idx s.fc (int32 s.stop)

-- `take` at a number that is not zero.
take-cons : (n m p : ℕ) (ps : List ℕ) → n ≡ suc m → take n (p ∷ ps) ≡ p ∷ take m ps
take-cons n m p ps e = rw e refl

pub scan-write_stops :
    (sep : ℕ) (text : Bytes) (i fc : ℕ) (idx : ℕ → ℤ)
    → fc ≤ 3000
    → finished (scan sep text i fc idx) ≡ write_stops idx fc (take (3001 - fc) (stops sep text i))
unfolding write_stops
scan-write_stops sep [] i fc idx h =
    unfold stops scan in
    rw (take-cons (3001 - fc) (3000 - fc) i [] (omega arith), take-nil {0} {A = ℕ} (3000 - fc)) refl
scan-write_stops sep (c ∷ cs) i fc idx h = elim (Bool-cases (c == sep)) [
  | inr e ↦
      rw (scan-other sep c cs i fc idx e, stops-other sep c cs i e)
        (scan-write_stops sep cs (suc i) fc idx h)
  | inl e ↦ elim (Bool-cases (ltb fc 3000)) [
    | inl r ↦
        rw
          (
            scan_room sep c cs i fc idx e (ground arith),
            stops-sep sep c cs i e,
            take-cons (3001 - fc) (3001 - suc fc) i (stops sep cs (suc i)) (ground arith),
          )
          (scan-write_stops sep cs (suc i) (suc fc) (update idx fc (int32 i)) (ground arith))
    | inr r ↦
        rw
          (
            scan_full sep c cs i fc idx e (ground arith),
            stops-sep sep c cs i e,
            take-cons (3001 - fc) 0 i (stops sep cs (suc i)) (ground arith),
          )
          refl
  ]
]

-- The loop never goes back.
stop-ge : (sep : ℕ) (text : Bytes) (i fc : ℕ) (idx : ℕ → ℤ) → i ≤ (scan sep text i fc idx).stop
stop-ge sep [] i fc idx = unfold scan in omega arith
stop-ge sep (c ∷ cs) i fc idx = elim (Bool-cases (c == sep)) [
  | inr e ↦ rw (scan-other sep c cs i fc idx e) (omega (arith, stop-ge sep cs (suc i) fc idx))
  | inl e ↦ elim (Bool-cases (ltb fc 3000)) [
    | inl r ↦
        rw (scan_room sep c cs i fc idx e (ground arith))
          (omega (arith, stop-ge sep cs (suc i) (suc fc) (update idx fc (int32 i))))
    | inr r ↦ rw (scan_full sep c cs i fc idx e (ground arith)) (omega arith)
  ]
]

-- The end of the line is behind every stop that is written.
pub stops-le-stop :
    (sep : ℕ) (text : Bytes) (i fc : ℕ) (idx : ℕ → ℤ) (k : ℕ)
    → fc + k ≤ 3000
    → k < length (stops sep text i)
    → get_or (stops sep text i) k 0 ≤ (scan sep text i fc idx).stop
stops-le-stop sep [] i fc idx zero h l = unfold stops scan in omega arith
stops-le-stop sep [] i fc idx (suc k) h l = absurd (unfold stops in omega arith)
stops-le-stop sep (c ∷ cs) i fc idx zero h l = elim (Bool-cases (c == sep)) [
  | inr e ↦
      rw (scan-other sep c cs i fc idx e, stops-other sep c cs i e)
        (stops-le-stop sep cs (suc i) fc idx zero h (rw (stops-other sep c cs i e) at l))
  | inl e ↦ rw (stops-sep sep c cs i e) (stop-ge sep (c ∷ cs) i fc idx)
]
stops-le-stop sep (c ∷ cs) i fc idx (suc k) h l = elim (Bool-cases (c == sep)) [
  | inr e ↦
      rw (scan-other sep c cs i fc idx e, stops-other sep c cs i e)
        (stops-le-stop sep cs (suc i) fc idx (suc k) h (rw (stops-other sep c cs i e) at l))
  | inl e ↦
      rw (scan_room sep c cs i fc idx e (omega arith), stops-sep sep c cs i e)
        (stops-le-stop sep cs (suc i) (suc fc) (update idx fc (int32 i)) k (omega arith)
          (omega (arith, rw (stops-sep sep c cs i e) at l)))
]
