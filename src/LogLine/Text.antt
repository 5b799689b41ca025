-- ===== src/LogLine/Text.antt =====
-- logline.go: `ToText` on a modified line.
use baker.Common.{
  ℕ, zero, suc, ◌+◌, ◌-◌, ◌%◌, ◌≤◌, ◌<◌, ◌≡◌, ◌≢◌, refl, ◌∙◌, arith, Bool, false, not, ==_iff,
  Bool-cases, ◌==◌, leb, le→leb, leb_above, Bytes, List, [], ◌∷◌, ◌++◌, inl, inr, append_assoc, pos,
  eqbℤ, ok, out_of_fuel,
}
use baker.Record.{content, len, FieldIndex}
use baker.LogLine.{
  log_line_num_fields, LogLine, find_last, sum_wdata, last_field, append_fields, to_text,
}
use baker.LogLine.Invariant.{IsValid, value, get-value}
use baker.LogLine.Split.{join}

find_last-le : (test : ℕ → Bool) (n : ℕ) → find_last test n ≤ n
unfolding find_last
find_last-le test zero = omega arith
find_last-le test (suc i) = ground (arith, find_last-le test i)

-- No index behind the one found passes the test.
pub find_last_behind : (test : ℕ → Bool) (n i : ℕ) → find_last test n < i → i ≤ n → test i ≡ false
unfolding find_last
find_last_behind test zero i h b = absurd (omega arith)
find_last_behind test (suc n) i h b = elim (Bool-cases (i == suc n)) [
  | inl e ↦ rw ((==_iff i (suc n)).0 e) (ground arith)
  | inr e ↦ ground (arith, find_last_behind test n i)
]

module _ {V : Type 0} where
  sum_wdata_total :
      (l : LogLine V) (fuel i acc : ℕ)
      → l.wcnt < 255
      → i ≤ l.wcnt + 1
      → l.wcnt + 2 ≤ i + fuel
      → (n : ℕ) × (sum_wdata fuel l i acc ≡ ok n)
  unfolding sum_wdata
  sum_wdata_total l zero i acc w b h = absurd (omega arith)
  sum_wdata_total l (suc fuel) i acc w b h = elim (Bool-cases (leb i l.wcnt)) [
    | inr e ↦ (acc, rw e refl)
    | inl e ↦ rw e (
        sum_wdata_total l fuel ((i + 1) % 256) (acc + len (l.wdata i)) w (ground arith)
          (ground arith))
  ]

  sum_wdata_full :
      (l : LogLine V) (fuel i acc : ℕ)
      → l.wcnt ≡ 255
      → i < 256
      → sum_wdata fuel l i acc ≡ out_of_fuel
  unfolding sum_wdata
  sum_wdata_full l zero i acc w b = refl
  sum_wdata_full l (suc fuel) i acc w b =
      ground (arith, sum_wdata_full l fuel ((i + 1) % 256) (acc + len (l.wdata i)))

  -- With 255 modified fields the loop that sums their lengths does not end, whatever the fuel.
  pub to_text_full :
      (l : LogLine V) (fuel : ℕ) (buf : Bytes) → l.wcnt ≡ 255 → to_text fuel l buf ≡ out_of_fuel
  unfolding to_text
  to_text_full l fuel buf w = ground (arith, sum_wdata_full l fuel 1 0 w)

  -- The bytes of the fields from `f` on, `n` more behind it.
  unfoldable pub texts : LogLine V → FieldIndex → ℕ → List Bytes
  texts l f zero = content (value l f) ∷ []
  texts l f (suc n) = content (value l f) ∷ texts l (suc f) n

  join-texts :
      (l : LogLine V) (sep f n : ℕ)
      → join sep (texts l f (suc n)) ≡ content (value l f) ++ sep ∷ join sep (texts l (suc f) n)
  unfolding join texts
  join-texts l sep f zero = refl
  join-texts l sep f (suc n) = refl

  append_fields-join :
      (l : LogLine V) (last n fc m : ℕ) (buf : Bytes)
      → IsValid l
      → last ≡ fc + m
      → m < n
      → last < 3100
      → append_fields l last n fc buf ≡ ok (buf ++ join l.field_separator (texts l fc m))
  unfolding append_fields
  append_fields-join l last zero fc m buf v e h b = absurd (omega arith)
  append_fields-join l last (suc n) fc zero buf v e h b =
      rw (get-value fc v (omega arith), le→leb last fc (omega arith)) (unfold texts join in refl)
  append_fields-join l last (suc n) fc (suc m) buf v e h b =
      rw (get-value fc v (omega arith), leb_above last fc (omega arith))
        (append_fields-join l last n (suc fc) m
            ((buf ++ content (value l fc)) ++ l.field_separator ∷ []) v (omega arith) (omega arith)
            b
          ∙ rw join-texts (simp append_assoc))

  pub last_field-lt : (l : LogLine V) → last_field l < 3000
  unfolding last_field
  last_field-lt l = ground (
    arith,
    find_last-le (λ i. not (l.wmask i == 0)) (log_line_num_fields - 1),
    find_last-le (λ i. not (eqbℤ (l.idx i) (pos 0))) log_line_num_fields,
  )

  pub to_text-join :
      (l : LogLine V) (fuel : ℕ) (buf : Bytes)
      → IsValid l
      → l.wcnt ≢ 0
      → l.wcnt < 255
      → 256 ≤ fuel
      → to_text fuel l buf ≡ ok (buf ++ join l.field_separator (texts l 0 (last_field l)))
  unfolding to_text
  to_text-join l fuel buf v nz w h =
      let (n, summed) = sum_wdata_total l fuel 1 0 w (omega arith) (omega arith) in
      ground (
        arith,
        summed,
        append_fields-join l (last_field l) 3000 0 (last_field l) buf v,
        last_field-lt l,
      )
