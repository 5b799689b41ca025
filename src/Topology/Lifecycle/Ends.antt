-- ===== src/Topology/Lifecycle/Ends.antt =====
-- topology.go: every run of the system ends. A step that adds to what one part is to do takes from what
-- is before it: chunks, records, outputs that read, paths, and last the goroutines and Wait itself.
use mathlib.Core.WellFounded.{Acc}
use baker.Common.{
  [], ◌∷◌, ℕ, zero, suc, ◌+◌, ◌-◌, ◌<◌, Bool, true, false, length, length-append, ◌≡◌, refl, ap,
  ◌⊎◌, inl, inr, arith,
}
use baker.Topology.Lifecycle.{
  Channels, Filtering, filtering, filtered, Outputting, reading_from, closing, returned_from, Stage,
  wginp, wgfil, closing_outch, wgout, wgupl, waited, System, Step, input_sends, input_returns,
  filter_receives, filter_sends, filter_returns, output_receives, output_sends, output_closes,
  output_sends_last, output_returns, upload_returns, input_waited, filters_waited, outch_closes,
  all_closed, outputs_waited, upload_waited,
}
use baker.Topology.Lifecycle.Parts.{receive-length, total, total-at}

-- A step either takes from a measure, or leaves it and is a step of a relation that ends.
module _ {ℓ κ μ} {S : Type ℓ} (R : S → S → Type κ) (Q : S → S → Type μ) (f : S → ℕ) where
  abbrev Lowers : Type (ℓ ⊔ κ ⊔ μ)
  Lowers = (t s : S) → R t s → (f t < f s) ⊎ ((f t ≡ f s) × Q t s)

  Acc_at :
      (n : ℕ) → Lowers → ((s : S) → f s < n → Acc R s) → (s : S) → Acc Q s → f s < suc n → Acc R s
  Acc_at n h lower s (Acc.intro _ rest) l = Acc.intro s (λ t r. elim (h t s r) [
    | inl less ↦ lower t (omega (arith, less, l))
    | inr (same, below) ↦ Acc_at n h lower t (rest t below) (omega (arith, same, l))
  ])

  Acc_below : (n : ℕ) → Lowers → ((s : S) → Acc Q s) → (s : S) → f s < n → Acc R s
  Acc_below zero h q s l = absurd (omega (arith, l))
  Acc_below (suc n) h q s l = Acc_at n h (Acc_below n h q) s (q s) l

  Acc_by : Lowers → ((s : S) → Acc Q s) → (s : S) → Acc R s
  Acc_by h q s = Acc_below (suc (f s)) h q s (omega arith)

abbrev pending : Filtering → ℕ
pending (filtering rs) = length rs
pending filtered = 0

abbrev runs : Filtering → ℕ
runs (filtering rs) = 1
runs filtered = 0

abbrev paths : Outputting → ℕ
paths (reading_from c ps) = length ps
paths (closing c ps) = length ps
paths (returned_from c) = 0

abbrev reads : Outputting → ℕ
reads (reading_from c ps) = 1
reads (closing c ps) = 0
reads (returned_from c) = 0

abbrev serves : Outputting → ℕ
serves (reading_from c ps) = 1
serves (closing c ps) = 1
serves (returned_from c) = 0

abbrev one : Bool → ℕ
one true = 1
one false = 0

module _ (p : Channels) where
  -- How far Wait is from its end
  abbrev waits : Stage → ℕ
  waits wginp = p.count + 5
  waits wgfil = p.count + 4
  waits (closing_outch k) = (p.count - k) + 3
  waits wgout = 2
  waits wgupl = 1
  waits waited = 0

  abbrev chunks_left : System → ℕ
  chunks_left s = length s.to_read + (length s.to_read + length s.inch)

  abbrev records_left : System → ℕ
  records_left s = total pending s.filters + (total pending s.filters + length s.outch)

  abbrev reading_left : System → ℕ
  reading_left s = total reads s.outputs

  abbrev paths_left : System → ℕ
  paths_left s = total paths s.outputs

  abbrev rest_left : System → ℕ
  rest_left s =
      one s.inputting
      + (total runs s.filters + (total serves s.outputs + (one s.uploading + waits s.stage)))

  abbrev Takes4 : System → System → Type 0
  Takes4 t s = (rest_left t < rest_left s) ⊎ ((rest_left t ≡ rest_left s) × ⊥)

  abbrev Takes3 : System → System → Type 0
  Takes3 t s = (paths_left t < paths_left s) ⊎ ((paths_left t ≡ paths_left s) × Takes4 t s)

  abbrev Takes2 : System → System → Type 0
  Takes2 t s = (reading_left t < reading_left s) ⊎ ((reading_left t ≡ reading_left s) × Takes3 t s)

  abbrev Takes1 : System → System → Type 0
  Takes1 t s = (records_left t < records_left s) ⊎ ((records_left t ≡ records_left s) × Takes2 t s)

  -- A step takes from the first of the measures that it changes.
  abbrev Takes : System → System → Type 0
  Takes t s = (chunks_left t < chunks_left s) ⊎ ((chunks_left t ≡ chunks_left s) × Takes1 t s)

  last-Takes :
      (s t : System)
      → rest_left t < rest_left s
      → chunks_left t ≡ chunks_left s
      → records_left t ≡ records_left s
      → reading_left t ≡ reading_left s
      → paths_left t ≡ paths_left s
      → Takes t s
  last-Takes s t h a b c d = inr (a, inr (b, inr (c, inr (d, inl h))))

  Step-Takes : (s t : System) → Step p s t → Takes t s
  Step-Takes s t (input_sends c cs on e room) =
      inl (omega (arith, ap length e, length-append s.inch (c ∷ [])))
  Step-Takes s t (input_returns on e) =
      last-Takes s t (omega (arith, ap one on)) refl refl refl refl
  Step-Takes s t (filter_receives front back c cs rs e some_left below) =
      inl (omega (arith, ap length some_left))
  Step-Takes s t (filter_sends front back r rs e room) = inr (
    refl,
    inl (
        omega (
          arith,
          ap (total pending) e,
          total-at pending front back (filtering (r ∷ rs)),
          total-at pending front back (filtering rs),
          length-append s.outch (r ∷ []),
        )),
  )
  Step-Takes s t (filter_returns front back e none_left closed) =
      last-Takes s t
        (omega (
          arith,
          ap (total runs) e,
          total-at runs front back (filtering []),
          total-at runs front back filtered,
        ))
        refl
        (omega (
          arith,
          ap (total pending) e,
          total-at pending front back (filtering []),
          total-at pending front back filtered,
        ))
        refl refl
  Step-Takes s t (output_receives front back c r rest ps e call) =
      inr (refl, inl (omega (arith, receive-length c s.outch r rest call)))
  Step-Takes s t (output_sends front back c q ps e on) = inr (
    refl,
    inr (
      refl,
      inr (
        omega (
          arith,
          ap (total reads) e,
          total-at reads front back (reading_from c (q ∷ ps)),
          total-at reads front back (reading_from c ps),
        ),
        inl (
            omega (
              arith,
              ap (total paths) e,
              total-at paths front back (reading_from c (q ∷ ps)),
              total-at paths front back (reading_from c ps),
            )),
      ),
    ),
  )
  Step-Takes s t (output_closes front back c ps e call closed) = inr (
    refl,
    inr (
      refl,
      inl (
          omega (
            arith,
            ap (total reads) e,
            total-at reads front back (reading_from c []),
            total-at reads front back (closing c ps),
          )),
    ),
  )
  Step-Takes s t (output_sends_last front back c q ps e on) = inr (
    refl,
    inr (
      refl,
      inr (
        omega (
          arith,
          ap (total reads) e,
          total-at reads front back (closing c (q ∷ ps)),
          total-at reads front back (closing c ps),
        ),
        inl (
            omega (
              arith,
              ap (total paths) e,
              total-at paths front back (closing c (q ∷ ps)),
              total-at paths front back (closing c ps),
            )),
      ),
    ),
  )
  Step-Takes s t (output_returns front back c e) =
      last-Takes s t
        (omega (
          arith,
          ap (total serves) e,
          total-at serves front back (closing c []),
          total-at serves front back (returned_from c),
        ))
        refl refl
        (omega (
          arith,
          ap (total reads) e,
          total-at reads front back (closing c []),
          total-at reads front back (returned_from c),
        ))
        (omega (
          arith,
          ap (total paths) e,
          total-at paths front back (closing c []),
          total-at paths front back (returned_from c),
        ))
  Step-Takes s t (upload_returns on e) =
      last-Takes s t (omega (arith, ap one on)) refl refl refl refl
  Step-Takes s t (input_waited e off) =
      last-Takes s t (omega (arith, ap waits e)) refl refl refl refl
  Step-Takes s t (filters_waited e fs) =
      last-Takes s t (omega (arith, ap waits e)) refl refl refl refl
  Step-Takes s t (outch_closes k e more) =
      last-Takes s t (omega (arith, ap waits e, more)) refl refl refl refl
  Step-Takes s t (all_closed e) = last-Takes s t (omega (arith, ap waits e)) refl refl refl refl
  Step-Takes s t (outputs_waited e os) =
      last-Takes s t (omega (arith, ap waits e)) refl refl refl refl
  Step-Takes s t (upload_waited e off) =
      last-Takes s t (omega (arith, ap waits e)) refl refl refl refl

  nothing : (s : System) → Acc (λ t s. ⊥) s
  nothing s = Acc.intro s (λ t h. absurd h)

  Takes1-Acc : (s : System) → Acc Takes1 s
  Takes1-Acc =
      Acc_by Takes1 Takes2 records_left (λ t s h. h)
        (Acc_by Takes2 Takes3 reading_left (λ t s h. h)
          (Acc_by Takes3 Takes4 paths_left (λ t s h. h)
            (Acc_by Takes4 (λ t s. ⊥) rest_left (λ t s h. h) nothing)))

  -- There is no infinite run.
  pub Step-Acc : (s : System) → Acc (λ t s. Step p s t) s
  Step-Acc = Acc_by (λ t s. Step p s t) Takes1 chunks_left (λ t s. Step-Takes s t) Takes1-Acc
