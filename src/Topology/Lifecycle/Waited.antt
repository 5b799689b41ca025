-- ===== src/Topology/Lifecycle/Waited.antt =====
-- topology.go: Wait returns, and nothing is left behind.
use mathlib.Core.Bool.{true≢false}
use mathlib.Core.WellFounded.{Acc}
use baker.Common.{
  Bytes, List, [], ◌∷◌, ◌++◌, ℕ, ◌<◌, Bool-cases, true, false, ltb, ltb→lt, ltb-false, length, All,
  ◌≡◌, refl, sym, ap, subst, ◌∙◌, ◌⊎◌, inl, inr, arith,
}
use baker.Topology.{OutputRecord}
use baker.Topology.Lifecycle.{
  Channels, Filtering, filtering, filtered, Outputting, reading_from, closing, returned_from, Stage,
  wginp, wgfil, closing_outch, wgout, wgupl, waited, System, inch_closed, outch_closed, queued,
  channel_of, IsFiltered, IsReturned, Step, input_sends, input_returns, filter_returns,
  upload_returns, input_waited, filters_waited, outch_closes, all_closed, outputs_waited,
  upload_waited, Reach,
}
use baker.Topology.Lifecycle.Parts.{All-at, chunk_cases, queued_here}
use baker.Topology.Lifecycle.Sound.{IsBelow, IsFilterSound, IsOutputSound, Sound}
use baker.Topology.Lifecycle.Steps.{at_stage, Step-Sound, Reach-Sound}
use baker.Topology.Lifecycle.Ends.{Step-Acc}
use baker.Topology.Lifecycle.Live.{
  find_filter, IsReadBy, find_reader, find_output, IsReadable, Goes, serve, filter-Goes,
}

module _ (p : Channels) where
  -- Before its channel is closed, a filter process has not returned.
  none_filtered :
      (fs : List Filtering) (inch : List Bytes)
      → 0 < length fs
      → All IsFiltered fs
      → All (IsFilterSound p wginp inch) fs
      → ⊥
  none_filtered [] inch l all h = omega (arith, l)
  none_filtered (filtering rs ∷ fs) inch l (bad, _) h = bad
  none_filtered (filtered ∷ fs) inch l all ((closed, _), _) = true≢false (sym closed)

  wginp-Goes : (s : System) → IsReadable p → Sound p s → s.stage ≡ wginp → Goes p s
  wginp-Goes s room h e = elim (Bool-cases s.inputting) [
    | inr off ↦ (_, input_waited e off)
    | inl on ↦ elim (chunk_cases s.to_read) [
      | inl none_left ↦ (_, input_returns on none_left)
      | inr (c, cs, some_left) ↦ elim (Bool-cases (ltb (length s.inch) p.input_size)) [
        | inl free ↦ (_, input_sends c cs on some_left (ltb→lt _ _ free))
        | inr full ↦ elim (find_filter s.filters) [
          | inl all ↦ absurd (
              none_filtered s.filters s.inch h.procs all
                (subst (λ g. All (IsFilterSound p g s.inch) s.filters) e h.filters))
          | inr (front, rs, back, at) ↦ elim (filter-Goes p s front back rs room h at) [
            | inl goes ↦ goes
            | inr (_, empty) ↦
                absurd (omega (arith, ap length empty, ltb-false _ _ full, room.input_room))
          ]
        ]
      ]
    ]
  ]

  wgfil-Goes : (s : System) → IsReadable p → Sound p s → s.stage ≡ wgfil → Goes p s
  wgfil-Goes s room h e = elim (find_filter s.filters) [
    | inl all ↦ (_, filters_waited e all)
    | inr (front, rs, back, at) ↦ elim (filter-Goes p s front back rs room h at) [
      | inl goes ↦ goes
      | inr (nothing, empty) ↦ (
        _,
        filter_returns front back (subst (λ q. s.filters ≡ front ++ filtering q ∷ back) nothing at)
            empty (ap inch_closed e),
      )
    ]
  ]

  closing-Goes : (s : System) (k : ℕ) → Sound p s → s.stage ≡ closing_outch k → Goes p s
  closing-Goes s k h e =
      let (_, _, _, below) = at_stage p s (closing_outch k) h e in
      elim (Bool-cases (ltb k p.count)) [
        | inl more ↦ (_, outch_closes k e (ltb→lt _ _ more))
        | inr done ↦
            (_, all_closed (e ∙ ap closing_outch (omega (arith, below, ltb-false _ _ done))))
      ]

  wgout-Goes : (s : System) → Sound p s → s.stage ≡ wgout → Goes p s
  wgout-Goes s h e =
      let (_, on, _) = at_stage p s wgout h e in
      elim (find_output p s.outputs) [
        | inl all ↦ (_, outputs_waited e all)
        | inr (front, x, back, at, sv) ↦
            serve p s front back x on at sv (inr (ap (λ g. outch_closed g (channel_of x)) e))
      ]

  wgupl-Goes : (s : System) → s.stage ≡ wgupl → Goes p s
  wgupl-Goes s e = elim (Bool-cases s.uploading) [
    | inl on ↦ (_, upload_returns on e)
    | inr off ↦ (_, upload_waited e off)
  ]

  -- Wait has returned; all goroutines have, and no channel holds anything.
  pub record IsDone (s : System) : Type 0 where
    pub stage : s.stage ≡ waited
    pub to_read : s.to_read ≡ []
    pub inputting : s.inputting ≡ false
    pub inch : s.inch ≡ []
    pub filters : All IsFiltered s.filters
    pub outch : s.outch ≡ []
    pub outputs : All IsReturned s.outputs
    pub uploading : s.uploading ≡ false

  inch_empty :
      (stage : Stage) (fs : List Filtering) (inch : List Bytes)
      → 0 < length fs
      → All IsFiltered fs
      → All (IsFilterSound p stage inch) fs
      → inch ≡ []
  inch_empty stage [] inch l all h = absurd (omega (arith, l))
  inch_empty stage (filtering rs ∷ fs) inch l (bad, _) h = absurd bad
  inch_empty stage (filtered ∷ fs) inch l all ((_, e), _) = e

  returned_empty :
      (stage : Stage) (outch : List OutputRecord) (x : Outputting)
      → IsReturned x
      → IsOutputSound p stage outch x
      → queued (channel_of x) outch ≡ 0
  returned_empty stage outch (reading_from c ps) bad h = absurd bad
  returned_empty stage outch (closing c ps) bad h = absurd bad
  returned_empty stage outch (returned_from c) done (_, e) = e

  -- A channel whose outputs have all returned is empty.
  channel_empty :
      (s : System) (c : ℕ)
      → IsReadable p
      → Sound p s
      → All IsReturned s.outputs
      → c < p.count
      → queued c s.outch ≡ 0
  channel_empty s c room h all below =
      let (front, x, back, e, same) =
        find_reader c s.outputs (subst (IsReadBy c) (sym h.channels) (room.covered c below)) in
      subst (λ d. queued d s.outch ≡ 0) same
        (returned_empty s.stage s.outch x
          (All-at IsReturned front back x (subst (All IsReturned) e all))
          (All-at (IsOutputSound p s.stage s.outch) front back x
            (subst (All (IsOutputSound p s.stage s.outch)) e h.outputs)))

  outch_empty :
      (outch : List OutputRecord)
      → All (IsBelow p) outch
      → ((c : ℕ) → c < p.count → queued c outch ≡ 0)
      → outch ≡ []
  outch_empty [] b h = refl
  outch_empty (r ∷ rs) (b, _) h = absurd (omega (arith, h r.channel b, queued_here r rs))

  waited-IsDone : (s : System) → IsReadable p → Sound p s → s.stage ≡ waited → IsDone s
  waited-IsDone s room h e =
      let (off, fs, os, u) = at_stage p s waited h e in
      record {
        stage = e;
        to_read = elim h.read [
          | inl on ↦ absurd (true≢false (sym on ∙ off))
          | inr none_left ↦ none_left
        ];
        inputting = off;
        inch = inch_empty s.stage s.filters s.inch h.procs fs h.filters;
        filters = fs;
        outch = outch_empty s.outch h.below (λ c below. channel_empty s c room h os below);
        outputs = os;
        uploading = u;
      }

  progress :
      (s : System) (stage : Stage)
      → IsReadable p
      → Sound p s
      → s.stage ≡ stage
      → IsDone s ⊎ Goes p s
  progress s wginp room h e = inr (wginp-Goes s room h e)
  progress s wgfil room h e = inr (wgfil-Goes s room h e)
  progress s (closing_outch k) room h e = inr (closing-Goes s k h e)
  progress s wgout room h e = inr (wgout-Goes s h e)
  progress s wgupl room h e = inr (wgupl-Goes s e)
  progress s waited room h e = inl (waited-IsDone s room h e)

  -- No one who has not returned finds the channel closed that it sends on.
  abbrev pub IsSafe : System → Type 0
  IsSafe s =
      ((inch_closed s.stage ≡ false) ⊎ (s.inputting ≡ false))
      × (((c : ℕ) → outch_closed s.stage c ≡ false) ⊎ All IsFiltered s.filters)
      × ((s.uploading ≡ true) ⊎ All IsReturned s.outputs)

  stage-IsSafe : (s : System) (stage : Stage) → Sound p s → s.stage ≡ stage → IsSafe s
  stage-IsSafe s wginp h e = (
    inl (ap inch_closed e),
    inl (λ c. ap (λ g. outch_closed g c) e),
    inl (at_stage p s wginp h e),
  )
  stage-IsSafe s wgfil h e =
      let (off, on) = at_stage p s wgfil h e in
      (inr off, inl (λ c. ap (λ g. outch_closed g c) e), inl on)
  stage-IsSafe s (closing_outch k) h e =
      let (off, on, fs, _) = at_stage p s (closing_outch k) h e in (inr off, inr fs, inl on)
  stage-IsSafe s wgout h e = let (off, on, fs) = at_stage p s wgout h e in (inr off, inr fs, inl on)
  stage-IsSafe s wgupl h e = let (off, fs, os) = at_stage p s wgupl h e in (inr off, inr fs, inr os)
  stage-IsSafe s waited h e =
      let (off, fs, os, _) = at_stage p s waited h e in (inr off, inr fs, inr os)

  -- However the goroutines take turns, they come to an end that is one, and are safe before it.
  pub data Completes : System → Type 0 where
    completed : (s : System) → IsDone s → Completes s
    goes_on :
        (s : System) → IsSafe s → Goes p s → ((t : System) → Step p s t → Completes t) → Completes s

  Sound-Completes :
      (s : System) → Acc (λ t s. Step p s t) s → IsReadable p → Sound p s → Completes s
  Sound-Completes s (Acc.intro _ rest) room h = elim (progress s s.stage room h refl) [
    | inl done ↦ completed s done
    | inr goes ↦
        goes_on s (stage-IsSafe s s.stage h refl) goes
          (λ t st. Sound-Completes t (rest t st) room (Step-Sound p s t h st))
  ]

-- Let there be a filter process, channels with room, and for each channel for records an output that
-- reads it. Then from every state that the goroutines reach, however they go on, they come to an end, and
-- never block before it: there Wait has returned, all goroutines have, what the input had to send was
-- taken, and no channel holds anything. Until then no one who still sends finds its channel closed.
pub Reach-Completes :
    (p : Channels) (filter_procs : ℕ) (to_read : List Bytes) (s : System)
    → 0 < filter_procs
    → IsReadable p
    → Reach p filter_procs to_read s
    → Completes p s
Reach-Completes p filter_procs to_read s l room r =
    Sound-Completes p s (Step-Acc p s) room (Reach-Sound p filter_procs to_read s l r)
