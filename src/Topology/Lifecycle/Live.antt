-- ===== src/Topology/Lifecycle/Live.antt =====
-- topology.go: an output that can go on is found whenever a filter process is blocked.
use mathlib.Core.Bool.{true≢false}
use baker.Common.{
  List, [], ◌∷◌, ◌++◌, map, ℕ, ◌<◌, Bool, Bool-cases, Option-cases, true, ltb, ltb→lt, ltb-false,
  All, ◌≡◌, refl, sym, ap, subst, ◌∙◌, ◌⊎◌, inl, inr, arith,
}
use baker.Topology.{OutputRecord}
use baker.Topology.Lifecycle.{
  Channels, Filtering, filtering, filtered, Outputting, reading_from, closing, returned_from, Stage,
  wginp, wgfil, closing_outch, wgout, wgupl, waited, System, outch_closed, queued, receive,
  channel_of, IsFiltered, IsReturned, Step, filter_receives, filter_sends, output_receives,
  output_sends, output_closes, output_sends_last, output_returns,
}
use baker.Topology.Lifecycle.Parts.{All-at, chunk_cases, receive-some}
use baker.Topology.Lifecycle.Sound.{
  IsFilterSound, IsOutputSound, IsStageSound, Sound, IsEarly, IsEarly-open, filtering-IsEarly,
  IsServing,
}

pub find_filter :
    (fs : List Filtering)
    → All IsFiltered fs
      ⊎ ((front : List Filtering) × (rs : List OutputRecord) × (back : List Filtering) × (fs
            ≡ front ++ filtering rs ∷ back))
find_filter [] = inl tt
find_filter (filtering rs ∷ fs) = inr ([], rs, fs, refl)
find_filter (filtered ∷ fs) = elim (find_filter fs) [
  | inl all ↦ inl (tt, all)
  | inr (front, rs, back, e) ↦ inr (filtered ∷ front, rs, back, ap (◌∷◌ filtered) e)
]

-- An output that satisfies `Q`
abbrev pub Found : (Outputting → Type 0) → List Outputting → Type 0
Found Q os =
    (front : List Outputting) × (x : Outputting) × (back : List Outputting) × (os
      ≡ front ++ x ∷ back)
    × Q x

Found-cons :
    {Q : Outputting → Type 0} (o : Outputting) (os : List Outputting)
    → Found Q os
    → Found Q (o ∷ os)
Found-cons o os (front, x, back, e, q) = (o ∷ front, x, back, ap (◌∷◌ o) e, q)

abbrev pub IsReadBy : ℕ → List ℕ → Type 0
IsReadBy c [] = ⊥
IsReadBy c (d ∷ ds) = (d ≡ c) ⊎ IsReadBy c ds

pub find_reader :
    (c : ℕ) (os : List Outputting)
    → IsReadBy c (map channel_of os)
    → Found (λ x. channel_of x ≡ c) os
find_reader c [] h = absurd h
find_reader c (o ∷ os) (inl e) = ([], o, os, refl, e)
find_reader c (o ∷ os) (inr h) = Found-cons o os (find_reader c os h)

module _ (p : Channels) where
  pub find_output : (os : List Outputting) → All IsReturned os ⊎ Found (IsServing p) os
  find_output [] = inl tt
  find_output (reading_from c ps ∷ os) = inr ([], reading_from c ps, os, refl, tt)
  find_output (closing c ps ∷ os) = inr ([], closing c ps, os, refl, tt)
  find_output (returned_from c ∷ os) = elim (find_output os) [
    | inl all ↦ inl (tt, all)
    | inr found ↦ inr (Found-cons (returned_from c) os found)
  ]

  -- Channels have room, and each channel for records has an output that reads it.
  pub record IsReadable : Type 0 where
    pub input_room : 0 < p.input_size
    pub output_room : 0 < p.output_size
    pub covered : (c : ℕ) → c < p.count → IsReadBy c p.read_by

  abbrev pub Goes : System → Type 0
  Goes s = (t : System) × Step p s t

  -- An output that has not returned can go on, if its channel has a record or is closed.
  pub serve :
      (s : System) (front back : List Outputting) (x : Outputting)
      → s.uploading ≡ true
      → s.outputs ≡ front ++ x ∷ back
      → IsServing p x
      → (0 < queued (channel_of x) s.outch) ⊎ (outch_closed s.stage (channel_of x) ≡ true)
      → Goes s
  serve s front back (reading_from c (q ∷ ps)) on e sv h = (_, output_sends front back c q ps e on)
  serve s front back (reading_from c []) on e sv (inl more) =
      let (x, call) = receive-some c s.outch more in
      (_, output_receives front back c x.0 x.1 [] e call)
  serve s front back (reading_from c []) on e sv (inr closed) =
      elim (Option-cases (receive c s.outch)) [
        | inl call ↦ (_, output_closes front back c [] e call closed)
        | inr (x, call) ↦ (_, output_receives front back c x.0 x.1 [] e call)
      ]
  serve s front back (closing c (q ∷ ps)) on e sv h = (_, output_sends_last front back c q ps e on)
  serve s front back (closing c []) on e sv h = (_, output_returns front back c e)
  serve s front back (returned_from c) on e sv h = absurd sv

  early-IsServing :
      (stage : Stage) (outch : List OutputRecord) (x : Outputting)
      → IsEarly p stage
      → IsOutputSound p stage outch x
      → IsServing p x
  early-IsServing stage outch (reading_from c ps) e h = tt
  early-IsServing stage outch (closing c ps) e h = tt
  early-IsServing stage outch (returned_from c) e (closed, _) =
      absurd (true≢false (sym closed ∙ IsEarly-open p stage c e))

  IsEarly-uploading :
      (stage : Stage) (i : Bool) (fs : List Filtering) (os : List Outputting) (u : Bool)
      → IsEarly p stage
      → IsStageSound p stage i fs os u
      → u ≡ true
  IsEarly-uploading wginp i fs os u e h = h
  IsEarly-uploading wgfil i fs os u e (_, h) = h
  IsEarly-uploading (closing_outch k) i fs os u e h = absurd e
  IsEarly-uploading wgout i fs os u e h = absurd e
  IsEarly-uploading wgupl i fs os u e h = absurd e
  IsEarly-uploading waited i fs os u e h = absurd e

  -- A full channel is read by an output that can go on.
  unblock :
      (s : System) (c : ℕ)
      → IsReadable
      → Sound p s
      → IsEarly p s.stage
      → c < p.count
      → 0 < queued c s.outch
      → Goes s
  unblock s c room h early below full =
      let (front, x, back, e, same) =
        find_reader c s.outputs (subst (IsReadBy c) (sym h.channels) (room.covered c below)) in
      let sound =
        All-at (IsOutputSound p s.stage s.outch) front back x
          (subst (All (IsOutputSound p s.stage s.outch)) e h.outputs) in
      serve s front back x
        (IsEarly-uploading s.stage s.inputting s.filters s.outputs s.uploading early h.stage) e
        (early-IsServing s.stage s.outch x early sound)
        (inl (subst (λ d. 0 < queued d s.outch) (sym same) full))

  -- A filter process that has not returned: the system goes on, or it waits for a chunk.
  pub filter-Goes :
      (s : System) (front back : List Filtering) (rs : List OutputRecord)
      → IsReadable
      → Sound p s
      → s.filters ≡ front ++ filtering rs ∷ back
      → Goes s ⊎ ((rs ≡ []) × (s.inch ≡ []))
  filter-Goes s front back (r ∷ rs) room h e =
      let early =
        filtering-IsEarly p s.stage s.inputting front back (r ∷ rs) s.outputs s.uploading
          (subst (λ fs. IsStageSound p s.stage s.inputting fs s.outputs s.uploading) e h.stage) in
      let (below, _) =
        All-at (IsFilterSound p s.stage s.inch) front back (filtering (r ∷ rs))
          (subst (All (IsFilterSound p s.stage s.inch)) e h.filters) in
      elim (Bool-cases (ltb (queued r.channel s.outch) p.output_size)) [
        | inl free ↦ inl (_, filter_sends front back r rs e (ltb→lt _ _ free))
        | inr full ↦ inl (
            unblock s r.channel room h early below
              (omega (arith, ltb-false _ _ full, room.output_room)))
      ]
  filter-Goes s front back [] room h e = elim (chunk_cases s.inch) [
    | inl none_left ↦ inr (refl, none_left)
    | inr (c, cs, some_left) ↦ inl (_, filter_receives front back c cs [] e some_left tt)
  ]
