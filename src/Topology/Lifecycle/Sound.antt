-- ===== src/Topology/Lifecycle/Sound.antt =====
-- topology.go: what holds of all goroutines between the steps of the system.
use baker.Common.{
  Bytes, List, [], ◌∷◌, ◌++◌, map, ℕ, ◌≤◌, ◌<◌, Bool, true, false, length, length-append, All,
  All-append, ◌≡◌, refl, sym, ap, subst, ◌∙◌, ◌⊎◌, arith,
}
use mathlib.Core.Bool.{true≢false}
use baker.Topology.{OutputRecord}
use baker.Topology.Lifecycle.{
  Channels, Filtering, filtering, filtered, Outputting, reading_from, closing, returned_from, Stage,
  wginp, wgfil, closing_outch, wgout, wgupl, waited, System, inch_closed, outch_closed, queued,
  channel_of, IsFiltered, IsReturned,
}
use baker.Topology.Lifecycle.Parts.{All-map, All-at, All-replace, map_replace}

module _ (p : Channels) where
  abbrev pub IsBelow : OutputRecord → Type 0
  IsBelow r = r.channel < p.count

  -- A filter process returns when it has seen its channel closed, and empty.
  abbrev pub IsFilterSound : Stage → List Bytes → Filtering → Type 0
  IsFilterSound stage inch (filtering rs) = All IsBelow rs
  IsFilterSound stage inch filtered = (inch_closed stage ≡ true) × (inch ≡ [])

  abbrev pub IsOutputSound : Stage → List OutputRecord → Outputting → Type 0
  IsOutputSound stage outch (reading_from c ps) = Unit
  IsOutputSound stage outch (closing c ps) = (outch_closed stage c ≡ true) × (queued c outch ≡ 0)
  IsOutputSound stage outch (returned_from c) = (outch_closed stage c ≡ true) × (queued c outch ≡ 0)

  -- Who has returned where Wait is.
  abbrev pub IsStageSound : Stage → Bool → List Filtering → List Outputting → Bool → Type 0
  IsStageSound wginp i fs os u = u ≡ true
  IsStageSound wgfil i fs os u = (i ≡ false) × (u ≡ true)
  IsStageSound (closing_outch k) i fs os u =
      (i ≡ false) × (u ≡ true) × All IsFiltered fs × (k ≤ p.count)
  IsStageSound wgout i fs os u = (i ≡ false) × (u ≡ true) × All IsFiltered fs
  IsStageSound wgupl i fs os u = (i ≡ false) × All IsFiltered fs × All IsReturned os
  IsStageSound waited i fs os u = (i ≡ false) × All IsFiltered fs × All IsReturned os × (u ≡ false)

  pub record Sound (s : System) : Type 0 where
    pub stage : IsStageSound s.stage s.inputting s.filters s.outputs s.uploading
    pub read : (s.inputting ≡ true) ⊎ (s.to_read ≡ [])
    pub filters : All (IsFilterSound s.stage s.inch) s.filters
    pub below : All IsBelow s.outch
    pub outputs : All (IsOutputSound s.stage s.outch) s.outputs
    pub channels : map channel_of s.outputs ≡ p.read_by
    pub procs : 0 < length s.filters

  -- Before Wait has seen the filters return
  abbrev pub IsEarly : Stage → Type 0
  IsEarly wginp = Unit
  IsEarly wgfil = Unit
  IsEarly (closing_outch k) = ⊥
  IsEarly wgout = ⊥
  IsEarly wgupl = ⊥
  IsEarly waited = ⊥

  pub IsEarly-open : (stage : Stage) (c : ℕ) → IsEarly stage → outch_closed stage c ≡ false
  IsEarly-open wginp c e = refl
  IsEarly-open wgfil c e = refl
  IsEarly-open (closing_outch k) c e = absurd e
  IsEarly-open wgout c e = absurd e
  IsEarly-open wgupl c e = absurd e
  IsEarly-open waited c e = absurd e

  -- While a filter process has not returned
  pub filtering-IsEarly :
      (stage : Stage) (i : Bool) (front back : List Filtering) (rs : List OutputRecord)
      (os : List Outputting) (u : Bool)
      → IsStageSound stage i (front ++ filtering rs ∷ back) os u
      → IsEarly stage
  filtering-IsEarly wginp i front back rs os u h = tt
  filtering-IsEarly wgfil i front back rs os u h = tt
  filtering-IsEarly (closing_outch k) i front back rs os u (_, _, fs, _) =
      All-at IsFiltered front back (filtering rs) fs
  filtering-IsEarly wgout i front back rs os u (_, _, fs) =
      All-at IsFiltered front back (filtering rs) fs
  filtering-IsEarly wgupl i front back rs os u (_, fs, _) =
      All-at IsFiltered front back (filtering rs) fs
  filtering-IsEarly waited i front back rs os u (_, fs, _, _) =
      All-at IsFiltered front back (filtering rs) fs

  change_filters :
      (stage : Stage) (i : Bool) (fs gs : List Filtering) (os : List Outputting) (u : Bool)
      → IsEarly stage
      → IsStageSound stage i fs os u
      → IsStageSound stage i gs os u
  change_filters wginp i fs gs os u e h = h
  change_filters wgfil i fs gs os u e h = h
  change_filters (closing_outch k) i fs gs os u e h = absurd e
  change_filters wgout i fs gs os u e h = absurd e
  change_filters wgupl i fs gs os u e h = absurd e
  change_filters waited i fs gs os u e h = absurd e

  -- An output that has not returned
  abbrev pub IsServing : Outputting → Type 0
  IsServing (reading_from c ps) = Unit
  IsServing (closing c ps) = Unit
  IsServing (returned_from c) = ⊥

  IsServing-not : (o : Outputting) → IsServing o → IsReturned o → ⊥
  IsServing-not (reading_from c ps) s r = r
  IsServing-not (closing c ps) s r = r
  IsServing-not (returned_from c) s r = s

  change_output_stage :
      (stage : Stage) (i : Bool) (fs : List Filtering) (front back : List Outputting)
      (x : Outputting) (os : List Outputting) (u : Bool)
      → IsServing x
      → IsStageSound stage i fs (front ++ x ∷ back) u
      → IsStageSound stage i fs os u
  change_output_stage wginp i fs front back x os u sv h = h
  change_output_stage wgfil i fs front back x os u sv h = h
  change_output_stage (closing_outch k) i fs front back x os u sv h = h
  change_output_stage wgout i fs front back x os u sv h = h
  change_output_stage wgupl i fs front back x os u sv (_, _, rs) =
      absurd (IsServing-not x sv (All-at IsReturned front back x rs))
  change_output_stage waited i fs front back x os u sv (_, _, rs, _) =
      absurd (IsServing-not x sv (All-at IsReturned front back x rs))

  pub change_output-Sound :
      (s : System) (front back : List Outputting) (x y : Outputting)
      → Sound s
      → s.outputs ≡ front ++ x ∷ back
      → IsServing x
      → channel_of x ≡ channel_of y
      → (IsOutputSound s.stage s.outch x → IsOutputSound s.stage s.outch y)
      → Sound (record s { outputs = front ++ y ∷ back })
  change_output-Sound s front back x y h e sv same f = record {
    stage =
        change_output_stage s.stage s.inputting s.filters front back x (front ++ y ∷ back)
          s.uploading sv
          (subst (λ os. IsStageSound s.stage s.inputting s.filters os s.uploading) e h.stage);
    read = h.read;
    filters = h.filters;
    below = h.below;
    outputs =
        All-replace (IsOutputSound s.stage s.outch) front back x y f
          (subst (All (IsOutputSound s.stage s.outch)) e h.outputs);
    channels = sym (map_replace front back x y same) ∙ sym (ap (map channel_of) e) ∙ h.channels;
    procs = h.procs;
  }

  pub change_filter-Sound :
      (s : System) (front back : List Filtering) (rs : List OutputRecord) (y : Filtering)
      → Sound s
      → s.filters ≡ front ++ filtering rs ∷ back
      → (All IsBelow rs → IsFilterSound s.stage s.inch y)
      → Sound (record s { filters = front ++ y ∷ back })
  change_filter-Sound s front back rs y h e f =
      let stage =
        subst (λ fs. IsStageSound s.stage s.inputting fs s.outputs s.uploading) e h.stage in
      record {
        stage =
            change_filters s.stage s.inputting (front ++ filtering rs ∷ back) (front ++ y ∷ back)
              s.outputs s.uploading
              (filtering-IsEarly s.stage s.inputting front back rs s.outputs s.uploading stage)
              stage;
        read = h.read;
        filters =
            All-replace (IsFilterSound s.stage s.inch) front back (filtering rs) y f
              (subst (All (IsFilterSound s.stage s.inch)) e h.filters);
        below = h.below;
        outputs = h.outputs;
        channels = h.channels;
        procs = omega (arith, length-append front (y ∷ back));
      }

  -- Records are sent while a filter process has not returned.
  pub send_record-Sound :
      (s : System) (front back : List Filtering) (r : OutputRecord) (rs : List OutputRecord)
      → Sound s
      → s.filters ≡ front ++ filtering (r ∷ rs) ∷ back
      → Sound (record s { outch = s.outch ++ r ∷ [] })
  send_record-Sound s front back r rs h e =
      let early =
        filtering-IsEarly s.stage s.inputting front back (r ∷ rs) s.outputs s.uploading
          (subst (λ fs. IsStageSound s.stage s.inputting fs s.outputs s.uploading) e h.stage) in
      let (here, _) =
        All-at (IsFilterSound s.stage s.inch) front back (filtering (r ∷ rs))
          (subst (All (IsFilterSound s.stage s.inch)) e h.filters) in
      record {
        stage = h.stage;
        read = h.read;
        filters = h.filters;
        below = All-append IsBelow s.outch (r ∷ []) h.below (here, tt);
        outputs =
            All-map s.outputs (λ o. still_open s.stage s.outch (s.outch ++ r ∷ []) early o)
              h.outputs;
        channels = h.channels;
        procs = h.procs;
      }
    where
      still_open :
          (stage : Stage) (a b : List OutputRecord)
          → IsEarly stage
          → (o : Outputting) → IsOutputSound stage a o
          → IsOutputSound stage b o
      still_open stage a b early (reading_from c ps) h = tt
      still_open stage a b early (closing c ps) (closed, none_left) =
          absurd (true≢false (sym closed ∙ IsEarly-open stage c early))
      still_open stage a b early (returned_from c) (closed, none_left) =
          absurd (true≢false (sym closed ∙ IsEarly-open stage c early))
