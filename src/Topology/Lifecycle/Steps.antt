-- ===== src/Topology/Lifecycle/Steps.antt =====
-- topology.go: every step of the system keeps what holds of its goroutines.
use mathlib.Core.Option.{some}
use mathlib.Core.Bool.{true≢false}
use baker.Common.{
  Bytes, List, [], ◌∷◌, ◌++◌, map, ℕ, zero, suc, ◌<◌, Bool, true, false, ltb, length, All, ◌≡◌,
  refl, sym, ap, subst, ◌∙◌, inl, inr, arith,
}
use baker.Topology.{OutputRecord}
use baker.Topology.Lifecycle.{
  Channels, Filtering, filtering, filtered, Outputting, reading_from, closing, returned_from, Stage,
  wginp, wgfil, closing_outch, wgout, wgupl, waited, System, inch_closed, outch_closed, receive,
  channel_of, Step, input_sends, input_returns, filter_receives, filter_sends, filter_returns,
  output_receives, output_sends, output_closes, output_sends_last, output_returns, upload_returns,
  input_waited, filters_waited, outch_closes, all_closed, outputs_waited, upload_waited,
  idle_filters, idle_outputs, Reach, started, later,
}
use baker.Topology.Lifecycle.Parts.{All-map, queued-none, receive-queued, receive-All}
use baker.Topology.Lifecycle.Sound.{
  IsBelow, IsFilterSound, IsOutputSound, IsStageSound, Sound, change_output-Sound,
  change_filter-Sound, send_record-Sound,
}

module _ (p : Channels) where
  pub inputting-wginp :
      (stage : Stage) (i : Bool) (fs : List Filtering) (os : List Outputting) (u : Bool)
      → IsStageSound p stage i fs os u
      → i ≡ true
      → stage ≡ wginp
  inputting-wginp wginp i fs os u h e = refl
  inputting-wginp wgfil i fs os u (off, _) e = absurd (true≢false (sym e ∙ off))
  inputting-wginp (closing_outch k) i fs os u (off, _, _, _) e = absurd (true≢false (sym e ∙ off))
  inputting-wginp wgout i fs os u (off, _, _) e = absurd (true≢false (sym e ∙ off))
  inputting-wginp wgupl i fs os u (off, _, _) e = absurd (true≢false (sym e ∙ off))
  inputting-wginp waited i fs os u (off, _, _, _) e = absurd (true≢false (sym e ∙ off))

  change_inputting :
      (stage : Stage) (i : Bool) (fs : List Filtering) (os : List Outputting) (u : Bool)
      → IsStageSound p stage i fs os u
      → IsStageSound p stage false fs os u
  change_inputting wginp i fs os u h = h
  change_inputting wgfil i fs os u (off, h) = (refl, h)
  change_inputting (closing_outch k) i fs os u (off, a, b, c) = (refl, a, b, c)
  change_inputting wgout i fs os u (off, a, b) = (refl, a, b)
  change_inputting wgupl i fs os u (off, a, b) = (refl, a, b)
  change_inputting waited i fs os u (off, a, b, c) = (refl, a, b, c)

  -- No filter process returns while its channel is open.
  open-FilterSound :
      (stage : Stage) (a b : List Bytes) (f : Filtering)
      → inch_closed stage ≡ false
      → IsFilterSound p stage a f
      → IsFilterSound p stage b f
  open-FilterSound stage a b (filtering rs) e h = h
  open-FilterSound stage a b filtered e (closed, _) = absurd (true≢false (sym closed ∙ e))

  stage-FilterSound :
      (a b : Stage) (inch : List Bytes) (f : Filtering)
      → inch_closed b ≡ true
      → IsFilterSound p a inch f
      → IsFilterSound p b inch f
  stage-FilterSound a b inch (filtering rs) e h = h
  stage-FilterSound a b inch filtered e (_, h) = (e, h)

  receive-FilterSound :
      (stage : Stage) (c : Bytes) (cs : List Bytes) (f : Filtering)
      → IsFilterSound p stage (c ∷ cs) f
      → IsFilterSound p stage cs f
  receive-FilterSound stage c cs (filtering rs) h = h
  receive-FilterSound stage c cs filtered (_, e) = cc

  stage-OutputSound :
      (a b : Stage) (outch : List OutputRecord) (o : Outputting)
      → ((c : ℕ) → outch_closed a c ≡ true → outch_closed b c ≡ true)
      → IsOutputSound p a outch o
      → IsOutputSound p b outch o
  stage-OutputSound a b outch (reading_from c ps) f h = tt
  stage-OutputSound a b outch (closing c ps) f (e, h) = (f c e, h)
  stage-OutputSound a b outch (returned_from c) f (e, h) = (f c e, h)

  receive-OutputSound :
      (stage : Stage) (c : ℕ) (outch : List OutputRecord) (r : OutputRecord)
      (rest : List OutputRecord) (o : Outputting)
      → receive c outch ≡ some (r, rest)
      → IsOutputSound p stage outch o
      → IsOutputSound p stage rest o
  receive-OutputSound stage c outch r rest (reading_from d ps) call h = tt
  receive-OutputSound stage c outch r rest (closing d ps) call (e, h) =
      (e, omega (arith, h, receive-queued c d outch r rest call))
  receive-OutputSound stage c outch r rest (returned_from d) call (e, h) =
      (e, omega (arith, h, receive-queued c d outch r rest call))

  -- Wait goes on.
  stage-Sound :
      (s : System) (next : Stage)
      → Sound p s
      → inch_closed next ≡ true
      → ((c : ℕ) → outch_closed s.stage c ≡ true → outch_closed next c ≡ true)
      → IsStageSound p next s.inputting s.filters s.outputs s.uploading
      → Sound p (record s { stage = next })
  stage-Sound s next h e f now = record {
    stage = now;
    read = h.read;
    filters = All-map s.filters (λ g. stage-FilterSound s.stage next s.inch g e) h.filters;
    below = h.below;
    outputs = All-map s.outputs (λ o. stage-OutputSound s.stage next s.outch o f) h.outputs;
    channels = h.channels;
    procs = h.procs;
  }

  pub at_stage :
      (s : System) (stage : Stage)
      → Sound p s
      → s.stage ≡ stage
      → IsStageSound p stage s.inputting s.filters s.outputs s.uploading
  at_stage s stage h e =
      subst (λ g. IsStageSound p g s.inputting s.filters s.outputs s.uploading) e h.stage

  closed_later : (k c : ℕ) → ltb c k ≡ true → ltb c (suc k) ≡ true
  closed_later k c e = ground arith

  send_chunk-Sound :
      (s : System) (cs : List Bytes) (inch : List Bytes)
      → Sound p s
      → s.inputting ≡ true
      → Sound p (record s { to_read = cs; inch = inch })
  send_chunk-Sound s cs inch h on =
      let e = inputting-wginp s.stage s.inputting s.filters s.outputs s.uploading h.stage on in
      record {
        stage = h.stage;
        read = inl on;
        filters =
            All-map s.filters (λ f. open-FilterSound s.stage s.inch inch f (ap inch_closed e))
              h.filters;
        below = h.below;
        outputs = h.outputs;
        channels = h.channels;
        procs = h.procs;
      }

  take_chunk-Sound :
      (s : System) (c : Bytes) (cs : List Bytes)
      → Sound p s
      → s.inch ≡ c ∷ cs
      → Sound p (record s { inch = cs })
  take_chunk-Sound s c cs h e = record {
    stage = h.stage;
    read = h.read;
    filters =
        All-map s.filters (receive-FilterSound s.stage c cs)
          (subst (λ u. All (IsFilterSound p s.stage u) s.filters) e h.filters);
    below = h.below;
    outputs = h.outputs;
    channels = h.channels;
    procs = h.procs;
  }

  take_record-Sound :
      (s : System) (c : ℕ) (r : OutputRecord) (rest : List OutputRecord)
      → Sound p s
      → receive c s.outch ≡ some (r, rest)
      → Sound p (record s { outch = rest })
  take_record-Sound s c r rest h e = record {
    stage = h.stage;
    read = h.read;
    filters = h.filters;
    below = receive-All (IsBelow p) c s.outch r rest e h.below;
    outputs = All-map s.outputs (λ o. receive-OutputSound s.stage c s.outch r rest o e) h.outputs;
    channels = h.channels;
    procs = h.procs;
  }

  input_returns-Sound :
      (s : System) → Sound p s → s.to_read ≡ [] → Sound p (record s { inputting = false })
  input_returns-Sound s h e = record {
    stage = change_inputting s.stage s.inputting s.filters s.outputs s.uploading h.stage;
    read = inr e;
    filters = h.filters;
    below = h.below;
    outputs = h.outputs;
    channels = h.channels;
    procs = h.procs;
  }

  upload_returns-Sound :
      (s : System) → Sound p s → s.stage ≡ wgupl → Sound p (record s { uploading = false })
  upload_returns-Sound s h e = record {
    stage =
        subst (λ g. IsStageSound p g s.inputting s.filters s.outputs false) (sym e)
          (at_stage s wgupl h e);
    read = h.read;
    filters = h.filters;
    below = h.below;
    outputs = h.outputs;
    channels = h.channels;
    procs = h.procs;
  }

  pub Step-Sound : (s t : System) → Sound p s → Step p s t → Sound p t
  Step-Sound s t h (input_sends c cs on some_left room) =
      send_chunk-Sound s cs (s.inch ++ c ∷ []) h on
  Step-Sound s t h (input_returns on e) = input_returns-Sound s h e
  Step-Sound s t h (filter_receives front back c cs rs e some_left below) =
      change_filter-Sound p (record s { inch = cs }) front back [] (filtering rs)
        (take_chunk-Sound s c cs h some_left) e (λ _. below)
  Step-Sound s t h (filter_sends front back r rs e room) =
      change_filter-Sound p (record s { outch = s.outch ++ r ∷ [] }) front back (r ∷ rs)
        (filtering rs) (send_record-Sound p s front back r rs h e) e (λ q. q.1)
  Step-Sound s t h (filter_returns front back e none_left closed) =
      change_filter-Sound p s front back [] filtered h e (λ _. (closed, none_left))
  Step-Sound s t h (output_receives front back c r rest ps e call) =
      change_output-Sound p (record s { outch = rest }) front back (reading_from c [])
        (reading_from c ps) (take_record-Sound s c r rest h call) e tt refl (λ _. tt)
  Step-Sound s t h (output_sends front back c q ps e on) =
      change_output-Sound p s front back (reading_from c (q ∷ ps)) (reading_from c ps) h e tt refl
        (λ _. tt)
  Step-Sound s t h (output_closes front back c ps e call closed) =
      change_output-Sound p s front back (reading_from c []) (closing c ps) h e tt refl
        (λ _. (closed, queued-none c s.outch call))
  Step-Sound s t h (output_sends_last front back c q ps e on) =
      change_output-Sound p s front back (closing c (q ∷ ps)) (closing c ps) h e tt refl (λ k. k)
  Step-Sound s t h (output_returns front back c e) =
      change_output-Sound p s front back (closing c []) (returned_from c) h e tt refl (λ k. k)
  Step-Sound s t h (upload_returns on e) = upload_returns-Sound s h e
  Step-Sound s t h (input_waited e off) =
      stage-Sound s wgfil h refl (λ c q. absurd (true≢false (sym q ∙ ap (λ g. outch_closed g c) e)))
        (off, at_stage s wginp h e)
  Step-Sound s t h (filters_waited e fs) =
      let (off, on) = at_stage s wgfil h e in
      stage-Sound s (closing_outch 0) h refl
        (λ c q. absurd (true≢false (sym q ∙ ap (λ g. outch_closed g c) e)))
        (off, on, fs, omega arith)
  Step-Sound s t h (outch_closes k e more) =
      let (off, on, fs, _) = at_stage s (closing_outch k) h e in
      stage-Sound s (closing_outch (suc k)) h refl
        (λ c q. closed_later k c (subst (λ g. outch_closed g c ≡ true) e q)) (off, on, fs, more)
  Step-Sound s t h (all_closed e) =
      let (off, on, fs, _) = at_stage s (closing_outch p.count) h e in
      stage-Sound s wgout h refl (λ c q. refl) (off, on, fs)
  Step-Sound s t h (outputs_waited e os) =
      let (off, on, fs) = at_stage s wgout h e in
      stage-Sound s wgupl h refl (λ c q. refl) (off, fs, os)
  Step-Sound s t h (upload_waited e off') =
      let (off, fs, os) = at_stage s wgupl h e in
      stage-Sound s waited h refl (λ c q. refl) (off, fs, os, off')

  idle_filters-Sound : (n : ℕ) → All (IsFilterSound p wginp []) (idle_filters p n)
  idle_filters-Sound zero = tt
  idle_filters-Sound (suc n) = (tt, idle_filters-Sound n)

  idle_filters-length : (n : ℕ) → length (idle_filters p n) ≡ n
  idle_filters-length zero = refl
  idle_filters-length (suc n) = ap suc (idle_filters-length n)

  idle_outputs-Sound : (cs : List ℕ) → All (IsOutputSound p wginp []) (idle_outputs p cs)
  idle_outputs-Sound [] = tt
  idle_outputs-Sound (c ∷ cs) = (tt, idle_outputs-Sound cs)

  idle_outputs_channels : (cs : List ℕ) → map channel_of (idle_outputs p cs) ≡ cs
  idle_outputs_channels [] = refl
  idle_outputs_channels (c ∷ cs) = ap (◌∷◌ c) (idle_outputs_channels cs)

  pub Reach-Sound :
      (procs : ℕ) (to_read : List Bytes) (s : System)
      → 0 < procs
      → Reach p procs to_read s
      → Sound p s
  Reach-Sound procs to_read s l started = record {
    stage = refl;
    read = inl refl;
    filters = idle_filters-Sound procs;
    below = tt;
    outputs = idle_outputs-Sound p.read_by;
    channels = idle_outputs_channels p.read_by;
    procs = omega (arith, l, idle_filters-length procs);
  }
  Reach-Sound procs to_read s l (later {s = t} r st) =
      Step-Sound t s (Reach-Sound procs to_read t l r) st
