-- ===== src/Topology/Lifecycle.antt =====
-- topology.go: how the goroutines that Start starts, and Wait, run side by side. An input, filter
-- processes, outputs and an upload pass data on through channels, which Wait closes in turn when those
-- that send on them have returned. What a component sends, and when the input ends, is left open.
pub mod Parts
pub mod Sound
pub mod Steps
pub mod Ends
pub mod Live
pub mod Waited
use mathlib.Core.Option.{Option, none, some}
use baker.Common.{
  Bytes, List, [], ◌∷◌, ◌++◌, ℕ, zero, suc, ◌+◌, ◌<◌, Bool, true, false, if◌then◌else◌, length, All,
  ltb, ◌==◌, ◌≡◌,
}
use baker.Topology.{OutputRecord}

-- The channels: room for chunks, room for records in each, and how many there are for records; and of
-- each output, on which it reads: its own with sharding, else the first.
pub record Channels : Type 0 where
  pub input_size : ℕ
  pub output_size : ℕ
  pub count : ℕ
  pub read_by : List ℕ

-- A filter process, with what it is still to send of the chunk that it has received.
pub data Filtering : Type 0 where
  filtering : List OutputRecord → Filtering
  filtered : Filtering

-- An output, on its channel, with the paths that it is still to send: it reads, it has seen the channel
-- closed, or it has returned.
pub data Outputting : Type 0 where
  reading_from : ℕ → List Bytes → Outputting
  closing : ℕ → List Bytes → Outputting
  returned_from : ℕ → Outputting

-- Where Wait is.
pub data Stage : Type 0 where
  wgfil : Stage
  wginp : Stage
  closing_outch : ℕ → Stage
  wgout : Stage
  wgupl : Stage
  waited : Stage

pub record System : Type 0 where
  pub stage : Stage
  -- what the input is still to send, and whether it has not returned
  pub to_read : List Bytes
  pub inputting : Bool
  pub inch : List Bytes
  pub filters : List Filtering
  -- the records in all channels, with the number of theirs
  pub outch : List OutputRecord
  pub outputs : List Outputting
  pub uploading : Bool

-- `inch` and the channels for records, once Wait has closed them
abbrev pub inch_closed : Stage → Bool
inch_closed wginp = false
inch_closed wgfil = true
inch_closed (closing_outch k) = true
inch_closed wgout = true
inch_closed wgupl = true
inch_closed waited = true

abbrev pub outch_closed : Stage → ℕ → Bool
outch_closed wginp c = false
outch_closed wgfil c = false
outch_closed (closing_outch k) c = ltb c k
outch_closed wgout c = true
outch_closed wgupl c = true
outch_closed waited c = true

-- How many records are in a channel, and the first of them with the rest.
abbrev pub queued : ℕ → List OutputRecord → ℕ
queued c [] = 0
queued c (r ∷ rs) = (if r.channel == c then 1 else 0) + queued c rs

abbrev pub receive : ℕ → List OutputRecord → Option (OutputRecord × List OutputRecord)
receive c [] = none
receive c (r ∷ rs) =
    let later = receive c rs in
    if r.channel == c
    then some (r, rs)
    else elim later [ none ↦ none | some (q, rest) ↦ some (q, r ∷ rest) ]

abbrev pub channel_of : Outputting → ℕ
channel_of (reading_from c ps) = c
channel_of (closing c ps) = c
channel_of (returned_from c) = c

abbrev pub IsFiltered : Filtering → Type 0
IsFiltered (filtering rs) = ⊥
IsFiltered filtered = Unit

abbrev pub IsReturned : Outputting → Type 0
IsReturned (reading_from c ps) = ⊥
IsReturned (closing c ps) = ⊥
IsReturned (returned_from c) = Unit

module _ (p : Channels) where
  -- A step of one of the goroutines
  pub data Step (s : System) : System → Type 0 where
    input_sends :
        (c : Bytes) (cs : List Bytes)
        → s.inputting ≡ true
        → s.to_read ≡ c ∷ cs
        → length s.inch < p.input_size
        → Step s (record s { to_read = cs; inch = s.inch ++ c ∷ [] })
    input_returns : s.inputting ≡ true → s.to_read ≡ [] → Step s (record s { inputting = false })
    filter_receives :
        (front back : List Filtering) (c : Bytes) (cs : List Bytes) (rs : List OutputRecord)
        → s.filters ≡ front ++ filtering [] ∷ back
        → s.inch ≡ c ∷ cs
        → All (λ r. r.channel < p.count) rs
        → Step s (record s { inch = cs; filters = front ++ filtering rs ∷ back })
    filter_sends :
        (front back : List Filtering) (r : OutputRecord) (rs : List OutputRecord)
        → s.filters ≡ front ++ filtering (r ∷ rs) ∷ back
        → queued r.channel s.outch < p.output_size
        → Step s (record s { outch = s.outch ++ r ∷ []; filters = front ++ filtering rs ∷ back })
    filter_returns :
        (front back : List Filtering)
        → s.filters ≡ front ++ filtering [] ∷ back
        → s.inch ≡ []
        → inch_closed s.stage ≡ true
        → Step s (record s { filters = front ++ filtered ∷ back })
    output_receives :
        (front back : List Outputting) (c : ℕ) (r : OutputRecord) (rest : List OutputRecord)
        (ps : List Bytes)
        → s.outputs ≡ front ++ reading_from c [] ∷ back
        → receive c s.outch ≡ some (r, rest)
        → Step s (record s { outch = rest; outputs = front ++ reading_from c ps ∷ back })
    output_sends :
        (front back : List Outputting) (c : ℕ) (q : Bytes) (ps : List Bytes)
        → s.outputs ≡ front ++ reading_from c (q ∷ ps) ∷ back
        → s.uploading ≡ true
        → Step s (record s { outputs = front ++ reading_from c ps ∷ back })
    output_closes :
        (front back : List Outputting) (c : ℕ) (ps : List Bytes)
        → s.outputs ≡ front ++ reading_from c [] ∷ back
        → receive c s.outch ≡ none
        → outch_closed s.stage c ≡ true
        → Step s (record s { outputs = front ++ closing c ps ∷ back })
    output_sends_last :
        (front back : List Outputting) (c : ℕ) (q : Bytes) (ps : List Bytes)
        → s.outputs ≡ front ++ closing c (q ∷ ps) ∷ back
        → s.uploading ≡ true
        → Step s (record s { outputs = front ++ closing c ps ∷ back })
    output_returns :
        (front back : List Outputting) (c : ℕ)
        → s.outputs ≡ front ++ closing c [] ∷ back
        → Step s (record s { outputs = front ++ returned_from c ∷ back })
    -- `upch` is closed, and holds nothing since it has no buffer.
    upload_returns : s.uploading ≡ true → s.stage ≡ wgupl → Step s (record s { uploading = false })
    input_waited : s.stage ≡ wginp → s.inputting ≡ false → Step s (record s { stage = wgfil })
    filters_waited :
        s.stage ≡ wgfil → All IsFiltered s.filters → Step s (record s { stage = closing_outch 0 })
    outch_closes :
        (k : ℕ)
        → s.stage ≡ closing_outch k
        → k < p.count
        → Step s (record s { stage = closing_outch (suc k) })
    all_closed : s.stage ≡ closing_outch p.count → Step s (record s { stage = wgout })
    outputs_waited :
        s.stage ≡ wgout → All IsReturned s.outputs → Step s (record s { stage = wgupl })
    upload_waited : s.stage ≡ wgupl → s.uploading ≡ false → Step s (record s { stage = waited })

  -- What Start starts, with what the input is going to send
  abbrev pub idle_filters : ℕ → List Filtering
  idle_filters zero = []
  idle_filters (suc n) = filtering [] ∷ idle_filters n

  abbrev pub idle_outputs : List ℕ → List Outputting
  idle_outputs [] = []
  idle_outputs (c ∷ cs) = reading_from c [] ∷ idle_outputs cs

  abbrev pub start : ℕ → List Bytes → System
  start filter_procs to_read = record {
    stage = wginp;
    to_read = to_read;
    inputting = true;
    inch = [];
    filters = idle_filters filter_procs;
    outch = [];
    outputs = idle_outputs p.read_by;
    uploading = true;
  }

  pub data Reach (filter_procs : ℕ) (to_read : List Bytes) : System → Type 0 where
    started : Reach filter_procs to_read (start filter_procs to_read)
    later : {s t : System} → Reach filter_procs to_read s → Step s t → Reach filter_procs to_read t
