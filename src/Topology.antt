-- ===== src/Topology.antt =====
-- topology.go: the filter chain that a topology runs on the chunks of text of its input. Here one
-- filter process is modelled, with the channels to the outputs as the list of what was sent on them.
-- The pool of records hands out a record as `fresh`: new, or cleared before it was put back.
pub mod Lines
pub mod Accounting
pub mod Sharding
pub mod Univocal
pub mod Lifecycle
pub mod Build
mod Tests
use mathlib.Core.Option.{Option, none, some}
use baker.Common.{
  Bytes, List, [], ◌∷◌, ◌++◌, ℕ, zero, suc, ◌+◌, ◌-◌, ◌%◌, Result, Error, ok, err, panic,
  out_of_fuel, ◌>>=◌, Bool, true, false, not, if◌then◌else◌, length, ◌==◌, ◌||◌,
}
use baker.Record.{FieldIndex, Slice, nil, bytes, content, Metadata}
use baker.RecordType.{RecordType}
use baker.Filter.Interface.{FilterType}

-- What filterChainEnd sends, and the index of the channel that it sends it on.
pub record OutputRecord : Type 0 where
  pub channel : ℕ
  pub raw : Slice
  pub fields : List Bytes

-- `t.invalid[idx]++` on the map of validation errors
unfoldable pub count_invalid_field : FieldIndex → List (FieldIndex × ℕ) → List (FieldIndex × ℕ)
count_invalid_field idx [] = (idx, 1) ∷ []
count_invalid_field idx ((f, n) ∷ m) =
    if f == idx then (f, n + 1) ∷ m else (f, n) ∷ count_invalid_field idx m

-- `bytes.IndexByte(data, '\n')`, the line before it and what is behind it; all of the data if there
-- is none.
unfoldable pub next_line : Bytes → Bytes × Bytes
next_line [] = ([], [])
next_line (c ∷ cs) =
    let (line, rest) = next_line cs in if c == b'\n' then ([], cs) else (c ∷ line, rest)

-- The topology's settings.
pub record Settings {V : Type 0} (T : RecordType V) : Type 0 where
  pub fresh : T.Rec
  pub raw_output : Bool
  pub out_fields : List FieldIndex
  pub channels : ℕ
  pub shard : Option (T.Rec → ℕ)
  pub validate : Option (T.Rec → Bool × FieldIndex)

module _ {V : Type 0} (T : RecordType V) (P : FilterType T) (s : Settings T) where
  pub record State : Type 0 where
    pub filters : List P.F
    pub malformed : ℕ
    pub invalid : List (FieldIndex × ℕ)
    pub sent : List OutputRecord

  -- What a filter hands to `next`: the rest of the chain runs on it, if it called `next`.
  unfoldable pub call_next :
      (T.Rec → Result (List P.F × Option T.Rec))
      → List P.F
      → P.F × Option T.Rec
      → Result (List P.F × Option T.Rec)
  call_next next fs (f, none) = ok (f ∷ fs, none)
  call_next next fs (f, some l) = do (fs', o) ← next l; ok (f ∷ fs', o)

  -- The filters, one after the other, until one of them drops the record.
  unfoldable pub run_filters : List P.F → T.Rec → Result (List P.F × Option T.Rec)
  unfolding call_next
  run_filters [] l = ok ([], some l)
  run_filters (f ∷ fs) l = P.process f l >>= call_next (λ l'. run_filters fs l') fs

  unfoldable pub output_fields : List FieldIndex → T.Rec → Result (List Bytes)
  output_fields [] l = ok []
  output_fields (f ∷ fs) l = do v ← T.get l f; vs ← output_fields fs l; ok (content v ∷ vs)

  -- The channel: by the sharding function, or the first. An index modulo 0 panics.
  unfoldable pub choose_channel : Option (T.Rec → ℕ) → T.Rec → Result ℕ
  choose_channel none l = ok 0
  choose_channel (some shard) l = if s.channels == 0 then panic else ok (shard l % s.channels)

  -- `l.ToText(nil)` if the output wants the raw record
  unfoldable pub raw_record : T.Rec → Result Slice
  raw_record l = if s.raw_output then (do b ← T.to_text l []; ok (bytes b)) else ok nil

  unfoldable pub filter_chain_end : T.Rec → State → Result State
  unfolding output_fields choose_channel raw_record
  filter_chain_end l t = do
    raw ← raw_record l
    out ← output_fields s.out_fields l
    channel ← choose_channel s.shard l
    let sent = t.sent ++ record { channel = channel; raw = raw; fields = out } ∷ []
    ok (record t { sent = sent })

  -- What is done with the record that passed the filters, if it did.
  unfoldable pub chain_end : Option T.Rec → State → Result State
  chain_end none t = ok t
  chain_end (some l) t = filter_chain_end l t

  -- `tp.chain`
  unfoldable pub chain : T.Rec → State → Result State
  unfolding chain_end
  chain l t = do (fs, o) ← run_filters t.filters l; chain_end o (record t { filters = fs })

  -- `t.validate`, if validation is on; `none` for a valid record.
  unfoldable pub validate_record : Option (T.Rec → Bool × FieldIndex) → T.Rec → Option FieldIndex
  validate_record none l = none
  validate_record (some validate) l = if (validate l).0 then none else some (validate l).1

  unfoldable pub validated : Option FieldIndex → T.Rec → State → Result State
  validated (some idx) l t = ok (record t { invalid = count_invalid_field idx t.invalid })
  validated none l t = chain l t

  -- The body of the loop over the lines.
  unfoldable pub run_line : Metadata V → Bytes → State → Result State
  run_line md line t = elim (T.parse s.fresh (bytes line) md).1 [
    | some e ↦ ok (record t { malformed = t.malformed + 1 })
    | none ↦
        if length line == 0
        then ok (record t { malformed = t.malformed + 1 })
        else let l = (T.parse s.fresh (bytes line) md).0 in
          validated (validate_record s.validate l) l t
  ]

  -- `for len(data) > 0`
  unfoldable pub run_data : ℕ → Metadata V → Bytes → State → Result State
  run_data zero md data' t = out_of_fuel
  run_data (suc fuel) md data' t =
      if length data' == 0
      then ok t
      else do t' ← run_line md (next_line data').0 t; run_data fuel md (next_line data').1 t'

  -- `for bakerData := range t.inch`, over the chunks that the input sends
  unfoldable pub run_filter_chain : List (Bytes × Metadata V) → State → Result State
  run_filter_chain [] t = ok t
  run_filter_chain ((data', md) ∷ chunks) t = do
    t' ← run_data (suc (length data')) md data' t
    run_filter_chain chunks t'
