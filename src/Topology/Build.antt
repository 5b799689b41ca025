-- ===== src/Topology/Build.antt =====
-- topology.go: NewTopologyFromConfig, on a configuration whose components have been found.
pub mod Ready
mod Tests
use mathlib.Core.Option.{Option, none, some}
use baker.Common.{
  Bytes, List, [], ◌∷◌, map, ℕ, zero, suc, ◌+◌, ℤ, pos, negsuc, Result, ok, err, bad_config, panic,
  out_of_fuel, ◌>>=◌, Bool, true, false, not, ◌&&◌, if◌then◌else◌, length, ◌==◌,
}
use baker.Record.{FieldIndex}
use baker.Filter.Names.{FieldByName, resolve, resolve_all}
use baker.Config.{Sizes, ValidationFunc}
use baker.Topology.Univocal.{make_univocal}
use baker.Topology.Lifecycle.{Channels}

-- What the constructors of the components return, and `strings.ToLower`: whether New of the metrics
-- client, the input, each filter and output, and the upload succeeds, and whether an output can shard.
pub record Constructors : Type 0 where
  pub new_metrics : Bool
  pub new_input : Bool
  pub new_filter : ℕ → Bool
  pub new_output : ℕ → Bool
  pub can_shard : Bool
  pub new_upload : Bool
  pub to_lower : Bytes → Bytes

module _ (R : Type 0) where
  -- `Config`, as far as a topology is made of it. A function that is not set is `none`.
  pub record Settled : Type 0 where
    pub sizes : Sizes
    pub raw : Bool
    pub metrics : Bytes
    pub filters : List Bytes
    pub fields : List Bytes
    pub sharding : Bytes
    pub upload : Bytes
    pub dont_validate_fields : Bool
    pub field_by_name : FieldByName
    pub sharding_funcs : FieldIndex → Option (R → ℕ)
    pub validate : ValidationFunc R

  -- `Topology`, with the room of the channels; a channel for records that is nil has none.
  pub record Topology : Type 0 where
    pub filter_procs : ℤ
    pub raw_output : Bool
    pub filter_names : List Bytes
    pub out_fields : List FieldIndex
    pub outputs : ℕ
    pub inch : ℕ
    pub outch : List (Option ℕ)
    pub shard : Option (R → ℕ)
    pub validate : Option (ValidationFunc R)

-- A constructor that fails ends NewTopologyFromConfig with its error.
abbrev pub check : Bool → Result Bool
check true = ok true
check false = err bad_config

-- A constructor that is called if the component has a name
abbrev pub check_named : Bytes → Bool → Result Bool
check_named name made = if length name == 0 then ok true else check made

-- `tp.Output[0].CanShard()`, for as many outputs
abbrev pub check_shard : Bool → ℕ → Result Bool
check_shard can_shard zero = panic
check_shard can_shard (suc n) = check can_shard

-- `make(chan T, n)` and `make([]T, n)`, which panic where n is negative
abbrev pub make_size : ℤ → Result ℕ
make_size (pos n) = ok n
make_size (negsuc n) = panic

-- How often a loop from 0 below n runs
abbrev pub rounds : ℤ → ℕ
rounds (pos n) = n
rounds (negsuc n) = 0

-- A loop that calls a constructor n times, from number i on
unfoldable pub check_all : (ℕ → Bool) → ℕ → ℕ → Result Bool
check_all f i zero = ok true
check_all f i (suc n) = do done ← check (f i); check_all f (suc i) n

-- A channel for each output
abbrev pub own_channels : ℕ → ℕ → List (Option ℕ)
own_channels zero size = []
own_channels (suc n) size = some size ∷ own_channels n size

-- One channel, for all outputs; with none, the index 0 is out of range.
abbrev pub nil_channels : ℕ → List (Option ℕ)
nil_channels zero = []
nil_channels (suc n) = none ∷ nil_channels n

abbrev pub first_channel : ℕ → ℕ → Result (List (Option ℕ))
first_channel zero size = panic
first_channel (suc n) size = ok (some size ∷ nil_channels n)

module _ {R : Type 0} (k : Constructors) where
  -- The sharding function and the channels for records
  -- Without sharding
  unfoldable pub one_channel : Settled R → ℕ → Result (Option (R → ℕ) × List (Option ℕ))
  one_channel cfg procs = do
    size ← make_size cfg.sizes.output_chan_size
    channels ← first_channel procs size
    ok (none, channels)

  abbrev pub sharding_func : Settled R → FieldIndex → Result (R → ℕ)
  sharding_func cfg field = elim (cfg.sharding_funcs field) [
    | none ↦ err bad_config
    | some f ↦ ok f
  ]

  -- With sharding
  unfoldable pub sharded_channels : Settled R → ℕ → Result (Option (R → ℕ) × List (Option ℕ))
  unfolding resolve
  sharded_channels cfg procs = do
    field ← resolve cfg.field_by_name cfg.sharding
    shard ← sharding_func cfg field
    able ← check_shard k.can_shard procs
    size ← make_size cfg.sizes.output_chan_size
    ok (some shard, own_channels procs size)

  unfoldable pub shard_channels : Settled R → ℕ → Result (Option (R → ℕ) × List (Option ℕ))
  unfolding one_channel sharded_channels
  shard_channels cfg procs =
      if length cfg.sharding == 0 then one_channel cfg procs else sharded_channels cfg procs

  unfoldable pub new_topology : Settled R → Result (Topology R)
  unfolding check_all resolve_all shard_channels make_univocal
  new_topology cfg = do
    metrics ← check_named cfg.metrics k.new_metrics
    input ← check k.new_input
    filters ← check_all k.new_filter 0 (length cfg.filters)
    some_field ← check (not (length cfg.fields == 0 && not cfg.raw))
    out_fields ← resolve_all cfg.field_by_name cfg.fields
    outputs ← check_all k.new_output 0 (rounds cfg.sizes.output_procs)
    inch ← make_size cfg.sizes.input_chan_size
    procs ← make_size cfg.sizes.output_procs
    (shard, outch) ← shard_channels cfg procs
    upload ← check_named cfg.upload k.new_upload
    ok (record {
      filter_procs = cfg.sizes.procs;
      raw_output = cfg.raw;
      filter_names = make_univocal (map k.to_lower cfg.filters);
      out_fields = out_fields;
      outputs = procs;
      inch = inch;
      outch = outch;
      shard = shard;
      validate = if cfg.dont_validate_fields then none else some cfg.validate;
    })

-- How many of the channels are not nil, and the room of the first.
abbrev pub count_made : List (Option ℕ) → ℕ
count_made [] = 0
count_made (none ∷ cs) = count_made cs
count_made (some n ∷ cs) = suc (count_made cs)

abbrev pub first_room : List (Option ℕ) → ℕ
first_room [] = 0
first_room (none ∷ cs) = first_room cs
first_room (some n ∷ cs) = n

-- The channel that Start gives to each output: its own, or the first where that is nil.
abbrev pub read_from : ℕ → List (Option ℕ) → List ℕ
read_from i [] = []
read_from i (none ∷ cs) = 0 ∷ read_from (suc i) cs
read_from i (some n ∷ cs) = i ∷ read_from (suc i) cs

abbrev pub channels_of : {R : Type 0} → Topology R → Channels
channels_of t = record {
  input_size = t.inch;
  output_size = first_room t.outch;
  count = count_made t.outch;
  read_by = read_from 0 t.outch;
}
