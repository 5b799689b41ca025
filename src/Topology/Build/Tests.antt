-- ===== src/Topology/Build/Tests.antt =====
-- The theorem on NewTopologyFromConfig, for two outputs.
use mathlib.Core.Option.{none, some}
use baker.Common.{
  Bytes, List, [], ◌∷◌, ℕ, pos, eqbℤ, ltbℤ, equal, ok, true, false, ◌≡◌, refl, arith,
}
use baker.Config.{Sizes, fill_defaults}
use baker.Topology.Lifecycle.{System, start, Reach, started, later, input_sends}
use baker.Topology.Lifecycle.Waited.{Completes}
use baker.Topology.Build.{Constructors, Settled, Topology, new_topology, channels_of}
use baker.Topology.Build.Ready.{new_topology-Completes}

abbrev constructors : Constructors
constructors = record {
  new_metrics = true;
  new_input = true;
  new_filter = λ i. true;
  new_output = λ i. true;
  can_shard = true;
  new_upload = true;
  to_lower = λ s. s;
}

-- Procs of the outputs is set; the other sizes are left to the defaults.
abbrev sizes : Sizes
sizes = record {
  input_chan_size = pos 0;
  procs = pos 0;
  output_chan_size = pos 0;
  output_procs = pos 2;
}

abbrev config : Settled ℕ
config = record {
  sizes = fill_defaults sizes;
  raw = false;
  metrics = [];
  filters = (b'a' ∷ []) ∷ (b'a' ∷ []) ∷ [];
  fields = (b'x' ∷ []) ∷ [];
  sharding = b'x' ∷ [];
  upload = [];
  dont_validate_fields = true;
  field_by_name = λ s. some 0;
  sharding_funcs = λ f. some (λ r. r);
  validate = λ r. ok (true, 0);
}

abbrev topology : Topology ℕ
topology = record {
  filter_procs = pos 16;
  raw_output = false;
  filter_names = (b'a' ∷ []) ∷ (b'a' ∷ b'_' ∷ b'2' ∷ []) ∷ [];
  out_fields = 0 ∷ [];
  outputs = 2;
  inch = 1024;
  outch = some 16384 ∷ some 16384 ∷ [];
  shard = some (λ r. r);
  validate = none;
}

made_topology : new_topology constructors config ≡ ok topology
unfolding new_topology fill_defaults eqbℤ ltbℤ equal
made_topology = refl

abbrev file : List Bytes
file = (b'a' ∷ b'\n' ∷ []) ∷ []

abbrev one_read : System
one_read = record (start (channels_of topology) 16 file) { to_read = []; inch = file }

one_read-Reach : Reach (channels_of topology) 16 file one_read
one_read-Reach = later started (input_sends (b'a' ∷ b'\n' ∷ []) [] refl refl (omega arith))

new_topology-Completes_example : Completes (channels_of topology) one_read
new_topology-Completes_example =
    new_topology-Completes constructors config sizes 0 topology file one_read refl refl
      made_topology one_read-Reach
