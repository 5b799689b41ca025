-- ===== src/Topology/Build/Ready.antt =====
-- topology.go: what NewTopologyFromConfig makes can be started, and Wait returns.
use mathlib.Core.Option.{Option}
use baker.Common.{
  Bytes, List, ℕ, zero, suc, ◌+◌, ◌≤◌, ◌<◌, ℤ, pos, negsuc, eqbℤ, ltbℤ, ok, ok-injective, returned,
  Bool, Bool-cases, false, not, ◌&&◌, if◌then◌else◌, length, ◌==◌, ◌≡◌, refl, sym, ap, subst, ◌∙◌,
  inl, inr, arith,
}
use baker.Filter.Names.{resolve, resolve_all}
use baker.Config.{Sizes, or_default, fill_defaults}
use baker.Topology.Lifecycle.{System, Reach}
use baker.Topology.Lifecycle.Live.{IsReadBy, IsReadable}
use baker.Topology.Lifecycle.Waited.{Completes, Reach-Completes}
use baker.Topology.Build.{
  Constructors, Settled, Topology, check, check_all, check_named, check_shard, sharding_func,
  make_size, rounds, own_channels, nil_channels, first_channel, one_channel, sharded_channels,
  shard_channels, new_topology, count_made, first_room, read_from, channels_of,
}

eqbℤ-pos_zero : (k : ℕ) → eqbℤ (pos k) (pos 0) ≡ false → 0 < k
unfolding eqbℤ ltbℤ
eqbℤ-pos_zero zero e = cc
eqbℤ-pos_zero (suc k) e = omega arith

make_size-pos : (n : ℤ) (m : ℕ) → eqbℤ n (pos 0) ≡ false → make_size n ≡ ok m → 0 < m
make_size-pos (pos k) m other e = omega (arith, eqbℤ-pos_zero k other, ok-injective e)
make_size-pos (negsuc k) m other e = cc

-- No default is 0.
make_size-or_default : (n : ℤ) (d m : ℕ) → 0 < d → make_size (or_default n (pos d)) ≡ ok m → 0 < m
make_size-or_default n d m l e = elim (Bool-cases (eqbℤ n (pos 0))) [
  | inl zero_size ↦
      omega (
        arith,
        l,
        ok-injective (subst (λ u. make_size (if u then pos d else n) ≡ ok m) zero_size e),
      )
  | inr other ↦
      make_size-pos n m other (subst (λ u. make_size (if u then pos d else n) ≡ ok m) other e)
]

rounds-or_default : (n d : ℕ) → 0 < d → 0 < rounds (or_default (pos n) (pos d))
rounds-or_default n d l = elim (Bool-cases (eqbℤ (pos n) (pos 0))) [
  | inl zero_size ↦ rw zero_size l
  | inr other ↦ rw other (eqbℤ-pos_zero n other)
]

own_channels_count : (n size : ℕ) → count_made (own_channels n size) ≡ n
own_channels_count zero size = refl
own_channels_count (suc n) size = ap suc (own_channels_count n size)

nil_channels_count : (n : ℕ) → count_made (nil_channels n) ≡ 0
nil_channels_count zero = refl
nil_channels_count (suc n) = nil_channels_count n

-- With a channel for each output, it is the output of the channel's number that reads it.
read_from-own_channels :
    (i n size c : ℕ) → i ≤ c → c < i + n → IsReadBy c (read_from i (own_channels n size))
read_from-own_channels i zero size c l h = absurd (omega (arith, l, h))
read_from-own_channels i (suc n) size c l h = elim (Bool-cases (i == c)) [
  | inl e ↦ inl (ground arith)
  | inr e ↦ inr (read_from-own_channels (suc i) n size c (ground arith) (omega (arith, h)))
]

-- The channels for records: they have room, and each has an output that reads it.
record AreRead (outch : List (Option ℕ)) : Type 0 where
  room : 0 < first_room outch
  covered : (c : ℕ) → c < count_made outch → IsReadBy c (read_from 0 outch)

own_channels-AreRead : (n size : ℕ) → 0 < n → 0 < size → AreRead (own_channels n size)
own_channels-AreRead zero size l h = absurd (omega (arith, l))
own_channels-AreRead (suc n) size l h = record {
  room = h;
  covered = λ c below.
      read_from-own_channels 0 (suc n) size c (omega arith)
        (omega (arith, below, own_channels_count n size));
}

first_channel-AreRead :
    (n size : ℕ) (outch : List (Option ℕ))
    → 0 < size
    → first_channel n size ≡ ok outch
    → AreRead outch
first_channel-AreRead zero size outch h e = cc
first_channel-AreRead (suc n) size outch h e =
    subst AreRead (ok-injective e)
      (record { room = h; covered = λ c below. inl (omega (arith, below, nil_channels_count n)) })

check_shard_some : (can_shard : Bool) (n : ℕ) (b : Bool) → check_shard can_shard n ≡ ok b → 0 < n
check_shard_some can_shard zero b e = cc
check_shard_some can_shard (suc n) b e = omega arith

module _ {R : Type 0} (k : Constructors) (cfg : Settled R) where
  -- Chunks and records have room.
  abbrev HasRoom : ℤ → Type 0
  HasRoom n = (m : ℕ) → make_size n ≡ ok m → 0 < m

  one_channel-AreRead :
      (procs : ℕ) (s : Option (R → ℕ)) (outch : List (Option ℕ))
      → HasRoom cfg.sizes.output_chan_size
      → one_channel k cfg procs ≡ ok (s, outch)
      → AreRead outch
  unfolding one_channel
  one_channel-AreRead procs s outch room e =
      let r = returned (make_size cfg.sizes.output_chan_size) _ e in
      let c = returned (first_channel procs r.value) _ r.rest in
      first_channel-AreRead procs r.value outch (room r.value r.call)
        (c.call ∙ ap ok (ap (λ u. u.1) (ok-injective c.rest)))

  sharded_channels-AreRead :
      (procs : ℕ) (s : Option (R → ℕ)) (outch : List (Option ℕ))
      → HasRoom cfg.sizes.output_chan_size
      → sharded_channels k cfg procs ≡ ok (s, outch)
      → AreRead outch
  unfolding sharded_channels
  sharded_channels-AreRead procs s outch room e =
      let f = returned (resolve cfg.field_by_name cfg.sharding) _ e in
      let g = returned (sharding_func k cfg f.value) _ f.rest in
      let able = returned (check_shard k.can_shard procs) _ g.rest in
      let size = returned (make_size cfg.sizes.output_chan_size) _ able.rest in
      subst AreRead (ap (λ u. u.1) (ok-injective size.rest)) (
        own_channels-AreRead procs size.value
          (check_shard_some k.can_shard procs able.value able.call) (room size.value size.call))

  shard_channels-AreRead :
      (procs : ℕ) (s : Option (R → ℕ)) (outch : List (Option ℕ))
      → HasRoom cfg.sizes.output_chan_size
      → shard_channels k cfg procs ≡ ok (s, outch)
      → AreRead outch
  unfolding shard_channels
  shard_channels-AreRead procs s outch room e = elim (Bool-cases (length cfg.sharding == 0)) [
    | inl off ↦ one_channel-AreRead procs s outch room (
        subst
          (λ u.
            (if u then one_channel k cfg procs else sharded_channels k cfg procs) ≡ ok (s, outch))
          off e)
    | inr on ↦ sharded_channels-AreRead procs s outch room (
        subst
          (λ u.
            (if u then one_channel k cfg procs else sharded_channels k cfg procs) ≡ ok (s, outch))
          on e)
  ]

  new_topology-IsReadable :
      (t : Topology R)
      → HasRoom cfg.sizes.input_chan_size
      → HasRoom cfg.sizes.output_chan_size
      → new_topology k cfg ≡ ok t
      → IsReadable (channels_of t) × (t.filter_procs ≡ cfg.sizes.procs)
  unfolding new_topology
  new_topology-IsReadable t input_room output_room e =
      let metrics = returned (check_named cfg.metrics k.new_metrics) _ e in
      let input = returned (check k.new_input) _ metrics.rest in
      let filters = returned (check_all k.new_filter 0 (length cfg.filters)) _ input.rest in
      let some_field =
        returned (check (not (length cfg.fields == 0 && not cfg.raw))) _ filters.rest in
      let out_fields = returned (resolve_all cfg.field_by_name cfg.fields) _ some_field.rest in
      let outputs =
        returned (check_all k.new_output 0 (rounds cfg.sizes.output_procs)) _ out_fields.rest in
      let inch = returned (make_size cfg.sizes.input_chan_size) _ outputs.rest in
      let procs = returned (make_size cfg.sizes.output_procs) _ inch.rest in
      let shard = returned (shard_channels k cfg procs.value) _ procs.rest in
      let upload = returned (check_named cfg.upload k.new_upload) _ shard.rest in
      let made = ok-injective upload.rest in
      let read =
        shard_channels-AreRead procs.value shard.value.0 shard.value.1 output_room shard.call in
      (
        subst (λ u. IsReadable (channels_of u)) made
            (record {
              input_room = input_room inch.value inch.call;
              output_room = read.room;
              covered = read.covered;
            }),
        sym (ap (λ u. u.filter_procs) made),
      )

-- Let NewTopologyFromConfig make a topology of a configuration with the defaults filled in, where Procs
-- of the filter chain is not negative. Then, however its goroutines take turns once it is started, they
-- never block, and come to an end where Wait has returned and nothing is left.
pub new_topology-Completes :
    {R : Type 0} (k : Constructors) (cfg : Settled R) (sizes : Sizes) (procs : ℕ) (t : Topology R)
    (to_read : List Bytes) (s : System)
    → cfg.sizes ≡ fill_defaults sizes
    → sizes.procs ≡ pos procs
    → new_topology k cfg ≡ ok t
    → Reach (channels_of t) (rounds t.filter_procs) to_read s
    → Completes (channels_of t) s
unfolding fill_defaults
new_topology-Completes k cfg sizes procs t to_read s filled some_procs made reached =
    let (ready, same) =
      new_topology-IsReadable k cfg t
        (subst (λ z. (m : ℕ) → make_size z.input_chan_size ≡ ok m → 0 < m) (sym filled)
          (λ m. make_size-or_default sizes.input_chan_size 1024 m (omega arith)))
        (subst (λ z. (m : ℕ) → make_size z.output_chan_size ≡ ok m → 0 < m) (sym filled)
          (λ m. make_size-or_default sizes.output_chan_size 16384 m (omega arith)))
        made in
    let filters : 0 < rounds t.filter_procs =
      subst (λ n. 0 < rounds n)
        (sym (same ∙ ap (λ z. z.procs) filled ∙ ap (λ n. or_default n (pos 16)) some_procs))
        (rounds-or_default procs 16 (omega arith)) in
    Reach-Completes (channels_of t) (rounds t.filter_procs) to_read s filters ready reached
