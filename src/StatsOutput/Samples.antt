-- ===== src/StatsOutput/Samples.antt =====
-- output/stats.go: the samples of Run, which are the sizes and the timestamps of the valid records.
use mathlib.Core.Option.{Option, none, some}
use baker.Common.{
  Bytes, List, [], ◌∷◌, map, ℕ, ◌+◌, ◌-◌, ◌^◌, ◌%◌, ℤ, pos, ltbℤ, Result, ok, err, panic,
  out_of_fuel, ok-injective, returned, Bool, Bool-cases, Option-cases, true, false, if◌then◌else◌,
  length, ◌≡◌, refl, sym, ap, subst, inl, inr, arith,
}
use baker.Common.Strconv.{parse_int}
use baker.LogLine.{is_nil}
use baker.Record.{FieldIndex, Slice, nil, content, Metadata}
use baker.RecordType.{RecordType}
use baker.Filter.Names.{FieldByName}
use baker.Topology.{OutputRecord}
use baker.StatsOutput.{
  StatsConfig, TimestampStats, add_timestamp, Stats, fill_defaults, create_file, timestamp_index,
  new, add_size, add_fields, add_time, add_record, run,
}

-- Of slices, those that are nil
abbrev pub count_nil : List Slice → ℕ
count_nil [] = 0
count_nil (b ∷ bs) = (if is_nil b then 1 else 0) + count_nil bs

-- Those that are not nil and no numbers
abbrev pub count_bad : List Slice → ℕ
count_bad [] = 0
count_bad (b ∷ bs) =
    (if is_nil b then 0 else elim (parse_int (content b)) [ none ↦ 1 | some t ↦ 0 ]) + count_bad bs

-- The numbers of the others
abbrev pub numbers : List Slice → List ℤ
numbers [] = []
numbers (b ∷ bs) =
    let rest = numbers bs in
    if is_nil b then rest else elim (parse_int (content b)) [ none ↦ rest | some t ↦ t ∷ rest ]

abbrev pub least : List ℤ → ℤ
least [] = pos (2 ^ 63 - 1)
least (t ∷ ts) = if ltbℤ t (least ts) then t else least ts

abbrev pub greatest : List ℤ → ℤ
greatest [] = pos 0
greatest (t ∷ ts) = if ltbℤ (greatest ts) t then t else greatest ts

-- The statistics are those of the slices.
pub record IsOfSlices (bs : List Slice) (s : TimestampStats) : Type 0 where
  pub empties : s.nempties ≡ count_nil bs
  pub errors : s.nerrors ≡ count_bad bs
  pub samples : s.qt ≡ numbers bs
  pub first : s.first ≡ least (numbers bs)
  pub last : s.last ≡ greatest (numbers bs)

add_timestamp-IsOfSlices :
    (b : Slice) (bs : List Slice) (s : TimestampStats)
    → IsOfSlices bs s
    → IsOfSlices (b ∷ bs) (add_timestamp b s)
unfolding add_timestamp
add_timestamp-IsOfSlices b bs s h = elim (Bool-cases (is_nil b)) [
  | inl e ↦ rw e (record {
    empties = rw e (omega (arith, h.empties));
    errors = rw e (omega (arith, h.errors));
    samples = rw e h.samples;
    first = rw e h.first;
    last = rw e h.last;
  })
  | inr e ↦ elim (Option-cases (parse_int (content b))) [
    | inl bad ↦ rw e (
        rw bad (record {
          empties = rw e (omega (arith, h.empties));
          errors = rw (e, bad) (omega (arith, h.errors));
          samples = rw (e, bad) h.samples;
          first = rw (e, bad) h.first;
          last = rw (e, bad) h.last;
        }))
    | inr (t, good) ↦ rw e (
        rw good (record {
          empties = rw e (omega (arith, h.empties));
          errors = rw (e, good) (omega (arith, h.errors));
          samples = rw (e, good) (ap (λ ts. t ∷ ts) h.samples);
          first = rw (e, good) (ap (λ u. if ltbℤ t u then t else u) h.first);
          last = rw (e, good) (ap (λ u. if ltbℤ u t then t else u) h.last);
        }))
  ]
]

abbrev pub or_nil : Result Slice → Slice
or_nil (ok b) = b
or_nil (err e) = nil
or_nil panic = nil
or_nil out_of_fuel = nil

module _ {V : Type 0} (T : RecordType V) where
  -- The valid records with the lengths of their texts, the last one first. They are parsed into one
  -- record, one after the other.
  abbrev pub valid_records :
      (T.Rec → Bool × FieldIndex)
      → Metadata V
      → List OutputRecord
      → T.Rec
      → List (ℕ × T.Rec)
      → List (ℕ × T.Rec)
  valid_records validate_record meta [] ll found = found
  valid_records validate_record meta (raw ∷ raws) ll found =
      let ll' = (T.parse ll raw.raw meta).0 in
      valid_records validate_record meta raws ll'
        (if (validate_record ll').0 then (length (content raw.raw), ll') ∷ found else found)

  -- The value of a field
  abbrev pub slice_of : FieldIndex → T.Rec → Slice
  slice_of f ll = or_nil (T.get ll f)

  abbrev pub AreTimes : Option FieldIndex → List (ℕ × T.Rec) → TimestampStats → Type 0
  AreTimes none found s = Unit
  AreTimes (some f) found s = IsOfSlices (map (λ e. slice_of f e.1) found) s

  -- The samples are the sizes of the records that were found valid, as uint32, and the statistics of the
  -- timestamp, if there is one, are those of their values of its field.
  pub record IsSampled (f : Option FieldIndex) (found : List (ℕ × T.Rec)) (s : Stats) : Type 0 where
    pub field : s.timestamp ≡ f
    pub sizes : s.sizes.qt ≡ map (λ e. e.0 % 2 ^ 32) found
    pub times : AreTimes f found s.times

  add_time-AreTimes :
      (ll : T.Rec) (f : Option FieldIndex) (size : ℕ) (found : List (ℕ × T.Rec))
      (s s' : TimestampStats)
      → add_time T ll f s ≡ ok s'
      → AreTimes f found s
      → AreTimes f ((size, ll) ∷ found) s'
  unfolding add_time
  add_time-AreTimes ll none size found s s' e h = tt
  add_time-AreTimes ll (some f) size found s s' e h =
      let b = returned (T.get ll f) _ e in
      subst (λ v. IsOfSlices (v ∷ map (λ e. slice_of f e.1) found) s') (sym (ap or_nil b.call))
        (subst (λ u. IsOfSlices (b.value ∷ map (λ e. slice_of f e.1) found) u) (ok-injective b.rest)
          (add_timestamp-IsOfSlices b.value (map (λ e. slice_of f e.1) found) s h))

  add_record-IsSampled :
      (ll : T.Rec) (size n : ℕ) (valid : Bool) (f : Option FieldIndex) (found : List (ℕ × T.Rec))
      (s s' : Stats)
      → IsSampled f found s
      → add_record T ll size valid (record s { totaln = n }) ≡ ok s'
      → IsSampled f (if valid then (size, ll) ∷ found else found) s'
  unfolding add_record add_size
  add_record-IsSampled ll size n false f found s s' h e =
      subst (IsSampled f found) (ok-injective e)
        (record { field = h.field; sizes = h.sizes; times = h.times })
  add_record-IsSampled ll size n true f found s s' h e =
      let fields = returned (add_fields T ll s.fields) _ e in
      let times = returned (add_time T ll s.timestamp s.times) _ fields.rest in
      subst (IsSampled f ((size, ll) ∷ found)) (ok-injective times.rest) (record {
        field = h.field;
        sizes = ap (λ ns. size % 2 ^ 32 ∷ ns) h.sizes;
        times =
            add_time-AreTimes ll f size found s.times times.value
              (subst (λ u. add_time T ll u s.times ≡ ok times.value) h.field times.call) h.times;
      })

  pub run-IsSampled :
      (validate_record : T.Rec → Bool × FieldIndex) (meta : Metadata V) (raws : List OutputRecord)
      (ll : T.Rec) (f : Option FieldIndex) (found : List (ℕ × T.Rec)) (s s' : Stats)
      → IsSampled f found s
      → run T validate_record meta raws ll s ≡ ok s'
      → IsSampled f (valid_records validate_record meta raws ll found) s'
  unfolding run
  run-IsSampled v meta [] ll f found s s' h e = subst (IsSampled f found) (ok-injective e) h
  run-IsSampled v meta (raw ∷ raws) ll f found s s' h e =
      let ll' = (T.parse ll raw.raw meta).0 in
      let r =
        returned
          (add_record T ll' (length (content raw.raw)) (v ll').0
            (record s { totaln = s.totaln + 1 }))
          _ e in
      run-IsSampled v meta raws ll' f _ r.value s'
        (add_record-IsSampled ll' (length (content raw.raw)) (s.totaln + 1) (v ll').0 f found s
          r.value h r.call)
        r.rest

  pub new-IsSampled :
      (creates : Bytes → Bool) (cfg : StatsConfig) (field_by_name : FieldByName)
      (fields : List FieldIndex) (s : Stats)
      → new creates cfg field_by_name fields ≡ ok s
      → IsSampled s.timestamp [] s
  unfolding new
  new-IsSampled creates cfg field_by_name fields s e =
      let file = returned (create_file (creates (fill_defaults cfg).csv_path)) _ e in
      let timestamp =
        returned (timestamp_index field_by_name (fill_defaults cfg).timestamp_field) _ file.rest in
      subst (λ u. IsSampled u.timestamp [] u) (ok-injective timestamp.rest)
        (record { field = refl; sizes = refl; times = none_yet timestamp.value })
    where
      none_yet :
          (f : Option FieldIndex)
          → AreTimes f [] (record {
            nerrors = 0;
            nempties = 0;
            first = pos (2 ^ 63 - 1);
            last = pos 0;
            qt = [];
          })
      none_yet none = tt
      none_yet (some f) = record {
        empties = refl;
        errors = refl;
        samples = refl;
        first = refl;
        last = refl;
      }
