-- ===== src/Topology/Accounting.antt =====
-- topology.go, stats.go: the counters of malformed, invalid and filtered lines, and the records sent.
use mathlib.Core.Option.{Option, none, some}
use baker.Common.{
  Bytes, List, [], ◌∷◌, ◌++◌, ℕ, ◌+◌, Result, Returned, returned, ok, ok-injective, sym, ◌∙◌,
  length, length-append, ◌≡◌, refl, arith,
}
use baker.Record.{FieldIndex, Metadata, bytes}
use baker.RecordType.{RecordType}
use baker.Filter.Interface.{FilterType, FilterLaws, dropped}
use baker.Topology.{
  Settings, State, OutputRecord, count_invalid_field, call_next, run_filters, raw_record,
  output_fields, choose_channel, filter_chain_end, chain, chain_end, validated, validate_record,
  run_line, run_filter_chain,
}
use baker.Topology.Lines.{
  lines, run_lines, run_chunks, run_lines-cons, run_chunks-cons, run_filter_chain-lines,
}

-- stats.go: `countInvalid`
unfoldable pub count_invalid : List (FieldIndex × ℕ) → ℕ
count_invalid [] = 0
count_invalid ((f, n) ∷ m) = n + count_invalid m

count_invalid-count_invalid_field :
    (idx : FieldIndex) (m : List (FieldIndex × ℕ))
    → count_invalid (count_invalid_field idx m) ≡ count_invalid m + 1
unfolding count_invalid count_invalid_field
count_invalid-count_invalid_field idx [] = refl
count_invalid-count_invalid_field idx ((f, n) ∷ m) =
    ground (arith, count_invalid-count_invalid_field idx m)

module _ {V : Type 0} {T : RecordType V} (P : FilterType T) where
  -- The sum that `dumpNow` makes of the filters' statistics
  unfoldable pub count_filtered : List P.F → ℕ
  count_filtered [] = 0
  count_filtered (f ∷ fs) = P.num_filtered_lines f + count_filtered fs

module _ {V : Type 0} (T : RecordType V) (P : FilterType T) (laws : FilterLaws P)
    (s : Settings T) where
  -- Lines counted as errors, and records sent.
  unfoldable pub accounted : State T P s → ℕ
  accounted t = t.malformed + count_invalid t.invalid + count_filtered P t.filters + length t.sent

  call_next-some :
      (next : T.Rec → Result (List P.F × Option T.Rec)) (fs fs' : List P.F) (f : P.F) (m : T.Rec)
      (o : Option T.Rec)
      → call_next T P s next fs (f, some m) ≡ ok (fs', o)
      → Returned {B = List P.F × Option T.Rec} (next m) (λ q. ok (f ∷ q.0, q.1)) (fs', o)
  unfolding call_next
  call_next-some next fs fs' f m o e = returned (next m) (λ q. ok (f ∷ q.0, q.1)) e

  run_filters-count_filtered :
      (fs fs' : List P.F) (l : T.Rec) (o : Option T.Rec)
      → run_filters T P s fs l ≡ ok (fs', o)
      → count_filtered P fs' ≡ count_filtered P fs + dropped o
  run_filters-count_filtered [] fs' l o h = unfold run_filters count_filtered in ground arith
  run_filters-count_filtered (f ∷ fs) fs' l o h =
      called first.value first.call first.rest (λ gs m p e. run_filters-count_filtered fs gs m p e)
    where
      first : Returned (P.process f l) (call_next T P s (λ m. run_filters T P s fs m) fs) (fs', o)
      first =
          returned (P.process f l) (call_next T P s (λ m. run_filters T P s fs m) fs)
            (unfold run_filters in h)

      called :
          (r : P.F × Option T.Rec)
          → P.process f l ≡ ok r
          → call_next T P s (λ m. run_filters T P s fs m) fs r ≡ ok (fs', o)
          → ((gs : List P.F) (m : T.Rec) (p : Option T.Rec)
              → run_filters T P s fs m ≡ ok (gs, p)
              → count_filtered P gs ≡ count_filtered P fs + dropped p)
          → count_filtered P fs' ≡ count_filtered P (f ∷ fs) + dropped o
      called (f', none) c e ih =
          unfold call_next count_filtered in ground (arith, laws.counts f f' l none c)
      called (f', some m) c e ih =
          let r = call_next-some (λ n. run_filters T P s fs n) fs fs' f' m o e in
          unfold count_filtered in
          ground (arith, r.rest, laws.counts f f' l (some m) c, ih r.value.0 m r.value.1 r.call)

  -- What `filterChainEnd` adds is one record.
  filter_chain_end_sends :
      (l : T.Rec) (t t' : State T P s)
      → filter_chain_end T P s l t ≡ ok t'
      → (r : OutputRecord) × (t' ≡ record t { sent = t.sent ++ r ∷ [] })
  unfolding filter_chain_end
  filter_chain_end_sends l t t' h =
      let a = returned (raw_record T P s l) _ h in
      let b = returned (output_fields T P s s.out_fields l) _ a.rest in
      let c = returned (choose_channel T P s s.shard l) _ b.rest in
      (record { channel = c.value; raw = a.value; fields = b.value }, sym (ok-injective c.rest))

  filter_chain_end-accounted :
      (l : T.Rec) (t t' : State T P s)
      → filter_chain_end T P s l t ≡ ok t'
      → accounted t' ≡ accounted t + 1
  unfolding accounted
  filter_chain_end-accounted l t t' h =
      let (r, e) = filter_chain_end_sends l t t' h in
      rw e (omega (arith, length-append {0} t.sent (r ∷ [])))

  chain-accounted :
      (l : T.Rec) (t t' : State T P s) → chain T P s l t ≡ ok t' → accounted t' ≡ accounted t + 1
  unfolding chain
  chain-accounted l t t' h =
      let a = returned (run_filters T P s t.filters l) _ h in
      by_end a.value.0 a.value.1 (run_filters-count_filtered t.filters a.value.0 l a.value.1 a.call)
        a.rest
    where
      by_end :
          (fs : List P.F) (o : Option T.Rec)
          → count_filtered P fs ≡ count_filtered P t.filters + dropped o
          → chain_end T P s o (record t { filters = fs }) ≡ ok t'
          → accounted t' ≡ accounted t + 1
      by_end fs none c e = unfold chain_end accounted in ground arith
      by_end fs (some m) c e = omega (
        arith,
        filter_chain_end-accounted m (record t { filters = fs }) t' (unfold chain_end in e),
        same_filters fs c,
      )
        where
          same_filters :
              (gs : List P.F)
              → count_filtered P gs ≡ count_filtered P t.filters + 0
              → accounted (record t { filters = gs }) ≡ accounted t
          same_filters gs q = unfold accounted in omega arith

  malformed-accounted :
      (t : State T P s) → accounted (record t { malformed = t.malformed + 1 }) ≡ accounted t + 1
  unfolding accounted
  malformed-accounted t = omega arith

  validated-accounted :
      (v : Option FieldIndex) (l : T.Rec) (t t' : State T P s)
      → validated T P s v l t ≡ ok t'
      → accounted t' ≡ accounted t + 1
  validated-accounted none l t t' h = chain-accounted l t t' (unfold validated in h)
  validated-accounted (some idx) l t t' h =
      unfold validated accounted in ground (arith, count_invalid-count_invalid_field idx t.invalid)

  -- A line of whatever kind is accounted for once.
  pub run_line-accounted :
      (md : Metadata V) (line : Bytes) (t t' : State T P s)
      → run_line T P s md line t ≡ ok t'
      → accounted t' ≡ accounted t + 1
  unfolding run_line
  run_line-accounted md line t t' h =
      let l = (T.parse s.fresh (bytes line) md).0 in
      ground (
        arith,
        malformed-accounted t,
        validated-accounted (validate_record T P s s.validate l) l t t',
      )

  run_lines-accounted :
      (md : Metadata V) (ls : List Bytes) (t t' : State T P s)
      → run_lines T P s md ls t ≡ ok t'
      → accounted t' ≡ accounted t + length ls
  run_lines-accounted md [] t t' h = unfold run_lines in ground arith
  run_lines-accounted md (line ∷ ls) t t' h =
      let a = run_lines-cons T P s md line ls t t' h in
      omega (
        arith,
        run_line-accounted md line t a.value a.call,
        run_lines-accounted md ls a.value t' a.rest,
      )

  -- The lines of all the chunks
  unfoldable pub count_lines : List (Bytes × Metadata V) → ℕ
  count_lines [] = 0
  count_lines ((text, md) ∷ chunks) = length (lines text) + count_lines chunks

  in_total :
      (a b c : ℕ) (text : Bytes) (md : Metadata V) (cs : List (Bytes × Metadata V))
      → a ≡ b + count_lines cs
      → b ≡ c + length (lines text)
      → a ≡ c + count_lines ((text, md) ∷ cs)
  unfolding count_lines
  in_total a b c text md cs p q = omega arith

  run_chunks-accounted :
      (cs : List (Bytes × Metadata V)) (t t' : State T P s)
      → run_chunks T P s cs t ≡ ok t'
      → accounted t' ≡ accounted t + count_lines cs
  run_chunks-accounted [] t t' h = unfold run_chunks count_lines in ground arith
  run_chunks-accounted ((text, md) ∷ cs) t t' h =
      let a = run_chunks-cons T P s text md cs t t' h in
      let rest = run_chunks-accounted cs a.value t' a.rest in
      in_total _ _ _ text md cs rest (run_lines-accounted md (lines text) t a.value a.call)

  -- When the filter process has handled the chunks of its input, and no filter panicked, the lines
  -- that they hold are the malformed, the invalid and the filtered ones it counted and the records it
  -- sent, each once, for filters that count what they drop.
  pub run_filter_chain-accounted :
      (chunks : List (Bytes × Metadata V)) (t t' : State T P s)
      → run_filter_chain T P s chunks t ≡ ok t'
      → accounted t' ≡ accounted t + count_lines chunks
  run_filter_chain-accounted chunks t t' h =
      run_chunks-accounted chunks t t' (sym (run_filter_chain-lines T P s chunks t) ∙ h)
