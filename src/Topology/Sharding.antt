-- ===== src/Topology/Sharding.antt =====
-- topology.go: what the filter process sends to the outputs.
use mathlib.Core.Option.{Option, none, some}
use mathlib.Core.Path.{subst}
use baker.Common.{
  Bytes, List, [], ◌∷◌, ◌++◌, ℕ, ◌+◌, ◌<◌, Result, returned, ok, ok-injective, sym, ◌∙◌, false,
  length, ◌≡◌, ap, arith, All, All-append,
}
use baker.Record.{FieldIndex, Slice, nil, bytes, content, Metadata}
use baker.RecordType.{RecordType}
use baker.Filter.Interface.{FilterType}
use baker.Topology.{
  Settings, State, OutputRecord, count_invalid_field, run_filters, raw_record, output_fields,
  choose_channel, filter_chain_end, chain, chain_end, validated, validate_record, run_line,
  run_filter_chain,
}
use baker.Topology.Lines.{
  lines, run_lines, run_chunks, run_lines-cons, run_chunks-cons, run_filter_chain-lines,
}

module _ {V : Type 0} (T : RecordType V) (P : FilterType T) (s : Settings T) where
  -- What an output relies on: the record is on one of the channels that exist, it has a value for each
  -- of the fields asked for, and no raw text unless that is wanted.
  abbrev pub IsSendable : OutputRecord → Type 0
  IsSendable r =
      (r.channel < s.channels)
      × (length r.fields ≡ length s.out_fields)
      × (s.raw_output ≡ false → r.raw ≡ nil)

  choose_channel_below :
      (shard : Option (T.Rec → ℕ)) (l : T.Rec) (c : ℕ)
      → 0 < s.channels
      → choose_channel T P s shard l ≡ ok c
      → c < s.channels
  unfolding choose_channel
  choose_channel_below none l c h e = ground arith
  choose_channel_below (some shard) l c h e = ground arith

  output_fields-cons :
      (f : FieldIndex) (fs : List FieldIndex) (l : T.Rec) (vs : List Bytes)
      → output_fields T P s (f ∷ fs) l ≡ ok vs
      → (v : Slice) × (ws : List Bytes) × (output_fields T P s fs l ≡ ok ws) × (vs ≡ content v ∷ ws)
  unfolding output_fields
  output_fields-cons f fs l vs e =
      let a = returned (T.get l f) _ e in
      let b = returned (output_fields T P s fs l) _ a.rest in
      (a.value, b.value, b.call, sym (ok-injective b.rest))

  length-output_fields :
      (fs : List FieldIndex) (l : T.Rec) (vs : List Bytes)
      → output_fields T P s fs l ≡ ok vs
      → length vs ≡ length fs
  length-output_fields [] l vs e = unfold output_fields in ground arith
  length-output_fields (f ∷ fs) l vs e =
      let (v, ws, r, p) = output_fields-cons f fs l vs e in
      omega (arith, ap (length {A = Bytes}) p, length-output_fields fs l ws r)

  raw_record-nil :
      (l : T.Rec) (raw : Slice) → raw_record T P s l ≡ ok raw → s.raw_output ≡ false → raw ≡ nil
  unfolding raw_record
  raw_record-nil l raw e h = ground arith

  filter_chain_end_sends :
      (l : T.Rec) (t t' : State T P s)
      → 0 < s.channels
      → filter_chain_end T P s l t ≡ ok t'
      → (r : OutputRecord) × (t'.sent ≡ t.sent ++ r ∷ []) × IsSendable r
  unfolding filter_chain_end
  filter_chain_end_sends l t t' h e =
      let a = returned (raw_record T P s l) _ e in
      let b = returned (output_fields T P s s.out_fields l) _ a.rest in
      let c = returned (choose_channel T P s s.shard l) _ b.rest in
      (
        record { channel = c.value; raw = a.value; fields = b.value },
        ap (λ u. u.sent) (sym (ok-injective c.rest)),
        (
          choose_channel_below s.shard l c.value h c.call,
          length-output_fields s.out_fields l b.value b.call,
          raw_record-nil l a.value a.call,
        ),
      )

  -- What `filterChainEnd` sends is fit to be sent.
  filter_chain_end-All :
      (l : T.Rec) (t t' : State T P s)
      → 0 < s.channels
      → All IsSendable t.sent
      → filter_chain_end T P s l t ≡ ok t'
      → All IsSendable t'.sent
  filter_chain_end-All l t t' h q e =
      let (r, p, i) = filter_chain_end_sends l t t' h e in
      rw p (All-append IsSendable t.sent (r ∷ []) q (i, tt))

  unchanged :
      (t t' : State T P s)
      → All IsSendable t.sent
      → ◌≡◌ {A = Result (State T P s)} (ok t) (ok t')
      → All IsSendable t'.sent
  unchanged t t' q e = subst (λ u. All IsSendable u.sent) (ok-injective e) q

  chain-All :
      (l : T.Rec) (t t' : State T P s)
      → 0 < s.channels
      → All IsSendable t.sent
      → chain T P s l t ≡ ok t'
      → All IsSendable t'.sent
  unfolding chain
  chain-All l t t' h q e =
      let a = returned (run_filters T P s t.filters l) _ e in by_end a.value.0 a.value.1 a.rest
    where
      by_end :
          (fs : List P.F) (o : Option T.Rec)
          → chain_end T P s o (record t { filters = fs }) ≡ ok t'
          → All IsSendable t'.sent
      by_end fs none c = unchanged (record t { filters = fs }) t' q (unfold chain_end in c)
      by_end fs (some m) c =
          filter_chain_end-All m (record t { filters = fs }) t' h q (unfold chain_end in c)

  validated-All :
      (v : Option FieldIndex) (l : T.Rec) (t t' : State T P s)
      → 0 < s.channels
      → All IsSendable t.sent
      → validated T P s v l t ≡ ok t'
      → All IsSendable t'.sent
  validated-All none l t t' h q e = chain-All l t t' h q (unfold validated in e)
  validated-All (some idx) l t t' h q e =
      unchanged (record t { invalid = count_invalid_field idx t.invalid }) t' q
        (unfold validated in e)

  run_line-All :
      (md : Metadata V) (line : Bytes) (t t' : State T P s)
      → 0 < s.channels
      → All IsSendable t.sent
      → run_line T P s md line t ≡ ok t'
      → All IsSendable t'.sent
  unfolding run_line
  run_line-All md line t t' h q e =
      let l = (T.parse s.fresh (bytes line) md).0 in
      ground (
        arith,
        unchanged (record t { malformed = t.malformed + 1 }) t' q,
        validated-All (validate_record T P s s.validate l) l t t' h q,
      )

  run_lines-All :
      (md : Metadata V) (ls : List Bytes) (t t' : State T P s)
      → 0 < s.channels
      → All IsSendable t.sent
      → run_lines T P s md ls t ≡ ok t'
      → All IsSendable t'.sent
  run_lines-All md [] t t' h q e = unchanged t t' q (unfold run_lines in e)
  run_lines-All md (line ∷ ls) t t' h q e =
      let a = run_lines-cons T P s md line ls t t' e in
      run_lines-All md ls a.value t' h (run_line-All md line t a.value h q a.call) a.rest

  run_chunks-All :
      (cs : List (Bytes × Metadata V)) (t t' : State T P s)
      → 0 < s.channels
      → All IsSendable t.sent
      → run_chunks T P s cs t ≡ ok t'
      → All IsSendable t'.sent
  run_chunks-All [] t t' h q e = unchanged t t' q (unfold run_chunks in e)
  run_chunks-All ((text, md) ∷ cs) t t' h q e =
      let a = run_chunks-cons T P s text md cs t t' e in
      run_chunks-All cs a.value t' h (run_lines-All md (lines text) t a.value h q a.call) a.rest

  -- Where there is a channel, and every record sent so far is on one of the channels, with one value
  -- for each of the output's fields and no raw text unless the output wants it, the same holds after
  -- the filter process has handled any chunks.
  pub run_filter_chain-All :
      (chunks : List (Bytes × Metadata V)) (t t' : State T P s)
      → 0 < s.channels
      → All IsSendable t.sent
      → run_filter_chain T P s chunks t ≡ ok t'
      → All IsSendable t'.sent
  run_filter_chain-All chunks t t' h q e =
      run_chunks-All chunks t t' h q (sym (run_filter_chain-lines T P s chunks t) ∙ e)
