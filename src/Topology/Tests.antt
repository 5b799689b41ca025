-- ===== src/Topology/Tests.antt =====
-- A run of topology.go's model on log lines, and its theorems on that run.
use mathlib.Core.Option.{none, some}
use baker.Common.{
  Bytes, List, [], ◌∷◌, ℕ, ◌+◌, Result, ok, true, equal, eqbℤ, ◌≡◌, refl, arith, All,
}
use baker.Record.{Metadata}
use baker.LogLine.{
  LogLine, empty, get, get_parsed, parse, scan, update, to_text, sum_wdata, last_field, find_last,
  append_fields, prefix,
}
use baker.LogLine.Split.{split, join}
use baker.Filter.NotNull
use baker.Filter.Dedup
use baker.RecordType.{RecordType}
use baker.RecordType.LogLines.{log_lines}
use baker.Filter.Interface.{FilterType, FilterLaws}
use baker.Filter.Fixture.{fixture}
use baker.Filter.Kinds.{not_null, dedup, process, filters, filter_laws}
use baker.Topology.{
  Settings, State, run_filter_chain, run_data, run_line, next_line, chain, run_filters, chain_end,
  call_next, validated, validate_record, filter_chain_end, raw_record, output_fields,
  choose_channel,
}
use baker.Topology.Lines.{lines, run_chunks, run_filter_chain-lines}
use baker.Topology.Accounting.{accounted, count_lines, run_filter_chain-accounted}
use baker.Topology.Sharding.{IsSendable, run_filter_chain-All}
use baker.Topology.Univocal.{make_univocal}

abbrev T : RecordType ℕ
T = log_lines ℕ

abbrev created : LogLine ℕ
created = empty b','

abbrev P : FilterType T
P = filters T fixture created

abbrev laws : FilterLaws P
laws = filter_laws T fixture created

abbrev settings : Settings T
settings = record {
  fresh = created;
  raw_output = true;
  out_fields = 1 ∷ [];
  channels = 2;
  shard = some (λ l. 5);
  validate = none;
}

abbrev start : State T P settings
start = record {
  filters =
      not_null (record { num_filtered_lines = 0; fields = 0 ∷ [] })
      ∷ dedup (record { fields = 1 ∷ []; sep = 30; dedup_set = []; num_filtered_lines = 0 })
      ∷ [];
  malformed = 0;
  invalid = [];
  sent = [];
}

-- "a,b", "x,b", "", ",c" and "z,d"
abbrev text : Bytes
text =
    b'a' ∷ b',' ∷ b'b' ∷ b'\n' ∷ b'x' ∷ b',' ∷ b'b' ∷ b'\n' ∷ b'\n' ∷ b',' ∷ b'c' ∷ b'\n' ∷ b'z'
    ∷ b',' ∷ b'd' ∷ []

abbrev md : Metadata ℕ
md = none

abbrev chunks : List (Bytes × Metadata ℕ)
chunks = (text, md) ∷ []

or_start : Result (State T P settings) → State T P settings
or_start (ok t) = t
or_start _ = start

abbrev final : State T P settings
final = or_start (run_filter_chain T P settings chunks start)

final-ok : run_filter_chain T P settings chunks start ≡ ok final
unfolding or_start run_filter_chain run_data run_line next_line chain run_filters chain_end
    call_next validated validate_record filter_chain_end raw_record output_fields choose_channel
    process NotNull.process NotNull.any_null Dedup.process Dedup.construct_key Dedup.field_values
    Dedup.contains parse scan empty update get get_parsed prefix to_text sum_wdata last_field
    find_last append_fields eqbℤ equal join
final-ok = refl

lines-text :
    lines text
    ≡ (b'a' ∷ b',' ∷ b'b' ∷ [])
      ∷ (b'x' ∷ b',' ∷ b'b' ∷ [])
      ∷ []
      ∷ (b',' ∷ b'c' ∷ [])
      ∷ (b'z' ∷ b',' ∷ b'd' ∷ [])
      ∷ []
unfolding lines split
lines-text = refl

run_filter_chain-lines_example :
    run_filter_chain T P settings chunks start ≡ run_chunks T P settings chunks start
run_filter_chain-lines_example = run_filter_chain-lines T P settings chunks start

run_filter_chain-accounted_example :
    accounted T P laws settings final
    ≡ accounted T P laws settings start + count_lines T P laws settings chunks
run_filter_chain-accounted_example =
    run_filter_chain-accounted T P laws settings chunks start final final-ok

run_filter_chain-All_example : All (IsSendable T P settings) final.sent
run_filter_chain-All_example =
    run_filter_chain-All T P settings chunks start final (omega arith) tt final-ok

-- "s", "s" and "h"
abbrev names : List Bytes
names = (b's' ∷ []) ∷ (b's' ∷ []) ∷ (b'h' ∷ []) ∷ []

second_numbered : make_univocal names ≡ (b's' ∷ []) ∷ (b's' ∷ b'_' ∷ b'2' ∷ []) ∷ (b'h' ∷ []) ∷ []
unfolding make_univocal equal
second_numbered = refl
