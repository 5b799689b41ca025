-- ===== src/StatsOutput/Tests.antt =====
-- The theorem on stats.go, at two records.
use mathlib.Core.Option.{none, some}
use baker.Common.{Bytes, List, [], ◌∷◌, ℕ, pos, Bool, true, false, Result, ok}
use baker.Record.{FieldIndex, bytes}
use baker.LogLine.{LogLine, empty}
use baker.RecordType.{RecordType}
use baker.RecordType.LogLines.{log_lines}
use baker.Topology.{OutputRecord}
use baker.StatsOutput.{StatsConfig, Stats, new, run}

abbrev T : RecordType ℕ
T = log_lines ℕ

abbrev config : StatsConfig
config = record { count_empty_fields = false; csv_path = []; timestamp_field = b't' ∷ [] }

abbrev some_stats : Result Stats → Stats
some_stats (ok s) = s
some_stats r = record {
  totaln = 0;
  errn = 0;
  sizes = record { totbytes = 0; errs = 0; qt = []; smallest = 0; biggest = 0 };
  fields = [];
  times = record { nerrors = 0; nempties = 0; first = pos 0; last = pos 0; qt = [] };
  timestamp = none;
}

made : Result Stats
made = new (λ p. true) config (λ n. some 1) (0 ∷ [])

-- All records are valid.
abbrev validate : LogLine ℕ → Bool × FieldIndex
validate l = (true, 0)

abbrev record_of : Bytes → OutputRecord
record_of b = record { channel = 0; raw = bytes b; fields = [] }

-- "a,7" and "a,x"
abbrev records : List OutputRecord
records = record_of (b'a' ∷ b',' ∷ b'7' ∷ []) ∷ record_of (b'a' ∷ b',' ∷ b'x' ∷ []) ∷ []

ran : Result Stats
ran = run T validate none records (empty b',') (some_stats made)
