-- ===== src/RecordType/LogLines.antt =====
-- logline.go: LogLine implements the interface Record.
use baker.Common.{ℕ}
use baker.LogLine
use baker.LogLine.{LogLine}
use baker.LogLine.Invariant.{IsValid}
use baker.LogLine.Fields.{set-IsValid, get-set}
use baker.RecordType.{RecordType, RecordLaws}

-- The rounds that the loop of `ToText` is given.
abbrev pub rounds : ℕ
rounds = 256

abbrev pub log_lines : (V : Type 0) → RecordType V
log_lines V = record {
  Rec = LogLine V;
  parse = LogLine.parse;
  to_text = LogLine.to_text rounds;
  copy = LogLine.copy rounds;
  clear = LogLine.clear;
  get = LogLine.get;
  set = LogLine.set;
  meta = LogLine.meta;
}

-- LogLine keeps what the interface promises, for the lines of its invariant.
abbrev pub log_line_laws : (V : Type 0) → RecordLaws (log_lines V)
log_line_laws V = record {
  Valid = IsValid;
  set_valid = λ r f v r' h e. set-IsValid r f v h e;
  get_set = λ r f g v r' h e. get-set r f g v h e;
}
