-- ===== src/CompressedInput.antt =====
-- input/inpututils/compressedstream.go: the cutting of a file's text into the chunks of lines that the
-- input sends to the filters. The metadata, which all chunks of a file share, is left out, and a buffer
-- of the pool is its bytes.
pub mod Lines
pub mod Whole
mod Tests
use mathlib.Core.Option.{Option, none, some}
use baker.Common.{
  Bytes, List, [], ◌∷◌, ◌++◌, ℕ, zero, suc, ◌+◌, ◌-◌, Result, ok, panic, out_of_fuel, ◌>>=◌, Bool,
  true, false, if◌then◌else◌, length, take, drop, ltb, ◌==◌,
}
use baker.SplitWriter.LineEnd.{line_end}

abbrev pub chunk_buffer : ℕ
chunk_buffer = 131072

abbrev pub max_line_length : ℕ
max_line_length = 4096

-- What is outside: the buffered reader of the decompressed text, and the flag that Stop sets. A read of
-- a text that is left takes some of its bytes, or fails; at its end it returns io.EOF. The search for a
-- newline may fail, too.
pub record Stream : Type 0 where
  pub stopping : Bytes → Bool
  pub read_size : Bytes → Option ℕ
  pub line_fails : Bytes → Bool

-- How the loop over a file ends.
pub data End : Type 0 where
  finished : End
  stopped : End
  read_failed : End
  no_newline : End

-- What `parseFileTyped` sends, the lines that it counts, and how it ends.
pub record Sent : Type 0 where
  pub chunks : List Bytes
  pub num_processed_lines : ℕ
  pub end : End

-- `bytes.Count(data.Bytes, []byte{'\n'})`
unfoldable pub count_newlines : Bytes → ℕ
count_newlines [] = 0
count_newlines (c ∷ cs) = (if c == b'\n' then 1 else 0) + count_newlines cs

-- `send`, before what follows
unfoldable pub send : Bytes → Sent → Sent
unfolding count_newlines
send chunk s = record s {
  chunks = chunk ∷ s.chunks;
  num_processed_lines = count_newlines chunk + s.num_processed_lines;
}

-- `rbuf.ReadBytes('\n')` of what is left: the bytes up to the newline and those behind it; `none` for
-- io.EOF.
unfoldable pub read_bytes : Bytes → Option (Bytes × Bytes)
read_bytes [] = none
read_bytes (c ∷ cs) =
    let rest = read_bytes cs in
    if c == b'\n'
    then some (c ∷ [], cs)
    else elim rest [ none ↦ none | some (l, r) ↦ some (c ∷ l, r) ]

-- `bakerData.Bytes[n-1]`; `none` where the index is out of range.
abbrev pub last_byte : Bytes → Option ℕ
last_byte [] = none
last_byte (c ∷ []) = some c
last_byte (c ∷ d ∷ cs) = last_byte (d ∷ cs)

-- A chunk and the rest of its last line are sent as one, if there is room for them in the buffer. Else
-- that line is sent alone, before the lines in front of it.
unfoldable pub send_completed : Bytes → Bytes → Sent → Sent
unfolding send
send_completed chunk endl s =
    if ltb chunk_buffer (length chunk + length endl)
    then send (drop (line_end chunk) chunk ++ endl) (send (take (line_end chunk) chunk) s)
    else send (chunk ++ endl) s

abbrev pub ended : End → Sent
ended e = record { chunks = []; num_processed_lines = 0; end = e }

module _ (s : Stream) where
  -- A chunk that does not end with a newline, with what is left and the rest of the loop.
  unfoldable pub complete_line : (Bytes → Result Sent) → Bytes → Bytes → Result Sent
  unfolding read_bytes send_completed
  complete_line next chunk left =
      if s.line_fails left then ok (ended no_newline) else elim (read_bytes left) [
        | none ↦ ok (ended no_newline)
        | some (endl, left') ↦ (do t ← next left'; ok (send_completed chunk endl t))
      ]

  -- A chunk that was read
  unfoldable pub send_chunk : (Bytes → Result Sent) → Bytes → Bytes → Result Sent
  unfolding send complete_line
  send_chunk next chunk left = elim (last_byte chunk) [
    | none ↦ panic
    | some c ↦
        if c == b'\n' then (do t ← next left; ok (send chunk t)) else complete_line next chunk left
  ]

  -- The loop of `parseFileTyped` on the text that is left
  unfoldable pub parse_file : ℕ → Bytes → Result Sent
  unfolding send send_chunk
  parse_file zero left = out_of_fuel
  parse_file (suc fuel) left =
      if s.stopping left
      then ok (ended stopped)
      else if length left == 0
      then ok (send [] (ended finished))
      else elim (s.read_size left) [
        | none ↦ ok (ended read_failed)
        | some n ↦ send_chunk (λ left'. parse_file fuel left') (take n left) (drop n left)
      ]
