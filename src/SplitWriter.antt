-- ===== src/SplitWriter.antt =====
-- pkg/splitwriter/split_writer.go: how Close splits the file that was written. A file is its bytes; the
-- parts are listed in the order of their numbers. The names of the parts, and failures of the file
-- system, are not modelled.
pub mod LineEnd
pub mod Parts
mod Tests
use mathlib.Core.Option.{Option, none, some}
use baker.Common.{
  Bytes, List, [], ◌∷◌, ℕ, zero, suc, ◌+◌, ◌-◌, Result, ok, err, bad_config, end_of_file,
  out_of_fuel, ◌>>=◌, Bool, true, false, if◌then◌else◌, length, take, drop, ◌==◌, leb, ltb,
}

pub record SplitWriter : Type 0 where
  pub maxsize : ℕ
  pub bufsize : ℕ

-- `New`, without the file that it opens
unfoldable pub new : ℕ → ℕ → Result SplitWriter
new maxsize bufsize =
    if ltb maxsize bufsize
    then err bad_config
    else ok (record { maxsize = maxsize; bufsize = bufsize })

-- `bytes.IndexByte(buf, '\n')`, `none` for -1
unfoldable pub index_line_feed : Bytes → Option ℕ
index_line_feed [] = none
index_line_feed (c ∷ cs) =
    let rest = index_line_feed cs in
    if c == b'\n' then some 0 else elim rest [ none ↦ none | some i ↦ some (suc i) ]

-- The loop that looks for the last line feed of `buf`. The last one found is the byte before `past`; the
-- bytes from there on are `rest`.
unfoldable pub last_line_feed : ℕ → Bytes → ℕ → Result ℕ
unfolding index_line_feed
last_line_feed zero rest past = out_of_fuel
last_line_feed (suc fuel) rest past = elim (index_line_feed rest) [
  | none ↦ ok past
  | some lf ↦ last_line_feed fuel (drop (suc lf) rest) (past + suc lf)
]

-- `f.ReadAt(buf, cur)`, which fails if the file does not hold as many bytes as `buf`.
unfoldable pub read_at : Bytes → ℕ → ℕ → Result Bytes
read_at f n cur = if leb (cur + n) (length f) then ok (take n (drop cur f)) else err end_of_file

module _ (w : SplitWriter) where
  -- The loop of `findSplitPoint`, which reads backwards from `cur`
  unfoldable pub search_back : ℕ → Bytes → ℕ → Result ℕ
  unfolding last_line_feed read_at
  search_back zero f cur = out_of_fuel
  search_back (suc fuel) f cur = do
    buf ← read_at f w.bufsize cur
    past ← last_line_feed (suc (length buf)) buf 0
    let back = search_back fuel f (cur - w.bufsize)
    if past == 0 then (if cur == 0 then ok 0 else back) else ok (cur + past)

  unfoldable pub find_split_point : Bytes → Result ℕ
  unfolding search_back
  find_split_point f = search_back (suc w.maxsize) f (w.maxsize - w.bufsize)

  -- `doSplit`: what stays in the file, and what goes to the next part.
  unfoldable pub do_split : Bytes → ℕ → Bytes × Bytes
  do_split f off = (take off f, drop off f)

  -- The loop of `Close`, on the last part and the size it is taken to have.
  unfoldable pub split_parts : ℕ → Bytes → ℕ → Result (List Bytes)
  unfolding find_split_point do_split
  split_parts zero f cursize = out_of_fuel
  split_parts (suc fuel) f cursize = if leb cursize w.maxsize then ok (f ∷ []) else do
    off ← find_split_point f
    let rest = split_parts fuel (do_split f off).1 (cursize - off)
    if off == 0 then ok (f ∷ []) else (do parts ← rest; ok ((do_split f off).0 ∷ parts))

  unfoldable pub close : Bytes → Result (List Bytes)
  unfolding split_parts
  close f = split_parts (suc (length f)) f (length f)
