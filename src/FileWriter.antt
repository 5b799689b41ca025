-- ===== src/FileWriter.antt =====
-- output/filewriter.go: the output that writes records into files. The workers, of which each has a
-- file, are in FileWriter.Worker; a worker takes a line when it is written to it.
pub mod Text
pub mod Worker
pub mod Files
pub mod Running
pub mod Rotated
pub mod Kept
pub mod Records
pub mod Dispatch
pub mod Run
mod Tests
use mathlib.Core.Option.{Option, none, some}
use baker.Common.{
  Bytes, List, [], ◌∷◌, ◌++◌, ℕ, zero, suc, ◌+◌, ℤ, pos, negsuc, eqbℤ, Result, Error, ok, err,
  panic, out_of_fuel, ◌>>=◌, bad_config, Bool, true, false, ◌&&◌, if◌then◌else◌, ◌==◌, length, map,
}
use baker.Common.Dict.{Dict, lookup, insert}
use baker.Record.{FieldIndex, content}
use baker.Topology.{OutputRecord}
use baker.FileWriter.Text.{Time, default_path, field0_placeholder, contains}
use baker.FileWriter.Worker.{
  Config, Outside, FileWorker, Event, tick, line, truncate_worker, new_worker, handle, terminate,
}

unfoldable pub fill_defaults : Config → Config
fill_defaults c = record c {
  path_string = if length c.path_string == 0 then default_path else c.path_string;
  rotate_interval =
      if eqbℤ c.rotate_interval (negsuc 0)
      then pos 0
      else if eqbℤ c.rotate_interval (pos 0)
      then pos 60000000000
      else c.rotate_interval;
  zstd_compression_level =
      if eqbℤ c.zstd_compression_level (pos 0) then pos 3 else c.zstd_compression_level;
}

pub record FileWriter : Type 0 where
  pub totaln : ℕ
  pub cfg : Config
  pub fields : List FieldIndex
  pub workers : Dict FileWorker
  pub index : ℕ
  pub use_repl_field : Bool

-- What happens while Run reads: a record arrives, or the ticker of a worker ticks.
pub data Arrival : Type 0 where
  arrives : Time → OutputRecord → Arrival
  ticks : Time → Bytes → Arrival

module _ (o : Outside) where
  unfoldable pub new : Config → ℕ → List FieldIndex → Result FileWriter
  unfolding fill_defaults contains
  new cfg index fields =
      let dcfg = fill_defaults cfg in
      let use_repl_field = contains dcfg.path_string field0_placeholder in
      if use_repl_field && length fields == 0
      then err bad_config
      else if o.parses dcfg.path_string
      then ok (record {
        totaln = 0;
        cfg = dcfg;
        fields = fields;
        workers = [];
        index = index;
        use_repl_field = use_repl_field;
      })
      else err bad_config

  -- `lldata.Fields[0]`
  abbrev pub first_name : List Bytes → Result Bytes
  first_name [] = panic
  first_name (f ∷ fs) = ok f

  -- `wname`
  unfoldable pub worker_name : FileWriter → OutputRecord → Result Bytes
  worker_name w r = if w.use_repl_field then first_name r.fields else ok []

  -- The files of all workers, when one creates a path
  unfoldable pub overwrite : Bytes → Dict FileWorker → Dict FileWorker
  unfolding truncate_worker
  overwrite p workers = map (λ e. (e.0, truncate_worker p e.1)) workers

  -- The worker, and the others
  unfoldable pub get_worker : Time → Bytes → FileWriter → Result (FileWorker × Dict FileWorker)
  unfolding new_worker overwrite
  get_worker now wname w = elim (lookup wname w.workers) [
    | some k ↦ ok (k, w.workers)
    | none ↦ (do
      k ← new_worker o w.cfg now wname w.index (o.uuid (length w.workers))
      ok (k, overwrite k.cur.path w.workers))
  ]

  -- A worker `k` has become `k'`, with a new file if it has rotated.
  unfoldable pub set_worker : Bytes → FileWorker → FileWorker → Dict FileWorker → Dict FileWorker
  unfolding overwrite
  set_worker wname k k' workers =
      insert wname k'
        (if k.rotate_idx == k'.rotate_idx then workers else overwrite k'.cur.path workers)

  -- Run, from where it reads its next record, and the error that it returns. All workers are closed.
  unfoldable pub close_workers : FileWriter → FileWriter
  unfolding terminate
  close_workers w = record w { workers = map (λ e. (e.0, terminate o w.cfg e.1)) w.workers }

  unfoldable pub run : List Arrival → FileWriter → Result (FileWriter × Option Error)
  unfolding worker_name get_worker set_worker handle close_workers
  run [] w = ok (close_workers w, none)
  run (arrives now r ∷ es) w = do
    wname ← worker_name w r
    elim (get_worker now wname w) [
      | ok g ↦ (do
        k' ← handle o w.cfg (line now (content r.raw)) g.0
        run es (record w { workers = set_worker wname g.0 k' g.1; totaln = w.totaln + 1 }))
      | err e ↦ ok (close_workers w, some e)
      | panic ↦ panic
      | out_of_fuel ↦ out_of_fuel
    ]
  run (ticks now wname ∷ es) w = elim (lookup wname w.workers) [
    | none ↦ run es w
    | some k ↦ (do
      k' ← handle o w.cfg (tick now) k
      run es (record w { workers = set_worker wname k k' w.workers }))
  ]
