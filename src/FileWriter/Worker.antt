-- ===== src/FileWriter/Worker.antt =====
-- output/filewriter.go: a fileWorker, which writes lines to a file and rotates it. Its goroutine selects
-- between the ticker and the lines: what it does is run on the sequence of what it receives.
use mathlib.Core.Option.{Option, none, some}
use baker.Common.{
  Bytes, List, [], ◌∷◌, ◌++◌, ℕ, ◌+◌, ◌-◌, ◌^◌, ℤ, pos, negsuc, ltbℤ, leb, Result, ok, err, panic,
  out_of_fuel, ◌>>=◌, file_error, Bool, true, false, equal, not, ◌&&◌, ◌||◌, if◌then◌else◌, ◌==◌,
}
use baker.Common.Dict.{Dict}
use baker.FileWriter.Text.{Time, replacement_vars, zst, zstd, has_suffix}

pub record Config : Type 0 where
  pub path_string : Bytes
  pub rotate_interval : ℤ
  pub rotate_size : ℕ
  pub discard_empty_files : Bool
  pub zstd_compression_level : ℤ
  pub zstd_window_log : ℤ

-- `os.Stat` of a directory
pub data Stat : Type 0 where
  exists not_exist stat_failed : Stat

-- What is outside: templates, the file system at a time, the compressors, and random UUIDs. `write` are
-- the writes that a file holds after a Write, `size` how many bytes they have been compressed to so far.
pub record Outside : Type 0 where
  pub parses : Bytes → Bool
  pub execute : Bytes → Dict Bytes → Option Bytes
  pub dir : Bytes → Bytes
  pub stat : Time → Bytes → Stat
  pub mkdir_all : Time → Bytes → Bool
  pub create : Time → Bytes → Bool
  pub write : Bool → List Bytes → Bytes → List Bytes
  pub size : Bool → List Bytes → ℕ
  pub uuid : ℕ → Bytes

-- A file: its path, and what was written to it
pub record File : Type 0 where
  pub path : Bytes
  pub writes : List Bytes

-- `fileWorker` with the variables of newWorker, and the files it has closed, the paths that it has sent
-- to the upload, and those that it has removed.
pub record FileWorker : Type 0 where
  pub repl_field_value : Bytes
  pub index : ℕ
  pub uid : Bytes
  pub rotate_idx : ℕ
  pub written_once : Bool
  pub cur : File
  pub closed : List File
  pub uploads : List Bytes
  pub removed : List Bytes

-- `os.Create` of a path: a file that has it loses what it held. A file that is open twice is not followed
-- further: what is written to it comes behind.
unfoldable pub truncate : Bytes → List File → List File
truncate p [] = []
truncate p (f ∷ fs) =
    (if equal f.path p then record { path = f.path; writes = [] } else f) ∷ truncate p fs

-- What the creation of a path by another worker does to the files of a worker
unfoldable pub truncate_worker : Bytes → FileWorker → FileWorker
unfolding truncate
truncate_worker p w = record w {
  cur = if equal w.cur.path p then record { path = w.cur.path; writes = [] } else w.cur;
  closed = truncate p w.closed;
}

-- What the goroutine of a worker receives, until its channel is closed.
pub data Event : Type 0 where
  tick : Time → Event
  line : Time → Bytes → Event

-- `log.Fatal` of an error
abbrev pub fatal : {A : Type 0} → Result A → Result A
fatal (ok a) = ok a
fatal (err e) = panic
fatal panic = panic
fatal out_of_fuel = out_of_fuel

-- `int64` of a number of 64 bits
abbrev pub int64 : ℕ → ℤ
int64 n = if leb (2 ^ 63) n then negsuc (2 ^ 64 - n - 1) else pos n

module _ (o : Outside) (cfg : Config) where
  abbrev pub use_zstd : Bool
  use_zstd = has_suffix cfg.path_string zst || has_suffix cfg.path_string zstd

  unfoldable pub check_dir : Time → Bytes → Result Bytes
  check_dir now path = elim (o.stat now (o.dir path)) [
    | exists ↦ ok path
    | not_exist ↦ if o.mkdir_all now (o.dir path) then ok path else err file_error
    | stat_failed ↦ err file_error
  ]

  -- An error of the template is a panic.
  unfoldable pub make_path : Time → ℕ → Bytes → ℕ → Bytes → Result Bytes
  unfolding check_dir
  make_path now index uid rotate_idx repl_field_value =
      elim (o.execute cfg.path_string
        (replacement_vars now index uid rotate_idx repl_field_value)) [
          | none ↦ panic
          | some path ↦ check_dir now path
        ]

  -- The new file; what becomes of one that has its path is `truncate`.
  unfoldable pub new_file : Time → Bytes → Result File
  new_file now path =
      if o.create now path then ok (record { path = path; writes = [] }) else err file_error

  unfoldable pub new_worker : Time → Bytes → ℕ → Bytes → Result FileWorker
  unfolding make_path new_file
  new_worker now repl_field_value index uid = do
    path ← make_path now index uid 0 repl_field_value
    cur ← new_file now path
    ok (record {
      repl_field_value = repl_field_value;
      index = index;
      uid = uid;
      rotate_idx = 0;
      written_once = false;
      cur = cur;
      closed = [];
      uploads = [];
      removed = [];
    })

  unfoldable pub rotate : Time → FileWorker → Result FileWorker
  unfolding make_path new_file truncate
  rotate now w = if cfg.discard_empty_files && not w.written_once then ok w else (do
    path ← fatal (make_path now w.index w.uid (w.rotate_idx + 1) w.repl_field_value)
    cur ← fatal (new_file now path)
    ok (record w {
      rotate_idx = w.rotate_idx + 1;
      written_once = false;
      cur = cur;
      closed = truncate path (w.closed ++ w.cur ∷ []);
      uploads = w.uploads ++ w.cur.path ∷ [];
    }))

  unfoldable pub write_line : Bytes → FileWorker → FileWorker
  write_line l w = record w {
    written_once = true;
    cur = record {
      path = w.cur.path;
      writes = o.write use_zstd (o.write use_zstd w.cur.writes l) (b'\n' ∷ []);
    };
  }

  -- `cfg.RotateSize != 0 && nwritten > int64(cfg.RotateSize)`
  unfoldable pub is_full : FileWorker → Bool
  is_full w =
      not (cfg.rotate_size == 0)
      && ltbℤ (int64 cfg.rotate_size) (pos (o.size use_zstd w.cur.writes))

  -- The ticker does not tick unless the interval is positive.
  unfoldable pub handle : Event → FileWorker → Result FileWorker
  unfolding rotate write_line is_full
  handle (tick now) w = if ltbℤ (pos 0) cfg.rotate_interval then rotate now w else ok w
  handle (line now l) w = let w' = write_line l w in if is_full w' then rotate now w' else ok w'

  -- What is done when the channel is closed: the last file is closed, and removed or uploaded.
  unfoldable pub terminate : FileWorker → FileWorker
  terminate w =
      if not w.written_once && cfg.discard_empty_files
      then record w { closed = w.closed ++ w.cur ∷ []; removed = w.removed ++ w.cur.path ∷ [] }
      else record w { closed = w.closed ++ w.cur ∷ []; uploads = w.uploads ++ w.cur.path ∷ [] }

  -- All that a worker does between newWorker and the end of Close.
  unfoldable pub run_worker : List Event → FileWorker → Result FileWorker
  unfolding handle terminate
  run_worker [] w = ok (terminate w)
  run_worker (e ∷ es) w = do w' ← handle e w; run_worker es w'
