-- ===== src/FileWriter/Tests.antt =====
-- The theorems on filewriter.go, at a small configuration.
use mathlib.Core.Option.{Option, none, some}
use baker.Common.{
  Bytes, List, [], ◌∷◌, ◌++◌, map, ℕ, zero, suc, ◌+◌, ◌-◌, ◌*◌, ◌/◌, ◌%◌, ◌<◌, ltb, Bool-cases,
  equal, false, ap, ◌∙◌, sym, inr, pos, negsuc, eqbℤ, ltbℤ, Result, ok, ◌>>=◌, true, length, ◌≡◌,
  refl, inl, arith,
}
use baker.Common.Dict.{lookup}
use baker.Record.{bytes}
use baker.Topology.{OutputRecord}
use baker.FileWriter.{FileWriter, Arrival, arrives, ticks, fill_defaults, new, run}
use baker.FileWriter.Text.{Time, field0_placeholder, zeros, padded}
use baker.Common.Strconv.{digits, itoa}
use baker.FileWriter.Worker.{
  Config, Outside, exists, FileWorker, Event, tick, line, new_worker, run_worker,
}
use baker.FileWriter.Files.{IsWorking, ArePaths, AreApart, Stored, lines_text}
use baker.FileWriter.Kept.{new_worker-Stored}
use baker.FileWriter.Records.{records_for}
use baker.FileWriter.Dispatch.{IsFiled}
use baker.FileWriter.Run.{run-IsFiled}

-- The number that digits make
abbrev number_of : ℕ → Bytes → ℕ
number_of acc [] = acc
number_of acc (c ∷ cs) = number_of (acc * 10 + (c - b'0')) cs

number_of-digits :
    (fuel n : ℕ) (rest : Bytes) → n < fuel → number_of 0 (digits fuel n rest) ≡ number_of n rest
unfolding digits
number_of-digits zero n rest l = absurd (omega (arith, l))
number_of-digits (suc fuel) n rest l = elim (Bool-cases (ltb n 10)) [
  | inl e ↦ rw e (ap (λ u. number_of u rest) (omega arith))
  | inr e ↦ rw e (
      number_of-digits fuel (n / 10) ((b'0' + n % 10) ∷ rest) (ground (arith, l))
      ∙ ap (λ u. number_of u rest) (omega arith))
]

number_of-zeros : (k : ℕ) (s : Bytes) → number_of 0 (zeros k ++ s) ≡ number_of 0 s
unfolding zeros
number_of-zeros zero s = refl
number_of-zeros (suc k) s = number_of-zeros k s

number_of-padded : (w n : ℕ) → number_of 0 (padded w n) ≡ n
unfolding padded itoa
number_of-padded w n =
    number_of-zeros (w - length (itoa n)) (itoa n) ∙ number_of-digits (suc n) n [] (omega arith)

-- A path is the number of the rotation, and the first field.
abbrev path_of : List (Bytes × Bytes) → Bytes
path_of (i ∷ y ∷ mo ∷ d ∷ h ∷ mi ∷ s ∷ u ∷ r ∷ f ∷ vs) = number_of 0 r.1 ∷ f.1
path_of vs = []

-- A file system on which all goes well.
abbrev fine : Outside
fine = record {
  parses = λ t. true;
  execute = λ t vars. some (path_of vars);
  dir = λ p. [];
  stat = λ now d. exists;
  mkdir_all = λ now d. true;
  create = λ now p. true;
  write = λ z ws b. ws ++ b ∷ [];
  size = λ z ws. length ws;
  uuid = λ n. n ∷ [];
}

abbrev config : Config
config = record {
  path_string = field0_placeholder;
  rotate_interval = pos 60;
  rotate_size = 3;
  discard_empty_files = true;
  zstd_compression_level = pos 3;
  zstd_window_log = pos 0;
}

fine-IsWorking : IsWorking fine config
fine-IsWorking = record {
  executes = λ vars. (_, refl);
  dirs = λ now d. inl refl;
  creates = λ now p. refl;
  writes = λ z ws b. refl;
  starts = λ z. refl;
  small = omega arith;
}

abbrev head_of : Option Bytes → ℕ
head_of none = 0
head_of (some []) = 0
head_of (some (c ∷ cs)) = c

abbrev tail_of : Option Bytes → Bytes
tail_of none = []
tail_of (some []) = []
tail_of (some (c ∷ cs)) = cs

fine-AreApart : AreApart fine config 0 true
fine-AreApart uid uid' name name' m n p named named' (_, a) (_, b) = (
  sym (number_of-padded 6 m) ∙ ap head_of (a ∙ sym b) ∙ number_of-padded 6 n,
  ap tail_of (a ∙ sym b),
)

fine-ArePaths : ArePaths fine config 0 [] (b'x' ∷ [])
fine-ArePaths m n p a b =
    (fine-AreApart [] [] (b'x' ∷ []) (b'x' ∷ []) m n p (λ e. absurd (true_false e))
      (λ e. absurd (true_false e)) a b).0
  where
    true_false : true ≡ false → ⊥
    true_false e = cc

abbrev noon : Time
noon = record { year = 2021; month = 6; day = 1; hour = 12; minute = 0; second = 0 }

-- Two lines fill a file; nothing is written between the ticks behind them.
abbrev events : List Event
events =
    line noon (b'a' ∷ [])
    ∷ line noon (b'b' ∷ [])
    ∷ tick noon
    ∷ line noon (b'c' ∷ [])
    ∷ tick noon
    ∷ tick noon
    ∷ []

new_worker-Stored_example :
    (w : FileWorker) × ((do
      k ← new_worker fine config noon (b'x' ∷ []) 0 []
      run_worker fine config events k)
      ≡ ok w)
    × Stored fine config 0 [] (b'x' ∷ []) (lines_text events) w
new_worker-Stored_example =
    new_worker-Stored fine config noon (b'x' ∷ []) 0 [] events fine-IsWorking fine-ArePaths

abbrev files_of : Result FileWorker → List (List Bytes)
files_of (ok w) = map (λ f. f.writes) w.closed
files_of m = []

three_files :
    files_of (do k ← new_worker fine config noon (b'x' ∷ []) 0 []; run_worker fine config events k)
    ≡ ((b'a' ∷ []) ∷ (b'\n' ∷ []) ∷ (b'b' ∷ []) ∷ (b'\n' ∷ []) ∷ [])
      ∷ ((b'c' ∷ []) ∷ (b'\n' ∷ []) ∷ [])
      ∷ []
      ∷ []
unfolding new_worker run_worker ltbℤ equal padded
three_files = refl

abbrev writer : FileWriter
writer = record {
  totaln = 0;
  cfg = config;
  fields = 0 ∷ [];
  workers = [];
  index = 0;
  use_repl_field = true;
}

made_writer : new fine config 0 (0 ∷ []) ≡ ok writer
unfolding new eqbℤ ltbℤ
made_writer = refl

abbrev record_of : Bytes → OutputRecord
record_of f = record { channel = 0; raw = bytes (b'r' ∷ f); fields = f ∷ [] }

abbrev arrivals : List Arrival
arrivals =
    arrives noon (record_of (b'x' ∷ []))
    ∷ arrives noon (record_of (b'y' ∷ []))
    ∷ ticks noon (b'x' ∷ [])
    ∷ arrives noon (record_of (b'x' ∷ []))
    ∷ []

run-IsFiled_example :
    (w : FileWriter) × (run fine arrivals writer ≡ ok (w, none))
    × (w.totaln ≡ 3)
    × ((name : Bytes)
        → IsFiled fine writer fine-IsWorking fine-AreApart name
            (records_for true name arrivals)
            (lookup name w.workers))
run-IsFiled_example =
    run-IsFiled fine config 0 (0 ∷ []) writer arrivals made_writer fine-IsWorking fine-AreApart
      (refl, (refl, (tt, (refl, tt))))

-- Where rotation by time is disabled, the defaults set for a second output process enable it.
enabled_again :
    (fill_defaults (fill_defaults (record config { rotate_interval = negsuc 0 }))).rotate_interval
    ≡ pos 60000000000
unfolding fill_defaults eqbℤ ltbℤ
enabled_again = refl

-- Where all paths are the same, each file is overwritten by the next one.
overwritten :
    files_of (do
      k ← new_worker (record fine { execute = λ t vars. some [] }) config noon (b'x' ∷ []) 0 []
      run_worker (record fine { execute = λ t vars. some [] }) config events k)
    ≡ [] ∷ [] ∷ [] ∷ []
unfolding new_worker run_worker ltbℤ equal padded
overwritten = refl
