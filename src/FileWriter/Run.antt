-- ===== src/FileWriter/Run.antt =====
-- output/filewriter.go: Run, which hands each record to the worker of its first field.
use mathlib.Core.Option.{Option, none, some}
use baker.Common.{
  Bytes, List, [], ◌∷◌, ◌++◌, append-nil, Bool-cases, Option-cases, ℕ, ◌+◌, ◌<◌, Result, Error, ok,
  ◌==◌, true, if◌then◌else◌, equal, equal_iff, length, All, ◌≡◌, refl, sym, ◌∙◌, subst, inl, inr,
  arith,
}
use baker.Common.Dict.{Dict, lookup, lookup-insert}
use baker.Record.{FieldIndex, content}
use baker.Topology.{OutputRecord}
use baker.FileWriter.{
  FileWriter, Arrival, arrives, ticks, new, first_name, worker_name, overwrite, get_worker,
  set_worker, close_workers, run,
}
use baker.FileWriter.Text.{Time}
use baker.FileWriter.Worker.{Config, Outside, FileWorker, tick, line, handle}
use baker.FileWriter.Files.{IsWorking, IsName, AreApart}
use baker.FileWriter.Records.{
  name_of, first_field, records_for, count_records, due-arrives, due_ticks,
}
use baker.FileWriter.Dispatch.{
  Holds, IsFiled, close_workers-IsFiled, get_worker-Holds, handle_line-Holds, handle_tick-Holds,
  HoldsAll, AreOthers, set_worker-AreOthers,
}

-- A record has a value for each field of the output.
abbrev pub HasFields : ℕ → Arrival → Type 0
HasFields n (ticks now wname) = Unit
HasFields n (arrives now r) = length r.fields ≡ n

-- Run returns, with every worker closed.
FilesAll :
    (o : Outside) (w : FileWriter) (h : IsWorking o w.cfg)
    (apart : AreApart o w.cfg w.index w.use_repl_field)
    → (Bytes → List Bytes)
    → ℕ
    → Result (FileWriter × Option Error)
    → Type 0
FilesAll o w h apart due n m =
    (w' : FileWriter) × (m ≡ ok (w', none))
    × (w'.totaln ≡ w.totaln + n)
    × ((name : Bytes) → IsFiled o w h apart name (due name) (lookup name w'.workers))

set-Holds :
    (o : Outside) (w : FileWriter) (h : IsWorking o w.cfg)
    (apart : AreApart o w.cfg w.index w.use_repl_field) (done : Bytes → List Bytes) (wname : Bytes)
    (ls : List Bytes) (k k' : FileWorker) (m : Dict FileWorker)
    → HoldsAll o w h apart done
    → AreOthers o w h apart wname m
    → Holds o w h apart wname ls (some k')
    → HoldsAll o
        (record w { workers = set_worker o wname k k' m })
        h
        apart
        (λ name. if equal wname name then ls else done name)
set-Holds o w h apart done wname ls k k' m held others taken name =
    elim (Bool-cases (equal wname name)) [
      | inl e ↦
          unfold set_worker in
          rw
            (
              lookup-insert wname name k'
                  (if k.rotate_idx == k'.rotate_idx then m else overwrite o k'.cur.path m),
              e,
            )
            (subst (λ u. Holds o w h apart u ls (some k')) ((equal_iff wname name).0 e) taken)
      | inr e ↦ rw e (
          subst (Holds o w h apart name (done name))
            (sym (set_worker-AreOthers o w h apart done wname ls k k' m held others taken name e))
            (held name))
    ]

name_of-IsName :
    (o : Outside) (w : FileWriter) (r : OutputRecord)
    → IsName o w.cfg w.use_repl_field (name_of w.use_repl_field r)
name_of-IsName o w r e = rw e refl

first_name-first_field :
    (o : Outside) (fs : List Bytes) → 0 < length fs → first_name o fs ≡ ok (first_field fs)
first_name-first_field o [] l = absurd (omega (arith, l))
first_name-first_field o (f ∷ fs) l = refl

worker_name-name_of :
    (o : Outside) (w : FileWriter) (r : OutputRecord) (n : ℕ)
    → length r.fields ≡ n
    → (w.use_repl_field ≡ true → 0 < n)
    → worker_name o w r ≡ ok (name_of w.use_repl_field r)
unfolding worker_name
worker_name-name_of o w r n fields some_field = elim (Bool-cases w.use_repl_field) [
  | inl e ↦ rw e (first_name-first_field o r.fields (omega (arith, fields, some_field e)))
  | inr e ↦ rw e refl
]

run-arrives :
    (o : Outside) (now : Time) (r : OutputRecord) (es : List Arrival) (w : FileWriter)
    (name : Bytes) (k k' : FileWorker) (m : Dict FileWorker)
    → worker_name o w r ≡ ok name
    → get_worker o now name w ≡ ok (k, m)
    → handle o w.cfg (line now (content r.raw)) k ≡ ok k'
    → run o (arrives now r ∷ es) w
      ≡ run o es (record w { workers = set_worker o name k k' m; totaln = w.totaln + 1 })
unfolding run
run-arrives o now r es w name k k' m named got handled = cc

run-ticks_none :
    (o : Outside) (now : Time) (wname : Bytes) (es : List Arrival) (w : FileWriter)
    → lookup wname w.workers ≡ none
    → run o (ticks now wname ∷ es) w ≡ run o es w
unfolding run
run-ticks_none o now wname es w e = cc

run-ticks_some :
    (o : Outside) (now : Time) (wname : Bytes) (es : List Arrival) (w : FileWriter)
    (k k' : FileWorker)
    → lookup wname w.workers ≡ some k
    → handle o w.cfg (tick now) k ≡ ok k'
    → run o (ticks now wname ∷ es) w
      ≡ run o es (record w { workers = set_worker o wname k k' w.workers })
unfolding run
run-ticks_some o now wname es w k k' e handled = cc

run-Files :
    (o : Outside) (es : List Arrival) (w : FileWriter) (h : IsWorking o w.cfg)
    (apart : AreApart o w.cfg w.index w.use_repl_field) (n : ℕ) (done : Bytes → List Bytes)
    → All (HasFields n) es
    → (w.use_repl_field ≡ true → 0 < n)
    → HoldsAll o w h apart done
    → FilesAll o w h apart
        (λ name. done name ++ records_for w.use_repl_field name es)
        (count_records es)
        (run o es w)
unfolding run FilesAll records_for
run-Files o [] w h apart n done fields some_field held = (
  close_workers o w,
  refl,
  omega arith,
  λ name.
      subst (λ ls. IsFiled o w h apart name ls (lookup name (close_workers o w).workers))
        (sym (append-nil (done name)))
        (close_workers-IsFiled o w h apart name (done name) (held name)),
)
run-Files o (arrives now r ∷ es) w h apart n done (fields, rest) some_field held =
    let name = name_of w.use_repl_field r in
    let l = content r.raw in
    let (k, m, got, k_holds, others) =
      get_worker-Holds o w h apart now name done (name_of-IsName o w r) held in
    let (k', handled, holds) = handle_line-Holds o w h apart now name l (done name) k k_holds in
    let (w', call, total, filed) =
      run-Files o es (record w { workers = set_worker o name k k' m; totaln = w.totaln + 1 }) h
        apart n (λ u. if equal name u then done name ++ l ∷ [] else done u) rest some_field
        (set-Holds o w h apart done name (done name ++ l ∷ []) k k' m held others holds) in
    (
      w',
      run-arrives o now r es w name k k' m (worker_name-name_of o w r n fields some_field) got
            handled
          ∙ call,
      omega (arith, total),
      λ u.
          subst (λ ls. IsFiled o w h apart u ls (lookup u w'.workers))
            (due-arrives done name u l (records_for w.use_repl_field u es)) (filed u),
    )
run-Files o (ticks now wname ∷ es) w h apart n done (_, rest) some_field held =
    elim (Option-cases (lookup wname w.workers)) [
      | inl e ↦
          let (w', call, total, filed) = run-Files o es w h apart n done rest some_field held in
          (w', run-ticks_none o now wname es w e ∙ call, total, filed)
      | inr (k, e) ↦
          let (k', handled, holds) =
            handle_tick-Holds o w h apart now wname (done wname) k
              (subst (Holds o w h apart wname (done wname)) e (held wname)) in
          let (w', call, total, filed) =
            run-Files o es (record w { workers = set_worker o wname k k' w.workers }) h apart n
              (λ u. if equal wname u then done wname else done u) rest some_field
              (set-Holds o w h apart done wname (done wname) k k' w.workers held (λ u other. refl)
                holds) in
          (
            w',
            run-ticks_some o now wname es w k k' e handled ∙ call,
            total,
            λ u.
                subst
                  (λ ls.
                    IsFiled o w h apart u (ls ++ records_for w.use_repl_field u es)
                      (lookup u w'.workers))
                  (due_ticks done wname u) (filed u),
          )
    ]

-- A new FileWriter, whose paths name a first field, is given one.
new-some_field :
    (o : Outside) (cfg : Config) (index : ℕ) (fields : List FieldIndex) (w : FileWriter)
    → new o cfg index fields ≡ ok w
    → (w.use_repl_field ≡ true → 0 < length fields) × (w.workers ≡ []) × (w.totaln ≡ 0)
unfolding new
new-some_field o cfg index fields w e = ground arith

-- Let a new FileWriter be given records that have a value for each of its fields, let the outside oblige,
-- and let paths differ for two rotations and, where the path shows the first field, for two of its values.
-- Then Run returns without an error and has counted all records. For every name that the first field of a
-- record can be, if paths show it, or else for the empty one: either no record has it, or a worker has
-- closed files that hold the texts of its records, each with a newline, in the order in which they arrived,
-- as it is for a worker alone.
pub run-IsFiled :
    (o : Outside) (cfg : Config) (index : ℕ) (fields : List FieldIndex) (w : FileWriter)
    (es : List Arrival)
    → new o cfg index fields ≡ ok w
    → (h : IsWorking o w.cfg) → (apart : AreApart o w.cfg w.index w.use_repl_field)
    → All (HasFields (length fields)) es
    → (w' : FileWriter) × (run o es w ≡ ok (w', none))
      × (w'.totaln ≡ count_records es)
      × ((name : Bytes)
          → IsFiled o w h apart name
              (records_for w.use_repl_field name es)
              (lookup name w'.workers))
unfolding FilesAll lookup
run-IsFiled o cfg index fields w es made h apart has =
    let (some_field, none_yet, zero_yet) = new-some_field o cfg index fields w made in
    let (w', call, total, filed) =
      run-Files o es w h apart (length fields) (λ u. []) has some_field
        (λ name. subst (λ m. Holds o w h apart name [] (lookup name m)) (sym none_yet) refl) in
    (w', call, omega (arith, total, zero_yet), filed)
