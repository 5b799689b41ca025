-- ===== src/FileWriter/Dispatch.antt =====
-- output/filewriter.go: the workers of a FileWriter, and the records of each.
use mathlib.Core.Option.{Option, none, some}
use mathlib.Core.Option
use baker.Common.{
  Bytes, List, [], ◌∷◌, ◌++◌, append-nil, map, Option-cases, Bool-cases, ℕ, ok, true, false,
  equal_iff, ◌==◌, if◌then◌else◌, equal, length, ◌≡◌, refl, sym, ap, ◌∙◌, subst, inl, inr, arith,
}
use baker.Common.Dict.{Dict, lookup, lookup-insert}
use baker.FileWriter.{FileWriter, overwrite, get_worker, set_worker, close_workers}
use baker.FileWriter.Records.{text_of, text_of_last}
use baker.FileWriter.Text.{Time}
use baker.FileWriter.Worker.{Outside, FileWorker, truncate_worker, tick, line, handle, terminate}
use baker.FileWriter.Files.{
  IsWorking, IsWithin, IsPath, ArePaths, IsName, AreApart, truncate-absent, IsNumbered-absent,
  Stored,
}
use baker.FileWriter.Running.{Running, terminate-Stored}
use baker.FileWriter.Kept.{handle-Running, new_worker-Running}

lookup-map :
    (f : FileWorker → FileWorker) (name : Bytes) (m : Dict FileWorker)
    → lookup name (map (λ e. (e.0, f e.1)) m) ≡ Option.map f (lookup name m)
unfolding lookup
lookup-map f name [] = refl
lookup-map f name ((j, v) ∷ m) = ground (arith, lookup-map f name m)

module _ (o : Outside) (w : FileWriter) (h : IsWorking o w.cfg)
    (apart : AreApart o w.cfg w.index w.use_repl_field) where
  -- The worker of a name, which has received `ls`
  abbrev pub Holds : Bytes → List Bytes → Option FileWorker → Type 0
  Holds name ls none = ls ≡ []
  Holds name ls (some k) =
      (uid : Bytes) × Running o w.cfg h w.index uid name (text_of ls) k
      × IsWithin o w.cfg k.cur.writes
      × IsName o w.cfg w.use_repl_field name

  -- The rotations of a worker have their own paths.
  name-ArePaths :
      (uid name : Bytes) → IsName o w.cfg w.use_repl_field name → ArePaths o w.cfg w.index uid name
  name-ArePaths uid name named m n p a b = (apart uid uid name name m n p named named a b).0

  -- The same when it is closed
  abbrev pub IsFiled : Bytes → List Bytes → Option FileWorker → Type 0
  IsFiled name ls none = ls ≡ []
  IsFiled name ls (some k) = (uid : Bytes) × Stored o w.cfg w.index uid name (text_of ls) k

  terminate-IsFiled :
      (name : Bytes) (ls : List Bytes) (k : Option FileWorker)
      → Holds name ls k
      → IsFiled name ls (Option.map (terminate o w.cfg) k)
  terminate-IsFiled name ls none e = e
  terminate-IsFiled name ls (some k) (uid, r, within, named) =
      (uid, terminate-Stored o w.cfg h w.index uid name (text_of ls) k r)

  pub close_workers-IsFiled :
      (name : Bytes) (ls : List Bytes)
      → Holds name ls (lookup name w.workers)
      → IsFiled name ls (lookup name (close_workers o w).workers)
  unfolding close_workers
  close_workers-IsFiled name ls k =
      subst (IsFiled name ls) (sym (lookup-map (terminate o w.cfg) name w.workers))
        (terminate-IsFiled name ls (lookup name w.workers) k)

  -- The files of a worker are not those of another name.
  truncate_worker-apart :
      (name name' uid' p : Bytes) (n : ℕ) (ls : List Bytes) (k : FileWorker)
      → Holds name ls (some k)
      → IsName o w.cfg w.use_repl_field name'
      → IsPath o w.cfg w.index uid' name' n p
      → equal name' name ≡ false
      → truncate_worker p k ≡ k
  unfolding truncate_worker
  truncate_worker-apart name name' uid' p n ls k (uid, r, _, named) named' path other =
      let away : (m : ℕ) → IsPath o w.cfg w.index uid name m p → ⊥ = λ m q. true_false (
        sym ((equal_iff name' name).1 (sym (apart uid uid' name name' m n p named named' q path).1))
        ∙ other) in
      let (_, numbered, _, _, _) = r.stored in
      rw
        (truncate-absent p k.closed
          (IsNumbered-absent o w.cfg w.index uid name 0 k.closed p (λ m l. away m) numbered))
        (elim (Bool-cases (equal k.cur.path p)) [
          | inl e ↦ absurd (
              away (length k.closed) (
                subst (IsPath o w.cfg w.index uid name (length k.closed))
                  ((equal_iff k.cur.path p).0 e) r.current))
          | inr e ↦ rw e refl
        ])
    where
      true_false : true ≡ false → ⊥
      true_false e = cc

  -- What each name's worker is to have received
  abbrev pub HoldsAll : (Bytes → List Bytes) → Type 0
  HoldsAll done = (name : Bytes) → Holds name (done name) (lookup name w.workers)

  -- The workers of the other names are as they were.
  abbrev pub AreOthers : Bytes → Dict FileWorker → Type 0
  AreOthers name m = (u : Bytes) → equal name u ≡ false → lookup u m ≡ lookup u w.workers

  overwrite-AreOthers :
      (done : Bytes → List Bytes) (name uid p : Bytes) (n : ℕ) (m : Dict FileWorker)
      → HoldsAll done
      → AreOthers name m
      → IsName o w.cfg w.use_repl_field name
      → IsPath o w.cfg w.index uid name n p
      → AreOthers name (overwrite o p m)
  unfolding overwrite
  overwrite-AreOthers done name uid p n m held others named path u other =
      lookup-map (truncate_worker p) u m
      ∙ ap (Option.map (truncate_worker p)) (others u other)
      ∙ same (lookup u w.workers) (held u)
    where
      same : (k : Option FileWorker) → Holds u (done u) k → Option.map (truncate_worker p) k ≡ k
      same none e = refl
      same (some k) e = ap some (truncate_worker-apart u name uid p n (done u) k e named path other)

  pub set_worker-AreOthers :
      (done : Bytes → List Bytes) (name : Bytes) (ls : List Bytes) (k k' : FileWorker)
      (m : Dict FileWorker)
      → HoldsAll done
      → AreOthers name m
      → Holds name ls (some k')
      → AreOthers name (set_worker o name k k' m)
  unfolding set_worker
  set_worker-AreOthers done name ls k k' m held others (uid, r, _, named) u other =
      rw
        (
          lookup-insert name u k'
              (if k.rotate_idx == k'.rotate_idx then m else overwrite o k'.cur.path m),
          other,
        )
        (elim (Bool-cases (k.rotate_idx == k'.rotate_idx)) [
          | inl e ↦ rw e (others u other)
          | inr e ↦ rw e (
              overwrite-AreOthers done name uid k'.cur.path (length k'.closed) m held others named
                r.current u other)
        ])

  pub get_worker-Holds :
      (now : Time) (name : Bytes) (done : Bytes → List Bytes)
      → IsName o w.cfg w.use_repl_field name
      → HoldsAll done
      → (k : FileWorker) × (m : Dict FileWorker) × (get_worker o now name w ≡ ok (k, m))
        × Holds name (done name) (some k)
        × AreOthers name m
  unfolding get_worker
  get_worker-Holds now name done named all = elim (Option-cases (lookup name w.workers)) [
    | inl e ↦
        let uid = o.uuid (length w.workers) in
        let (k, call, r, within) =
          new_worker-Running o w.cfg h w.index uid name (name-ArePaths uid name named) now in
        (
          k,
          overwrite o k.cur.path w.workers,
          rw (get_worker, e) (rw call refl),
          (
            uid,
            subst (λ u. Running o w.cfg h w.index uid name (text_of u) k)
                (sym (subst (Holds name (done name)) e (all name))) r,
            within,
            named,
          ),
          overwrite-AreOthers done name uid k.cur.path (length k.closed) w.workers all
              (λ u other. refl) named r.current,
        )
    | inr (k, e) ↦ (
      k,
      w.workers,
      rw (get_worker, e) refl,
      subst (Holds name (done name)) e (all name),
      λ u other. refl,
    )
  ]

  pub handle_line-Holds :
      (now : Time) (name l : Bytes) (ls : List Bytes) (k : FileWorker)
      → Holds name ls (some k)
      → (k' : FileWorker) × (handle o w.cfg (line now l) k ≡ ok k')
        × Holds name (ls ++ l ∷ []) (some k')
  handle_line-Holds now name l ls k (uid, r, within, named) =
      let (k', call, r', within') =
        handle-Running o w.cfg h w.index uid name (name-ArePaths uid name named) (text_of ls)
          (line now l) k r within in
      (
        k',
        call,
        (
          uid,
          subst (λ u. Running o w.cfg h w.index uid name u k') (text_of_last ls l) r',
          within',
          named,
        ),
      )

  pub handle_tick-Holds :
      (now : Time) (name : Bytes) (ls : List Bytes) (k : FileWorker)
      → Holds name ls (some k)
      → (k' : FileWorker) × (handle o w.cfg (tick now) k ≡ ok k') × Holds name ls (some k')
  handle_tick-Holds now name ls k (uid, r, within, named) =
      let (k', call, r', within') =
        handle-Running o w.cfg h w.index uid name (name-ArePaths uid name named) (text_of ls)
          (tick now) k r within in
      (
        k',
        call,
        (
          uid,
          subst (λ u. Running o w.cfg h w.index uid name u k') (append-nil (text_of ls)) r',
          within',
          named,
        ),
      )
