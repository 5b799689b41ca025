-- ===== src/FileWriter/Rotated.antt =====
-- output/filewriter.go: a worker that has rotated its file.
use mathlib.Core.Option.{some}
use baker.Common.{
  Bytes, [], ◌∷◌, ◌++◌, append-nil, concat, ℕ, ◌+◌, false, not, ◌&&◌, length, length-append, ◌≡◌,
  refl, ◌∙◌, subst, inl, arith,
}
use baker.FileWriter.Text.{Time, replacement_vars}
use baker.FileWriter.Worker.{Config, Outside, FileWorker, truncate}
use baker.FileWriter.Files.{IsWorking, IsPath, ArePaths, truncate-absent, IsNumbered-absent}
use baker.FileWriter.Running.{rotated, Running, close-kept, close-uploaded, is_discarded-once}

module _ (o : Outside) (cfg : Config) (h : IsWorking o cfg) where
  module _ (index : ℕ) (uid : Bytes) (name : Bytes) (apart : ArePaths o cfg index uid name) where
    -- The path of the rotation that is next
    rotated-IsPath :
        (text : Bytes) (now : Time) (p : Bytes) (w : FileWorker)
        → Running o cfg h index uid name text w
        → o.execute cfg.path_string
            (replacement_vars now w.index w.uid (w.rotate_idx + 1) w.repl_field_value)
          ≡ some p
        → IsPath o cfg index uid name (length (w.closed ++ w.cur ∷ [])) p
    rotated-IsPath text now p w r path = (
      now,
      subst (λ n. o.execute cfg.path_string (replacement_vars now index uid n name) ≡ some p)
          (omega (arith, r.count, length-append w.closed (w.cur ∷ [])))
          (subst
            (λ u.
              o.execute cfg.path_string (replacement_vars now u uid (w.rotate_idx + 1) name)
              ≡ some p)
            r.same_index
            (subst
              (λ u.
                o.execute cfg.path_string (replacement_vars now w.index u (w.rotate_idx + 1) name)
                ≡ some p)
              r.same_uid
              (subst
                (λ u.
                  o.execute cfg.path_string
                    (replacement_vars now w.index w.uid (w.rotate_idx + 1) u)
                  ≡ some p)
                r.same_name path))),
    )

    -- It is that of no file before.
    pub rotated-truncate :
        (text : Bytes) (now : Time) (p : Bytes) (w : FileWorker)
        → Running o cfg h index uid name text w
        → o.execute cfg.path_string
            (replacement_vars now w.index w.uid (w.rotate_idx + 1) w.repl_field_value)
          ≡ some p
        → truncate p (w.closed ++ w.cur ∷ []) ≡ w.closed ++ w.cur ∷ []
    rotated-truncate text now p w r path =
        let next = rotated-IsPath text now p w r path in
        let (_, numbered, _) = close-kept o cfg h index uid name text w r in
        truncate-absent p (w.closed ++ w.cur ∷ []) (
          IsNumbered-absent o cfg index uid name 0 (w.closed ++ w.cur ∷ []) p
            (λ m l q. absurd (omega (arith, l, apart m _ p q next))) numbered)

    pub rotated-Running :
        (text : Bytes) (now : Time) (p : Bytes) (w : FileWorker)
        → Running o cfg h index uid name text w
        → (cfg.discard_empty_files && not w.written_once) ≡ false
        → o.execute cfg.path_string
            (replacement_vars now w.index w.uid (w.rotate_idx + 1) w.repl_field_value)
          ≡ some p
        → Running o cfg h index uid name text (rotated o cfg h p w)
    unfolding concat
    rotated-Running text now p w r e path = record {
      before = text;
      stored =
          close-uploaded o cfg h index uid name text w r
            (is_discarded-once o cfg h index uid name text w r ∙ e);
      kept = append-nil text;
      same_index = r.same_index;
      same_uid = r.same_uid;
      same_name = r.same_name;
      current = rotated-IsPath text now p w r path;
      count = omega (arith, r.count, length-append w.closed (w.cur ∷ []));
      fits = inl refl;
      once = refl;
    }
