-- ===== src/FileWriter/Kept.antt =====
-- output/filewriter.go: a worker keeps what it receives.
use baker.Common.{
  Bytes, List, [], ◌∷◌, ◌++◌, append-nil, append_assoc, concat, concat-append, Bool-cases, ℕ, ◌≤◌,
  ◌<◌, ◌^◌, pos, ltbℤ, ok, ◌>>=◌, false, not, ◌&&◌, ◌==◌, ◌≡◌, refl, sym, ap, ◌∙◌, subst, ◌⊎◌, inl,
  inr, arith,
}
use baker.FileWriter.Text.{Time}
use baker.FileWriter.Worker.{
  Config, Outside, FileWorker, Event, tick, line, int64, use_zstd, new_file, new_worker, rotate,
  write_line, is_full, handle, terminate, run_worker,
}
use baker.FileWriter.Files.{
  IsWorking, lines_text, lines_text-cons, is_empty, is_empty-append, IsWithin, Stored, ArePaths,
}
use baker.FileWriter.Rotated.{rotated-truncate, rotated-Running}
use baker.FileWriter.Running.{
  make_path-ok, rotated, rotate-rotated, Running, Within, terminate-Stored,
}

within_limit :
    (limit n : ℕ)
    → limit < 2 ^ 63
    → (not (limit == 0) && ltbℤ (int64 limit) (pos n)) ≡ false
    → (limit ≡ 0) ⊎ (n ≤ limit)
unfolding ltbℤ
within_limit limit n small e = ground arith

module _ (o : Outside) (cfg : Config) (h : IsWorking o cfg) where
  module _ (index : ℕ) (uid : Bytes) (name : Bytes) (apart : ArePaths o cfg index uid name) where
    write_line-Running :
        (text l : Bytes) (w : FileWorker)
        → Running o cfg h index uid name text w
        → IsWithin o cfg w.cur.writes
        → Running o cfg h index uid name (text ++ (l ++ b'\n' ∷ [])) (write_line o cfg l w)
    unfolding write_line concat
    write_line-Running text l w r within =
        let ws = w.cur.writes in
        let written = h.writes (use_zstd o cfg) ws l in
        let all : (write_line o cfg l w).cur.writes ≡ ws ++ l ∷ (b'\n' ∷ []) ∷ [] =
          rw (written, h.writes (use_zstd o cfg) (ws ++ l ∷ []) (b'\n' ∷ []))
            (append_assoc ws (l ∷ []) ((b'\n' ∷ []) ∷ [])) in
        record {
          before = r.before;
          stored = r.stored;
          kept =
              ap (λ u. r.before ++ concat u) all
              ∙ ap (λ u. r.before ++ u) (concat-append ws (l ∷ (b'\n' ∷ []) ∷ []))
              ∙ sym (append_assoc r.before (concat ws) (l ++ b'\n' ∷ []))
              ∙ ap (λ u. u ++ (l ++ b'\n' ∷ [])) r.kept;
          same_index = r.same_index;
          same_uid = r.same_uid;
          same_name = r.same_name;
          current = r.current;
          count = r.count;
          fits = inr (ws, l, all, within);
          once =
              sym (
                ap (λ u. not (is_empty u)) all ∙ ap not (is_empty-append ws l ((b'\n' ∷ []) ∷ [])));
        }

    is_full-IsWithin : (w : FileWorker) → is_full o cfg w ≡ false → IsWithin o cfg w.cur.writes
    unfolding is_full
    is_full-IsWithin w e =
        within_limit cfg.rotate_size (o.size (use_zstd o cfg) w.cur.writes) h.small e

    -- A new file
    turn-Running :
        (text : Bytes) (now : Time) (w : FileWorker)
        → Running o cfg h index uid name text w
        → (cfg.discard_empty_files && not w.written_once) ≡ false
        → Within o cfg h index uid name text (rotate o cfg now w)
    turn-Running text now w r e =
        let (p, call, path) =
          rotate-rotated o cfg h now w e
            (λ p path. rotated-truncate o cfg h index uid name apart text now p w r path) in
        (
          rotated o cfg h p w,
          call,
          rotated-Running o cfg h index uid name apart text now p w r e path,
          inr (omega (arith, h.starts (use_zstd o cfg))),
        )

    rotate-Running :
        (text : Bytes) (now : Time) (w : FileWorker)
        → Running o cfg h index uid name text w
        → IsWithin o cfg w.cur.writes
        → Within o cfg h index uid name text (rotate o cfg now w)
    rotate-Running text now w r within =
        elim (Bool-cases (cfg.discard_empty_files && not w.written_once)) [
          | inl skipped ↦ (w, unfold rotate in rw skipped refl, r, within)
          | inr e ↦ turn-Running text now w r e
        ]

    pub handle-Running :
        (text : Bytes) (e : Event) (w : FileWorker)
        → Running o cfg h index uid name text w
        → IsWithin o cfg w.cur.writes
        → Within o cfg h index uid name (text ++ lines_text (e ∷ [])) (handle o cfg e w)
    unfolding handle
    handle-Running text (tick now) w r within =
        let same = subst (λ u. Running o cfg h index uid name u w) (sym (append-nil text)) r in
        elim (Bool-cases (ltbℤ (pos 0) cfg.rotate_interval)) [
          | inl on ↦ rw on (rotate-Running (text ++ []) now w same within)
          | inr off ↦ rw off (w, refl, same, within)
        ]
    handle-Running text (line now l) w r within =
        let w' = write_line o cfg l w in
        let after =
          subst (λ u. Running o cfg h index uid name (text ++ u) w')
            (sym (append-nil (l ++ b'\n' ∷ []))) (write_line-Running text l w r within) in
        elim (Bool-cases (is_full o cfg w')) [
          | inl full ↦ rw full (
              turn-Running (text ++ lines_text (line now l ∷ [])) now w' after
                (unfold write_line in ground arith))
          | inr fits ↦ rw fits (w', refl, after, is_full-IsWithin w' fits)
        ]

    run_worker-Stored :
        (es : List Event) (text : Bytes) (w : FileWorker)
        → Running o cfg h index uid name text w
        → IsWithin o cfg w.cur.writes
        → (w' : FileWorker) × (run_worker o cfg es w ≡ ok w')
          × Stored o cfg index uid name (text ++ lines_text es) w'
    unfolding run_worker
    run_worker-Stored [] text w r within = (
      terminate o cfg w,
      refl,
      subst (λ u. Stored o cfg index uid name u (terminate o cfg w)) (sym (append-nil text))
          (terminate-Stored o cfg h index uid name text w r),
    )
    run_worker-Stored (e ∷ es) text w r within =
        let (w', call, r', within') = handle-Running text e w r within in
        let (w'', rest, s) = run_worker-Stored es (text ++ lines_text (e ∷ [])) w' r' within' in
        (
          w'',
          rw call rest,
          subst (λ u. Stored o cfg index uid name u w'')
              (append_assoc text (lines_text (e ∷ [])) (lines_text es)
                ∙ ap (λ u. text ++ u) (sym (lines_text-cons e es)))
              s,
        )

    abbrev started : Bytes → FileWorker
    started p = record {
      repl_field_value = name;
      index = index;
      uid = uid;
      rotate_idx = 0;
      written_once = false;
      cur = record { path = p; writes = [] };
      closed = [];
      uploads = [];
      removed = [];
    }

    pub new_worker-Running :
        (now : Time) → Within o cfg h index uid name [] (new_worker o cfg now name index uid)
    unfolding new_worker new_file concat
    new_worker-Running now =
        let (p, made, path) = make_path-ok o cfg h now index uid 0 name in
        (
          started p,
          rw (made, h.creates now p) refl,
          record {
            before = [];
            stored = (refl, tt, tt, refl, refl);
            kept = refl;
            same_index = refl;
            same_uid = refl;
            same_name = refl;
            current = (now, path);
            count = refl;
            fits = inl refl;
            once = refl;
          },
          inr (omega (arith, h.starts (use_zstd o cfg))),
        )

-- Let templates have values, the file system oblige, what is written be added to a file, and no two
-- rotations of the worker have the same path. Then a new worker, whatever it receives, returns. The files
-- that it closes hold the lines, each with a newline, in order; their paths are those of the rotations from
-- 0 on; without its last line none is above RotateSize; all are uploaded, in order, but the empty ones if
-- these are discarded, which are removed.
pub new_worker-Stored :
    (o : Outside) (cfg : Config) (now : Time) (name : Bytes) (index : ℕ) (uid : Bytes)
    (es : List Event)
    → IsWorking o cfg
    → ArePaths o cfg index uid name
    → (w : FileWorker) × ((do k ← new_worker o cfg now name index uid; run_worker o cfg es k)
        ≡ ok w)
      × Stored o cfg index uid name (lines_text es) w
new_worker-Stored o cfg now name index uid es h apart =
    let (k, made, r, within) = new_worker-Running o cfg h index uid name apart now in
    let (w, call, s) = run_worker-Stored o cfg h index uid name apart es [] k r within in
    (w, rw made call, s)
