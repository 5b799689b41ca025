-- ===== src/FileWriter/Running.antt =====
-- output/filewriter.go: a worker that has received some text, and the closing of its file.
use mathlib.Core.Option.{some}
use baker.Common.{
  Bytes, List, [], ◌∷◌, ◌++◌, append-nil, concat, Bool-cases, ℕ, ◌+◌, Result, ok, true, false, not,
  ◌&&◌, length, All, All-append, ◌≡◌, refl, sym, ap, ◌∙◌, subst, inl, inr, arith,
}
use baker.FileWriter.Text.{Time, replacement_vars}
use baker.FileWriter.Worker.{
  Config, Outside, File, FileWorker, truncate, check_dir, make_path, new_file, rotate, terminate,
}
use baker.FileWriter.Files.{
  IsWorking, all_text, all_text_last, is_empty, is_discarded, uploaded_last, discarded_last,
  IsWithin, Fits, IsPath, IsNumbered, IsNumbered-last, Stored,
}

module _ (o : Outside) (cfg : Config) (h : IsWorking o cfg) where
  pub make_path-ok :
      (now : Time) (index : ℕ) (uid : Bytes) (n : ℕ) (name : Bytes)
      → (p : Bytes) × (make_path o cfg now index uid n name ≡ ok p)
        × (o.execute cfg.path_string (replacement_vars now index uid n name) ≡ some p)
  unfolding make_path check_dir
  make_path-ok now index uid n name =
      let (p, e) = h.executes (replacement_vars now index uid n name) in
      elim (h.dirs now (o.dir p)) [
        | inl there ↦ (p, rw (make_path, e, check_dir, there) refl, e)
        | inr (away, made) ↦ (p, rw (make_path, e, check_dir, away, made) refl, e)
      ]

  abbrev pub rotated : Bytes → FileWorker → FileWorker
  rotated p w = record w {
    rotate_idx = w.rotate_idx + 1;
    written_once = false;
    cur = record { path = p; writes = [] };
    closed = w.closed ++ w.cur ∷ [];
    uploads = w.uploads ++ w.cur.path ∷ [];
  }

  pub rotate-rotated :
      (now : Time) (w : FileWorker)
      → (cfg.discard_empty_files && not w.written_once) ≡ false
      → ((p : Bytes)
          → o.execute cfg.path_string
              (replacement_vars now w.index w.uid (w.rotate_idx + 1) w.repl_field_value)
            ≡ some p
          → truncate p (w.closed ++ w.cur ∷ []) ≡ w.closed ++ w.cur ∷ [])
      → (p : Bytes) × (rotate o cfg now w ≡ ok (rotated p w))
        × (o.execute cfg.path_string
              (replacement_vars now w.index w.uid (w.rotate_idx + 1) w.repl_field_value)
            ≡ some p)
  unfolding rotate new_file
  rotate-rotated now w e kept =
      let (p, made, path) = make_path-ok now w.index w.uid (w.rotate_idx + 1) w.repl_field_value in
      (p, rw (e, made, h.creates now p, kept p path) refl, path)

  module _ (index : ℕ) (uid : Bytes) (name : Bytes) where
    -- A worker that has received `text`.
    pub record Running (text : Bytes) (w : FileWorker) : Type 0 where
      pub before : Bytes
      pub stored : Stored o cfg index uid name before w
      pub kept : before ++ concat w.cur.writes ≡ text
      pub same_index : w.index ≡ index
      pub same_uid : w.uid ≡ uid
      pub same_name : w.repl_field_value ≡ name
      pub current : IsPath o cfg index uid name (length w.closed) w.cur.path
      pub count : w.rotate_idx ≡ length w.closed
      pub fits : Fits o cfg w.cur
      pub once : w.written_once ≡ not (is_empty w.cur.writes)

    -- The call returns a worker that has received `text`, and whose file is not above the size.
    abbrev pub Within : Bytes → Result FileWorker → Type 0
    Within text m = (w : FileWorker) × (m ≡ ok w) × Running text w × IsWithin o cfg w.cur.writes

    -- Of the files, once the current one is closed
    abbrev pub files : FileWorker → List File
    files w = w.closed ++ w.cur ∷ []

    pub close-kept :
        (text : Bytes) (w : FileWorker)
        → Running text w
        → (all_text (files w) ≡ text)
          × IsNumbered o cfg index uid name 0 (files w)
          × All (Fits o cfg) (files w)
    close-kept text w r =
        let (texts, numbered, fit, _, _) = r.stored in
        (
          all_text_last w.closed w.cur ∙ ap (λ u. u ++ concat w.cur.writes) texts ∙ r.kept,
          IsNumbered-last o cfg index uid name 0 w.closed w.cur numbered
              (subst (λ n. IsPath o cfg index uid name n w.cur.path) (omega arith) r.current),
          All-append (Fits o cfg) w.closed (w.cur ∷ []) fit (r.fits, tt),
        )

    pub close-uploaded :
        (text : Bytes) (w : FileWorker)
        → Running text w
        → is_discarded o cfg w.cur ≡ false
        → Stored o cfg index uid name text
            (record w { closed = files w; uploads = w.uploads ++ w.cur.path ∷ [] })
    close-uploaded text w r e =
        let (texts, numbered, fit) = close-kept text w r in
        let (_, _, _, ups, rems) = r.stored in
        (
          texts,
          numbered,
          fit,
          rw (uploaded_last o cfg w.closed w.cur, e, ups) refl,
          rw (discarded_last o cfg w.closed w.cur, e, rems) (sym (append-nil _)),
        )

    close-discarded :
        (text : Bytes) (w : FileWorker)
        → Running text w
        → is_discarded o cfg w.cur ≡ true
        → Stored o cfg index uid name text
            (record w { closed = files w; removed = w.removed ++ w.cur.path ∷ [] })
    close-discarded text w r e =
        let (texts, numbered, fit) = close-kept text w r in
        let (_, _, _, ups, rems) = r.stored in
        (
          texts,
          numbered,
          fit,
          rw (uploaded_last o cfg w.closed w.cur, e, ups) (sym (append-nil _)),
          rw (discarded_last o cfg w.closed w.cur, e, rems) refl,
        )

    pub is_discarded-once :
        (text : Bytes) (w : FileWorker)
        → Running text w
        → is_discarded o cfg w.cur ≡ (cfg.discard_empty_files && not w.written_once)
    is_discarded-once text w r = elim (Bool-cases (is_empty w.cur.writes)) [
      | inl e ↦ rw (r.once, e) refl
      | inr e ↦ rw (r.once, e) refl
    ]

    pub terminate-Stored :
        (text : Bytes) (w : FileWorker)
        → Running text w
        → Stored o cfg index uid name text (terminate o cfg w)
    unfolding terminate
    terminate-Stored text w r = elim (Bool-cases (not w.written_once && cfg.discard_empty_files)) [
      | inl e ↦ rw e (close-discarded text w r (is_discarded-once text w r ∙ ground arith))
      | inr e ↦ rw e (close-uploaded text w r (is_discarded-once text w r ∙ ground arith))
    ]
