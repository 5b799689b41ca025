-- ===== src/FileWriter/Files.antt =====
-- output/filewriter.go: what the files of a worker are to hold, and where they go.
use mathlib.Core.Option.{some}
use baker.Common.{
  Bytes, List, [], ◌∷◌, ◌++◌, append-nil, append_assoc, concat, Bool-cases, ℕ, suc, ◌+◌, ◌≤◌, ◌<◌,
  ◌^◌, Bool, true, false, ◌&&◌, if◌then◌else◌, length, equal, equal_iff, All, ◌≢◌, ◌≡◌, refl, sym,
  ap, ◌∙◌, subst, ◌⊎◌, inl, inr, arith,
}
use baker.FileWriter.Text.{Time, replacement_vars}
use baker.FileWriter.Worker.{
  Config, Outside, exists, not_exist, truncate, File, FileWorker, Event, tick, line, use_zstd,
}

-- What is relied on: templates that compile have values, the file system obliges, a Write adds what is
-- written, and a file in which nothing was written has no bytes yet.
pub record IsWorking (o : Outside) (cfg : Config) : Type 0 where
  pub executes :
      (vars : List (Bytes × Bytes)) → (p : Bytes) × (o.execute cfg.path_string vars ≡ some p)
  pub dirs :
      (now : Time) (d : Bytes)
      → (o.stat now d ≡ exists) ⊎ ((o.stat now d ≡ not_exist) × (o.mkdir_all now d ≡ true))
  pub creates : (now : Time) (p : Bytes) → o.create now p ≡ true
  pub writes : (z : Bool) (ws : List Bytes) (b : Bytes) → o.write z ws b ≡ ws ++ b ∷ []
  pub starts : (z : Bool) → o.size z [] ≡ 0
  pub small : cfg.rotate_size < 2 ^ 63

-- The lines that a worker receives, each with a newline
abbrev pub lines_text : List Event → Bytes
lines_text [] = []
lines_text (tick now ∷ es) = lines_text es
lines_text (line now l ∷ es) = (l ++ b'\n' ∷ []) ++ lines_text es

pub lines_text-cons :
    (e : Event) (es : List Event) → lines_text (e ∷ es) ≡ lines_text (e ∷ []) ++ lines_text es
lines_text-cons (tick now) es = refl
lines_text-cons (line now l) es = sym (ap (λ u. u ++ lines_text es) (append-nil (l ++ b'\n' ∷ [])))

abbrev pub all_text : List File → Bytes
all_text [] = []
all_text (f ∷ fs) = concat f.writes ++ all_text fs

pub all_text_last :
    (fs : List File) (f : File) → all_text (fs ++ f ∷ []) ≡ all_text fs ++ concat f.writes
all_text_last [] f = append-nil (concat f.writes)
all_text_last (g ∷ fs) f =
    ap (λ u. concat g.writes ++ u) (all_text_last fs f)
    ∙ sym (append_assoc (concat g.writes) (all_text fs) (concat f.writes))

abbrev pub is_empty : List Bytes → Bool
is_empty [] = true
is_empty (b ∷ bs) = false

pub is_empty-append :
    (ws : List Bytes) (b : Bytes) (bs : List Bytes) → is_empty (ws ++ b ∷ bs) ≡ false
is_empty-append [] b bs = refl
is_empty-append (w ∷ ws) b bs = refl

module _ (o : Outside) (cfg : Config) where
  -- A file that is not uploaded
  abbrev pub is_discarded : File → Bool
  is_discarded f = cfg.discard_empty_files && is_empty f.writes

  abbrev pub uploaded : List File → List Bytes
  uploaded [] = []
  uploaded (f ∷ fs) = let rest = uploaded fs in if is_discarded f then rest else f.path ∷ rest

  abbrev pub discarded : List File → List Bytes
  discarded [] = []
  discarded (f ∷ fs) = let rest = discarded fs in if is_discarded f then f.path ∷ rest else rest

  abbrev pub IsWithin : List Bytes → Type 0
  IsWithin ws = (cfg.rotate_size ≡ 0) ⊎ (o.size (use_zstd o cfg) ws ≤ cfg.rotate_size)

  -- Without its last line, a file is not above the size at which files are rotated.
  abbrev pub Fits : File → Type 0
  Fits f =
      (f.writes ≡ [])
      ⊎ ((ws : List Bytes) × (l : Bytes) × (f.writes ≡ ws ++ l ∷ (b'\n' ∷ []) ∷ []) × IsWithin ws)

  -- The path of a file, by its rotation
  module _ (index : ℕ) (uid : Bytes) (name : Bytes) where
    abbrev pub IsPath : ℕ → Bytes → Type 0
    IsPath n p =
        (now : Time) × (o.execute cfg.path_string (replacement_vars now index uid n name) ≡ some p)

    abbrev pub IsNumbered : ℕ → List File → Type 0
    IsNumbered n [] = Unit
    IsNumbered n (f ∷ fs) = IsPath n f.path × IsNumbered (suc n) fs

    pub IsNumbered-last :
        (n : ℕ) (fs : List File) (f : File)
        → IsNumbered n fs
        → IsPath (n + length fs) f.path
        → IsNumbered n (fs ++ f ∷ [])
    IsNumbered-last n [] f h p = (subst (λ u. IsPath u f.path) (omega arith) p, tt)
    IsNumbered-last n (g ∷ fs) f h p =
        (h.0, IsNumbered-last (suc n) fs f h.1 (subst (λ u. IsPath u f.path) (omega arith) p))

    -- Two rotations never have the same path, whenever they come.
    abbrev pub ArePaths : Type 0
    ArePaths = (m n : ℕ) (p : Bytes) → IsPath m p → IsPath n p → m ≡ n

    -- All that was received is in the files that were closed, in order. Their rotations are numbered
    -- from 0, and each was either uploaded or, if it is empty and such are discarded, removed.
    abbrev pub Stored : Bytes → FileWorker → Type 0
    Stored text w =
        (all_text w.closed ≡ text)
        × IsNumbered 0 w.closed
        × All Fits w.closed
        × (w.uploads ≡ uploaded w.closed)
        × (w.removed ≡ discarded w.closed)

  -- The name of a worker is empty if paths do not show it.
  abbrev pub IsName : Bool → Bytes → Type 0
  IsName repl name = repl ≡ false → name ≡ []

  -- Paths differ for two rotations, and for two names.
  abbrev pub AreApart : ℕ → Bool → Type 0
  AreApart index repl =
      (uid uid' name name' : Bytes) (m n : ℕ) (p : Bytes)
      → IsName repl name
      → IsName repl name'
      → IsPath index uid name m p
      → IsPath index uid' name' n p
      → (m ≡ n) × (name ≡ name')

  pub uploaded_last :
      (fs : List File) (f : File)
      → uploaded (fs ++ f ∷ []) ≡ uploaded fs ++ (if is_discarded f then [] else f.path ∷ [])
  uploaded_last [] f = refl
  uploaded_last (g ∷ fs) f =
      rw (uploaded_last fs f)
        (elim (Bool-cases (is_discarded g)) [ inl e ↦ rw e refl | inr e ↦ rw e refl ])

  pub discarded_last :
      (fs : List File) (f : File)
      → discarded (fs ++ f ∷ []) ≡ discarded fs ++ (if is_discarded f then f.path ∷ [] else [])
  discarded_last [] f = refl
  discarded_last (g ∷ fs) f =
      rw (discarded_last fs f)
        (elim (Bool-cases (is_discarded g)) [ inl e ↦ rw e refl | inr e ↦ rw e refl ])

-- Files that do not have a path are not truncated.
pub truncate-absent :
    (p : Bytes) (fs : List File) → All (λ (f : File). f.path ≢ p) fs → truncate p fs ≡ fs
unfolding truncate
truncate-absent p [] h = refl
truncate-absent p (f ∷ fs) h = elim (Bool-cases (equal f.path p)) [
  | inl e ↦ absurd (h.0 ((equal_iff f.path p).0 e))
  | inr e ↦ rw e (ap (λ gs. f ∷ gs) (truncate-absent p fs h.1))
]

-- If a path is that of none of their rotations, files do not have it.
pub IsNumbered-absent :
    (o : Outside) (cfg : Config) (index : ℕ) (uid name : Bytes) (n : ℕ) (fs : List File) (p : Bytes)
    → ((m : ℕ) → m < n + length fs → IsPath o cfg index uid name m p → ⊥)
    → IsNumbered o cfg index uid name n fs
    → All (λ (f : File). f.path ≢ p) fs
IsNumbered-absent o cfg index uid name n [] p away h = tt
IsNumbered-absent o cfg index uid name n (f ∷ fs) p away h = (
  λ e. away n (omega arith) (subst (IsPath o cfg index uid name n) e h.0),
  IsNumbered-absent o cfg index uid name (suc n) fs p (λ m l. away m (omega (arith, l))) h.1,
)
