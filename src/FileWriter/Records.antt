-- ===== src/FileWriter/Records.antt =====
-- output/filewriter.go: the records that each worker of a FileWriter is to have received.
use baker.Common.{
  Bytes, List, [], ◌∷◌, ◌++◌, append_assoc, Bool-cases, ℕ, suc, Bool, equal_iff, if◌then◌else◌,
  equal, ◌≡◌, refl, ap, ◌∙◌, inl, inr,
}
use baker.Record.{content}
use baker.Topology.{OutputRecord}
use baker.FileWriter.{Arrival, arrives, ticks}

-- The name of the worker of a record
abbrev pub first_field : List Bytes → Bytes
first_field [] = []
first_field (f ∷ fs) = f

abbrev pub name_of : Bool → OutputRecord → Bytes
name_of repl r = if repl then first_field r.fields else []

-- The records of a name, as they arrive
unfoldable pub records_for : Bool → Bytes → List Arrival → List Bytes
records_for repl name [] = []
records_for repl name (ticks now wname ∷ es) = records_for repl name es
records_for repl name (arrives now r ∷ es) =
    let rest = records_for repl name es in
    if equal (name_of repl r) name then content r.raw ∷ rest else rest

abbrev pub count_records : List Arrival → ℕ
count_records [] = 0
count_records (ticks now wname ∷ es) = count_records es
count_records (arrives now r ∷ es) = suc (count_records es)

-- Each of them with a newline
abbrev pub text_of : List Bytes → Bytes
text_of [] = []
text_of (l ∷ ls) = (l ++ b'\n' ∷ []) ++ text_of ls

pub text_of_last :
    (ls : List Bytes) (l : Bytes) → text_of ls ++ ((l ++ b'\n' ∷ []) ++ []) ≡ text_of (ls ++ l ∷ [])
text_of_last [] l = refl
text_of_last (k ∷ ls) l =
    append_assoc (k ++ b'\n' ∷ []) (text_of ls) ((l ++ b'\n' ∷ []) ++ [])
    ∙ ap (λ u. (k ++ b'\n' ∷ []) ++ u) (text_of_last ls l)

pub due-arrives :
    (done : Bytes → List Bytes) (name u l : Bytes) (rest : List Bytes)
    → (if equal name u then done name ++ l ∷ [] else done u) ++ rest
      ≡ done u ++ (if equal name u then l ∷ rest else rest)
due-arrives done name u l rest = elim (Bool-cases (equal name u)) [
  | inl e ↦ rw e (
      ap (λ v. (done v ++ l ∷ []) ++ rest) ((equal_iff name u).0 e)
      ∙ append_assoc (done u) (l ∷ []) rest)
  | inr e ↦ rw e refl
]

pub due_ticks :
    (done : Bytes → List Bytes) (wname u : Bytes)
    → (if equal wname u then done wname else done u) ≡ done u
due_ticks done wname u = elim (Bool-cases (equal wname u)) [
  | inl e ↦ rw e (ap done ((equal_iff wname u).0 e))
  | inr e ↦ rw e refl
]
