-- ===== src/LogLine.antt =====
-- logline.go: the type LogLine and its methods. Arrays are functions on the index, and each access
-- is guarded by the array's length where an index comes from the caller.
-- A slice is its bytes: sharing of memory and spare capacity are not modelled.
pub mod Invariant
pub mod Fields
pub mod Split
pub mod Separators
pub mod Accepts
pub mod Parsed
pub mod Text
pub mod RoundTrip
pub mod Copy
pub mod Clean
mod Tests
use mathlib.Core.Option.{Option, none, some}
use baker.Common.{
  ℕ, zero, suc, ◌+◌, ◌-◌, ◌%◌, Bool, true, false, not, ◌&&◌, ◌||◌, List, [], ◌∷◌, ◌++◌, ltb, leb,
  ◌==◌, if◌then◌else◌, Bytes, ℤ, pos, negsuc, ◌+ℤ◌, ◌-ℤ◌, ltbℤ, eqbℤ, int32, length, take, drop,
  max, Result, Error, too_many_fields, ok, err, panic, out_of_fuel, ◌>>=◌,
}
use baker.Cache.{Cache}
use baker.Common.Dict.{Dict}
use baker.Record.{FieldIndex, Slice, nil, bytes, content, len, Metadata}
use baker.Record

abbrev pub log_line_num_fields : ℕ
log_line_num_fields = 3000

abbrev pub num_fields_baker : ℕ
num_fields_baker = 100

abbrev pub default_field_separator : ℕ
default_field_separator = 44

pub record LogLine (V : Type 0) : Type 0 where
  pub idx : ℕ → ℤ
  pub line : Slice
  pub metadata : Metadata V
  pub wmask : FieldIndex → ℕ
  pub wdata : ℕ → Slice
  pub wcnt : ℕ
  pub cache : Cache V
  pub field_separator : ℕ

-- `a[i] = v`
unfoldable pub update {ℓ} : {A : Type ℓ} → (ℕ → A) → ℕ → A → ℕ → A
update a i v j = if i == j then v else a j

-- `s[lo:hi]`
unfoldable pub slice_range : Slice → ℤ → ℤ → Result Slice
slice_range s (pos lo) (pos hi) =
    if leb lo hi && leb hi (len s) then ok (bytes (take (hi - lo) (drop lo (content s)))) else panic
slice_range s (pos lo) (negsuc hi) = panic
slice_range s (negsuc lo) hi = panic

-- What the loop of `Parse` leaves: the separators found, the next free index, and the length of the
-- text once a final separator is trimmed.
pub record Scanned : Type 0 where
  pub idx : ℕ → ℤ
  pub fc : ℕ
  pub stop : ℕ
  pub failed : Bool

-- The loop of `Parse` over the rest of the text, which begins at byte `i`. At a separator too many,
-- `i == len(text)-1` says that nothing is left.
unfoldable pub scan : ℕ → Bytes → ℕ → FieldIndex → (ℕ → ℤ) → Scanned
unfolding update
scan sep [] i fc idx = record { idx = idx; fc = fc; stop = i; failed = false }
scan sep (c ∷ cs) i fc idx = elim (c == sep) [
  | false ↦ scan sep cs (suc i) fc idx
  | true ↦ elim (leb log_line_num_fields fc) [
    | true ↦ record {
      idx = idx;
      fc = fc;
      stop = i;
      failed = ltb log_line_num_fields fc || not (length cs == 0);
    }
    | false ↦ scan sep cs (suc i) (suc fc) (update idx fc (int32 i))
  ]
]

-- `text[:n]`
unfoldable pub prefix : Slice → ℕ → Slice
prefix nil n = nil
prefix (bytes b) n = bytes (take n b)

abbrev pub is_nil : Slice → Bool
is_nil nil = true
is_nil (bytes b) = false

-- `for i := n; i > 0; i--`, up to the first index that passes the test; 0 if none does.
unfoldable pub find_last : (ℕ → Bool) → ℕ → ℕ
find_last test zero = 0
find_last test (suc i) = if test (suc i) then suc i else find_last test i

-- The entries that `for k, v := range l.meta` copies.
abbrev entries {ℓ} : {V : Type ℓ} → Metadata V → Dict V
entries none = []
entries (some m) = m

module _ {V : Type 0} where
  -- A line as `&LogLine{FieldSeparator: sep}` makes it.
  unfoldable pub empty : ℕ → LogLine V
  empty sep = record {
    idx = λ i. pos 0;
    line = nil;
    metadata = none;
    wmask = λ f. 0;
    wdata = λ i. nil;
    wcnt = 0;
    cache = none;
    field_separator = sep;
  }

  -- The field as it was parsed.
  unfoldable pub get_parsed : LogLine V → FieldIndex → Result Slice
  unfolding ◌+ℤ◌ ◌-ℤ◌ ltbℤ slice_range
  get_parsed l f =
      let s = l.idx f +ℤ pos 1 in
      let e = l.idx (suc f) in if ltbℤ (e -ℤ s) (pos 1) then ok nil else slice_range l.line s e

  unfoldable pub get : LogLine V → FieldIndex → Result Slice
  get l f =
      if leb (log_line_num_fields + num_fields_baker) f
      then panic
      else if not (l.wmask f == 0)
      then ok (l.wdata (l.wmask f))
      else if leb log_line_num_fields f
      then ok nil
      else get_parsed l f

  -- `wcnt` is a uint8: `l.wcnt++` wraps to 0 after 255.
  unfoldable pub set : LogLine V → FieldIndex → Slice → Result (LogLine V)
  unfolding update
  set l f v =
      let cnt = (l.wcnt + 1) % 256 in
      if leb (log_line_num_fields + num_fields_baker) f
      then panic
      else if not (l.wmask f == 0)
      then ok (record l { wdata = update l.wdata (l.wmask f) v })
      else if cnt == 0
      then panic
      else ok (record l { wcnt = cnt; wmask = update l.wmask f cnt; wdata = update l.wdata cnt v })

  -- The line and the error that `Parse` returns, if any. A failed `Parse` has written separators.
  unfoldable pub parse : LogLine V → Slice → Metadata V → LogLine V × Option Error
  unfolding update int32
  parse l text md =
      let s = scan l.field_separator (content text) 0 1 (update l.idx 0 (negsuc 0)) in
      if s.failed then (record l { idx = s.idx }, some too_many_fields) else (
        record l {
          idx = update s.idx s.fc (int32 s.stop);
          line = prefix text s.stop;
          metadata = md;
        },
        none,
      )

  -- `for i := uint8(1); i <= l.wcnt; i++` sums the lengths of the modified fields; `i` is a uint8.
  unfoldable pub sum_wdata : ℕ → LogLine V → ℕ → ℕ → Result ℕ
  sum_wdata zero l i wlen = out_of_fuel
  sum_wdata (suc fuel) l i wlen =
      let rest = sum_wdata fuel l ((i + 1) % 256) (wlen + len (l.wdata i)) in
      if leb i l.wcnt then rest else ok wlen

  -- The last field of the text: the last one modified or, if greater, the last one parsed.
  unfoldable pub last_field : LogLine V → FieldIndex
  last_field l =
      let last = find_last (λ i. not (l.wmask i == 0)) (log_line_num_fields - 1) in
      let lastr = find_last (λ i. not (eqbℤ (l.idx i) (pos 0))) log_line_num_fields - 1 in
      if is_nil l.line then last else if ltb last lastr then lastr else last

  -- The loop that appends the fields, with the rounds left.
  unfoldable pub append_fields : LogLine V → FieldIndex → ℕ → FieldIndex → Bytes → Result Bytes
  append_fields l last zero fc buf = ok buf
  append_fields l last (suc n) fc buf = do
    v ← get l fc
    let rest = append_fields l last n (suc fc) ((buf ++ content v) ++ l.field_separator ∷ [])
    if leb last fc then ok (buf ++ content v) else rest

  -- The length summed only sizes the new buffer.
  unfoldable pub to_text : ℕ → LogLine V → Bytes → Result Bytes
  to_text fuel l buf =
      if l.wcnt == 0
      then ok (buf ++ content l.line)
      else do wlen ← sum_wdata fuel l 1 0; append_fields l (last_field l) log_line_num_fields 0 buf

  unfoldable pub clear : LogLine V → LogLine V
  unfolding empty
  clear l = empty l.field_separator

  unfoldable pub meta : LogLine V → Bytes → Option V
  unfolding Record.get
  meta l key = Record.get l.metadata key

  -- `if fbuf := l.Get(i); fbuf != nil { … cpy.Set(i, fcpy) }`
  unfoldable pub copy_field : LogLine V → FieldIndex → Slice → Result (LogLine V)
  copy_field cpy f nil = ok cpy
  copy_field cpy f (bytes b) = set cpy f (bytes b)

  unfoldable pub copy_custom : LogLine V → ℕ → FieldIndex → LogLine V → Result (LogLine V)
  copy_custom l zero f cpy = ok cpy
  copy_custom l (suc n) f cpy = do
    v ← get l f
    cpy' ← copy_field cpy f v
    copy_custom l n (suc f) cpy'

  -- The cache is a Go map, which the copy shares with the original from then on if it is not nil.
  unfoldable pub copy : ℕ → LogLine V → Result (LogLine V)
  copy fuel l =
      let md = some (entries l.metadata) in
      let cpy = record (empty l.field_separator) { cache = l.cache; metadata = md } in
      if not (l.wcnt == 0)
      then (do
        text ← to_text fuel l []
        copy_custom l num_fields_baker log_line_num_fields (parse cpy (bytes text) md).0)
      else if is_nil l.line
      then ok cpy
      else ok (record cpy { line = l.line; idx = l.idx })
