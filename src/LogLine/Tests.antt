-- ===== src/LogLine/Tests.antt =====
-- Tests of logline.go's model, and its theorems at concrete lines.
use mathlib.Core.Option.{none, some}
use baker.Common.{
  ℕ, zero, suc, ◌>>=◌, ◌≡◌, refl, arith, Bytes, [], ◌∷◌, length, Result, ok, if◌then◌else◌, ◌==◌,
  get_or, ◌<◌, ◌^◌, out_of_fuel, ok-injective, sym, ap, ◌∙◌, eqbℤ, too_many_fields,
}
use baker.Record.{Slice, nil, bytes, Metadata, content}
use baker.LogLine.{
  LogLine, get, get_parsed, set, parse, scan, empty, update, to_text, sum_wdata, last_field,
  find_last, append_fields, copy, prefix,
}
use baker.LogLine.Invariant.{IsValid}
use baker.LogLine.Fields.{set_new, added, set-IsValid, get-set}
use baker.LogLine.Parsed.{field, get-parse, parse-IsValid, empty-IsFresh}
use baker.LogLine.RoundTrip.{IsClean, IsReadBack, to_text-parse}
use baker.LogLine.Clean.{parse-IsClean, set-IsClean}
use baker.LogLine.Copy.{IsCopy, copy_total}
use baker.LogLine.Split.{split}
use baker.LogLine.Accepts.{fits, parse-error}
use baker.LogLine.Text.{to_text_full}

abbrev comma : ℕ
comma = b','

-- "a,,c"
abbrev text : Slice
text = bytes (b'a' ∷ b',' ∷ b',' ∷ b'c' ∷ [])

abbrev md : Metadata ℕ
md = none

abbrev line : LogLine ℕ
line = (parse (empty comma) text md).0

accepted : (parse (empty {V = ℕ} comma) text md).1 ≡ none
unfolding parse scan empty update
accepted = refl

get-parse_example :
    get (parse (empty {V = ℕ} comma) text md).0 2
    ≡ ok (field (get_or (split (empty {V = ℕ} comma).field_separator (content text)) 2 []))
get-parse_example =
    get-parse (empty comma) text md (empty-IsFresh comma) (omega arith) accepted 2 (omega arith)

get_third : get line 2 ≡ ok (bytes (b'c' ∷ []))
unfolding get get_parsed parse scan empty update prefix
get_third = refl

get_second : get line 1 ≡ ok nil
unfolding get get_parsed parse scan empty update prefix
get_second = refl

line-IsValid : IsValid line
line-IsValid = parse-IsValid (empty comma) text md (empty-IsFresh comma) (omega arith) accepted

line-separator : line.field_separator ≡ comma
unfolding parse scan empty update
line-separator = refl

line-wcnt : line.wcnt ≡ 0
unfolding parse scan empty update
line-wcnt = refl

parse-IsClean_example : IsClean line
parse-IsClean_example =
    parse-IsClean (empty comma) text md (empty-IsFresh comma) (omega arith) accepted

line-wmask : line.wmask 1 ≡ 0
unfolding parse scan empty update
line-wmask = refl

-- The line with "x" in its second field.
abbrev x : Slice
x = bytes (b'x' ∷ [])

abbrev modified : LogLine ℕ
modified = added line 1 x

set_second : set line 1 x ≡ ok modified
set_second = set_new line 1 x (omega arith) line-wmask (omega (arith, line-wcnt))

get-set_example : get modified 0 ≡ (if 1 == 0 then ok x else get line 0)
get-set_example = get-set line 1 0 x line-IsValid set_second

set-IsValid_example : IsValid modified
set-IsValid_example = set-IsValid line 1 x line-IsValid set_second

set-IsClean_example : IsClean modified
set-IsClean_example =
    set-IsClean line 1 x line-IsValid parse-IsClean_example (rw line-separator (omega arith))
      set_second

to_text-parse_example :
    (t : Bytes) × (to_text 256 modified [] ≡ ok t) × (length t < 2 ^ 31 → IsReadBack modified md t)
to_text-parse_example =
    to_text-parse modified 256 md set-IsValid_example set-IsClean_example (omega arith)
      (omega (arith, line-wcnt)) (omega arith)

to_text-modified : to_text 256 modified [] ≡ ok (b'a' ∷ b',' ∷ b'x' ∷ b',' ∷ b'c' ∷ [])
unfolding to_text sum_wdata last_field find_last append_fields get get_parsed parse scan empty
    update prefix eqbℤ
to_text-modified = refl

modified_short : (t : Bytes) → to_text 256 modified [] ≡ ok t → length t < 2 ^ 31
modified_short t e =
    let same : (b'a' ∷ b',' ∷ b'x' ∷ b',' ∷ b'c' ∷ []) ≡ t =
      ok-injective (sym to_text-modified ∙ e) in
    omega (arith, ap (length {A = ℕ}) same)

copy_total_example : (r : LogLine ℕ) × (copy 256 modified ≡ ok r) × IsCopy modified r
copy_total_example =
    copy_total modified 256 set-IsValid_example set-IsClean_example (omega (arith, line-wcnt))
      (omega arith) modified_short

-- `Set` of the fields below `n`, one after the other.
set_below : ℕ → LogLine ℕ → Result (LogLine ℕ)
set_below zero l = ok l
set_below (suc n) l = do l' ← set l n x; set_below n l'

or_line : Result (LogLine ℕ) → LogLine ℕ
or_line (ok l) = l
or_line _ = line

abbrev full : LogLine ℕ
full = or_line (set_below 255 line)

full-wcnt : full.wcnt ≡ 255
unfolding or_line set_below set parse scan empty update
full-wcnt = refl

to_text_full_example : to_text 1000 full [] ≡ out_of_fuel
to_text_full_example = to_text_full full 1000 [] full-wcnt

parse-error_example : (parse (empty {V = ℕ} comma) text md).1 ≡ (
    if fits (split (empty {V = ℕ} comma).field_separator (content text))
    then none
    else some too_many_fields)
parse-error_example = parse-error (empty comma) text md
