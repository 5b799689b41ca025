-- ===== src/Filter/Tests.antt =====
-- The theorems on the filters, at one log line.
use mathlib.Core.Option.{none, some}
use baker.Common.{
  Bytes, List, [], ◌∷◌, ℕ, ◌+◌, ◌-◌, min, pos, Result, ok, err, panic, out_of_fuel, ◌==◌, Bool,
  true, not, if◌then◌else◌, take, drop, equal, ◌↔◌, ◌⊎◌, inr, ◌≡◌, refl, arith,
}
use baker.Record.{FieldIndex, Slice, nil, bytes, Metadata}
use mathlib.Core.Option.{Option}
use baker.Common.Strconv.{itoa}
use baker.Filter.MetadataUrl
use baker.Filter.MetadataUrl.{MetadataUrl}
use baker.Filter.MetadataUrl.Cached.{plain, IsCached, process-plain}
use baker.Filter.SetStringFromUrl.{metadata_url}
use baker.Common.Dict.{lookup}
use baker.LogLine.{LogLine, empty, get, meta, get_parsed, parse, scan, update, set, prefix}
use baker.LogLine.Invariant.{IsValid}
use baker.LogLine.Parsed.{parse-IsValid, empty-IsFresh}
use baker.LogLine.Split.{join, split}
use baker.RecordType.{RecordType}
use baker.RecordType.LogLines.{log_lines, log_line_laws}
use baker.Filter.Interface.{dropped}
use baker.Filter.Fixture.{fixture}
use baker.Filter.Kinds
use baker.Filter.Kinds.{Filter, num_filtered_lines, process_counts}
use baker.Filter.NotNull
use baker.Filter.NotNull.{NotNull}
use baker.Filter.StringMatch
use baker.Filter.StringMatch.{StringMatch}
use baker.Filter.StringMatch.Matches.{process-match}
use baker.Filter.ClearFields
use baker.Filter.ClearFields.{ClearFields}
use baker.Filter.ClearFields.Cleared.{is_cleared, get-process}
use baker.Filter.Dedup
use baker.Filter.Dedup.{Dedup, construct_key, field_values}
use baker.Filter.Dedup.Keys.{IsIn, process-IsIn, construct_key-injective}
use baker.Filter.Slice.{SliceFilter, slice}
use baker.Filter.Slice.Bounds.{bound, slice_within}
use baker.Filter.Concatenate
use baker.Filter.Concatenate.{Concatenate}
use baker.Filter.Concatenate.Joined.{join_by, process-join_by}
use baker.Filter.ExpandList.{expand}
use baker.Filter.ExpandList.Sorted.{expand_all, expand-expand_all}

abbrev T : RecordType ℕ
T = log_lines ℕ

-- "a,,c"
abbrev text : Slice
text = bytes (b'a' ∷ b',' ∷ b',' ∷ b'c' ∷ [])

abbrev md : Metadata ℕ
md = none

abbrev line : LogLine ℕ
line = (parse (empty b',') text md).0

accepted : (parse (empty {V = ℕ} b',') text md).1 ≡ none
unfolding parse scan empty update
accepted = refl

line-IsValid : IsValid line
line-IsValid = parse-IsValid (empty b',') text md (empty-IsFresh b',') (omega arith) accepted

get_first : T.get line 0 ≡ ok (bytes (b'a' ∷ []))
unfolding get get_parsed parse scan empty update prefix
get_first = refl

-- A filter that drops the line.
abbrev second : NotNull
second = record { num_filtered_lines = 4; fields = 1 ∷ [] }

second_drops :
    Kinds.process T fixture line (Kinds.not_null second) line
    ≡ ok (Kinds.not_null (record second { num_filtered_lines = 5 }), none)
unfolding Kinds.process NotNull.process NotNull.any_null get get_parsed parse scan empty update
    prefix
second_drops = refl

process_counts_example :
    num_filtered_lines {J = Bytes} (Kinds.not_null (record second { num_filtered_lines = 5 }))
    ≡ num_filtered_lines {J = Bytes} (Kinds.not_null second) + dropped {A = LogLine ℕ} none
process_counts_example =
    process_counts T fixture line (Kinds.not_null second) _ line none second_drops

abbrev matcher : StringMatch
matcher = record { field = 0; strings = (b'a' ∷ []) ∷ []; invert = true; discarded = 0 }

process-match_example :
    (found : Bool) × ((found ≡ true) ↔ IsIn (b'a' ∷ []) matcher.strings)
    × (StringMatch.process T matcher line ≡ (
        if (if true then not found else found)
        then ok (record matcher { discarded = 1 }, none)
        else ok (matcher, some line)))
process-match_example = process-match T matcher line (bytes (b'a' ∷ [])) get_first

abbrev clearing : ClearFields
clearing = record { fields = 2 ∷ [] }

or_line : Result (LogLine ℕ) → LogLine ℕ
or_line (ok l) = l
or_line _ = line

abbrev cleared : LogLine ℕ
cleared = or_line (T.set line 2 nil)

clears : ClearFields.process T clearing line ≡ ok (clearing, some cleared)
unfolding ClearFields.process ClearFields.clear_all or_line set parse scan empty update
clears = refl

get-process_example :
    T.get cleared 2 ≡ (if is_cleared clearing.fields 2 then ok nil else T.get line 2)
get-process_example =
    get-process T (log_line_laws ℕ) clearing clearing line cleared 2 line-IsValid clears

abbrev deduping : Dedup
deduping = record { fields = 0 ∷ 2 ∷ []; sep = 30; dedup_set = []; num_filtered_lines = 0 }

values_of_line : field_values T (0 ∷ 2 ∷ []) line ≡ ok ((b'a' ∷ []) ∷ (b'c' ∷ []) ∷ [])
unfolding field_values get get_parsed parse scan empty update prefix
values_of_line = refl

abbrev key : Bytes
key = b'a' ∷ 30 ∷ b'c' ∷ []

key_of_line : construct_key T deduping line ≡ ok key
unfolding construct_key field_values get get_parsed parse scan empty update prefix join
key_of_line = refl

process-IsIn_example :
    (IsIn key deduping.dedup_set
      × (Dedup.process T deduping line ≡ ok (record deduping { num_filtered_lines = 1 }, none)))
    ⊎ ((¬ IsIn key deduping.dedup_set)
        × (Dedup.process T deduping line
            ≡ ok (record deduping { dedup_set = key ∷ [] }, some line)))
process-IsIn_example = process-IsIn T deduping line key key_of_line

construct_key-injective_example :
    ◌≡◌ {A = List Bytes} ((b'a' ∷ []) ∷ (b'c' ∷ []) ∷ []) ((b'a' ∷ []) ∷ (b'c' ∷ []) ∷ [])
construct_key-injective_example =
    construct_key-injective T deduping line line (b'a' ∷ []) (b'a' ∷ []) key ((b'c' ∷ []) ∷ [])
      ((b'c' ∷ []) ∷ []) values_of_line values_of_line (omega arith, (omega arith, tt))
      (omega arith, (omega arith, tt)) key_of_line key_of_line

abbrev slicing : SliceFilter
slicing = record { src = 0; dst = 1; start_idx = pos 1; end_idx = pos 3 }

-- "abcd"
abbrev abcd : Bytes
abcd = b'a' ∷ b'b' ∷ b'c' ∷ b'd' ∷ []

slice_within_example :
    slice slicing (bytes abcd) ≡ ok (bytes (take (bound 3 4 - min 1 4) (drop (min 1 4) abcd)))
slice_within_example = slice_within slicing 1 3 (bytes abcd) refl refl (inr (omega arith))

-- The last field is set to the first and the third, without a separator.
abbrev concatenating : Concatenate
concatenating = record { fields = 0 ∷ 2 ∷ []; target = 3; separator = [] }

abbrev concatenated : Result (LogLine ℕ)
concatenated = T.set line 3 (bytes (join_by [] ((b'a' ∷ []) ∷ (b'c' ∷ []) ∷ [])))

abbrev joined : LogLine ℕ
joined = elim concatenated [ ok l ↦ l | err e ↦ line | panic ↦ line | out_of_fuel ↦ line ]

concatenates : concatenated ≡ ok joined
unfolding set parse scan empty update
concatenates = refl

process-join_by_example :
    (Concatenate.process T concatenating line ≡ ok (concatenating, some joined))
    × ((g : FieldIndex)
        → T.get joined g ≡ (
            if 3 == g
            then ok (bytes (join_by [] ((b'a' ∷ []) ∷ (b'c' ∷ []) ∷ [])))
            else T.get line g))
process-join_by_example =
    process-join_by T (log_line_laws ℕ) concatenating line joined ((b'a' ∷ []) ∷ (b'c' ∷ []) ∷ [])
      line-IsValid values_of_line concatenates

expand-expand_all_example :
    expand T (split b';' abcd) ((0, 1) ∷ (7, 2) ∷ []) line
    ≡ expand_all T (split b';' abcd) ((0, 1) ∷ (7, 2) ∷ []) line
expand-expand_all_example =
    expand-expand_all T (split b';' abcd) ((0, 1) ∷ (7, 2) ∷ []) line ((omega arith, tt), (tt, tt))

-- A line with the URL of address 7 in its metadata.
abbrev url_line : LogLine ℕ
url_line = (parse (empty b',') text (some ((metadata_url, 7) ∷ []))).0

abbrev url_filter : MetadataUrl
url_filter = record { dst = 1; urls = record { cache = (7, b'7' ∷ []) ∷ []; nentries = 1 } }

abbrev with_url : LogLine ℕ
with_url = or_line (T.set url_line 1 (bytes (b'7' ∷ [])))

writes_url : MetadataUrl.process T fixture url_filter url_line ≡ ok (url_filter, some with_url)
unfolding MetadataUrl.process MetadataUrl.url_text or_line set parse scan empty update meta lookup
    equal
writes_url = refl

process-plain_example :
    (l' : LogLine ℕ) × (plain T fixture 1 url_line ≡ ok l')
    × (◌≡◌ {A = Option (LogLine ℕ)} (some with_url) (some l'))
    × IsCached fixture url_filter.urls
unfolding itoa
process-plain_example =
    process-plain T fixture url_filter url_filter url_line (some with_url)
      (record { exact = (refl, tt); counted = omega arith; bounded = omega arith }) writes_url
