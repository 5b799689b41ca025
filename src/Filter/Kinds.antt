-- ===== src/Filter/Kinds.antt =====
-- filter/all.go: the filters of the repository that are modelled, as one implementation of the
-- interface Filter, and their statistics.
use mathlib.Core.Option.{Option, none, some}
use baker.Record.{content}
use baker.Common.{
  ℕ, ◌+◌, ◌≡◌, refl, sym, ap, ◌∙◌, arith, Result, returned, ok, ok-injective, err, panic,
  out_of_fuel, ◌>>=◌, Bool, true, false, not, if◌then◌else◌,
}
use baker.RecordType.{RecordType}
use baker.Filter.Names.{Outcome}
use baker.Filter.Interface.{FilterType, FilterLaws, dropped}
use baker.Filter.NotNull
use baker.Filter.NotNull.{NotNull}
use baker.Filter.StringMatch
use baker.Filter.StringMatch.{StringMatch}
use baker.Filter.ClearFields
use baker.Filter.ClearFields.{ClearFields}
use baker.Filter.Dedup
use baker.Filter.Dedup.{Dedup}
use baker.Filter.Slice
use baker.Filter.Slice.{SliceFilter}
use baker.Filter.ExpandList
use baker.Filter.ExpandList.{ExpandList}
use baker.Filter.Concatenate
use baker.Filter.Concatenate.{Concatenate}
use baker.Filter.ReplaceFields
use baker.Filter.ReplaceFields.{ReplaceFields}
use baker.Filter.PartialClone
use baker.Filter.PartialClone.{PartialClone}
use baker.Filter.TimestampRange
use baker.Filter.TimestampRange.{TimestampRange}
use baker.Filter.External.{External}
use baker.Filter.RegexMatch
use baker.Filter.RegexMatch.{RegexMatch}
use baker.Filter.UrlEscape
use baker.Filter.UrlEscape.{UrlEscape}
use baker.Filter.UrlParam
use baker.Filter.UrlParam.{UrlParam}
use baker.Filter.Hash
use baker.Filter.Hash.Counted.{hashed-counts}
use baker.Filter.Hash.{Hash}
use baker.Filter.SetStringFromUrl
use baker.Filter.SetStringFromUrl.{SetStringFromUrl}
use baker.Filter.Timestamp
use baker.Filter.Timestamp.{Timestamp}
use baker.Filter.CountAndTag
use baker.Filter.CountAndTag.{CountAndTag}
use baker.Filter.MetadataLastModified
use baker.Filter.MetadataLastModified.{MetadataLastModified}
use baker.Filter.MetadataUrl
use baker.Filter.MetadataUrl.{MetadataUrl}
use baker.Filter.ClauseFilter
use baker.Filter.ClauseFilter.{ClauseFilter}
use baker.Filter.ExpandJson
use baker.Filter.ExpandJson.{ExpandJson}

pub data Filter (J : Type 0) : Type 0 where
  not_null : NotNull → Filter J
  string_match : StringMatch → Filter J
  clear_fields : ClearFields → Filter J
  dedup : Dedup → Filter J
  slice : SliceFilter → Filter J
  expand_list : ExpandList → Filter J
  concatenate : Concatenate → Filter J
  replace_fields : ReplaceFields → Filter J
  partial_clone : PartialClone → Filter J
  timestamp_range : TimestampRange → Filter J
  regex_match : RegexMatch → Filter J
  url_escape : UrlEscape → Filter J
  url_param : UrlParam → Filter J
  hash : Hash → Filter J
  set_string_from_url : SetStringFromUrl → Filter J
  timestamp : Timestamp → Filter J
  count_and_tag : CountAndTag → Filter J
  metadata_last_modified : MetadataLastModified → Filter J
  metadata_url : MetadataUrl → Filter J
  expand_json : ExpandJson J → Filter J
  clause_filter : ClauseFilter → Filter J

-- `Stats` of each filter
unfoldable pub num_filtered_lines : {J : Type 0} → Filter J → ℕ
num_filtered_lines (not_null f) = f.num_filtered_lines
num_filtered_lines (string_match f) = f.discarded
num_filtered_lines (clear_fields f) = 0
num_filtered_lines (dedup f) = f.num_filtered_lines
num_filtered_lines (slice f) = 0
num_filtered_lines (expand_list f) = 0
num_filtered_lines (concatenate f) = 0
num_filtered_lines (replace_fields f) = 0
num_filtered_lines (partial_clone f) = 0
num_filtered_lines (timestamp_range f) = f.num_filtered_lines
num_filtered_lines (regex_match f) = f.discarded
num_filtered_lines (url_escape f) = f.num_filtered_lines
num_filtered_lines (url_param f) = 0
num_filtered_lines (hash f) = f.num_filtered_lines
num_filtered_lines (set_string_from_url f) = f.num_filtered_lines
num_filtered_lines (timestamp f) = 0
num_filtered_lines (count_and_tag f) = 0
num_filtered_lines (metadata_last_modified f) = 0
num_filtered_lines (metadata_url f) = 0
num_filtered_lines (expand_json f) = 0
num_filtered_lines (clause_filter f) = f.num_filtered_lines

-- The outcome of one kind of filter, as that of a filter.
abbrev wrap : {F R J : Type 0} → (F → Filter J) → Outcome F R → Outcome (Filter J) R
wrap c m = do (f, o) ← m; ok (c f, o)

-- What a wrapped filter counts is what the filter counts.
wrap-counts :
    {F R J : Type 0} (c : F → Filter J) (m : Outcome F R) (n : ℕ) (f' : Filter J) (o : Option R)
    → wrap c m ≡ ok (f', o)
    → ((g : F) → m ≡ ok (g, o) → num_filtered_lines (c g) ≡ n + dropped o)
    → num_filtered_lines f' ≡ n + dropped o
wrap-counts c (ok (g, p)) n f' o e h =
    let q = ok-injective e in
    ap num_filtered_lines (sym (ap (λ t. t.0) q)) ∙ h g (ap (λ t. ok (g, t)) (ap (λ t. t.1) q))
wrap-counts c (err z) n f' o e h = cc
wrap-counts c panic n f' o e h = cc
wrap-counts c out_of_fuel n f' o e h = cc

-- A filter that always hands on a record counts nothing.
passing-counts :
    {F R S : Type 0} (num : F → ℕ) (f g : F) (m : Result S) (k : S → R) (o : Option R)
    → ◌≡◌ {A = Outcome F R} (m >>= λ s. ok (f, some (k s))) (ok (g, o))
    → num g ≡ num f + dropped o
passing-counts num f g (ok s) k o e =
    let q = ok-injective e in sym (ap (λ t. num t.0) q) ∙ omega (arith, ap (λ t. dropped t.1) q)
passing-counts num f g (err z) k o e = cc
passing-counts num f g panic k o e = cc
passing-counts num f g out_of_fuel k o e = cc

-- A filter that drops a record counts it.
dropping-counts :
    {F R : Type 0} (num : F → ℕ) (f g f1 : F) (b : Bool) (l : R) (o : Option R)
    → num f1 ≡ num f + 1
    → ◌≡◌ {A = Outcome F R} (if b then ok (f1, none) else ok (f, some l)) (ok (g, o))
    → num g ≡ num f + dropped o
dropping-counts num f g f1 true l o c e =
    let q = ok-injective e in sym (ap (λ t. num t.0) q) ∙ omega (arith, c, ap (λ t. dropped t.1) q)
dropping-counts num f g f1 false l o c e =
    let q = ok-injective e in sym (ap (λ t. num t.0) q) ∙ omega (arith, ap (λ t. dropped t.1) q)

module _ {V : Type 0} (T : RecordType V) (x : External V) (created : T.Rec) where
  -- `f.Process(l, next)`
  unfoldable pub process : Filter x.Json → T.Rec → Outcome (Filter x.Json) T.Rec
  process (not_null f) l = wrap not_null (NotNull.process T f l)
  process (string_match f) l = wrap string_match (StringMatch.process T f l)
  process (clear_fields f) l = wrap clear_fields (ClearFields.process T f l)
  process (dedup f) l = wrap dedup (Dedup.process T f l)
  process (slice f) l = wrap slice (Slice.process T f l)
  process (expand_list f) l = wrap expand_list (ExpandList.process T f l)
  process (concatenate f) l = wrap concatenate (Concatenate.process T f l)
  process (replace_fields f) l = wrap replace_fields (ReplaceFields.process T f l)
  process (partial_clone f) l = wrap partial_clone (PartialClone.process T created f l)
  process (timestamp_range f) l = wrap timestamp_range (TimestampRange.process T f l)
  process (regex_match f) l = wrap regex_match (RegexMatch.process T f l)
  process (url_escape f) l = wrap url_escape (UrlEscape.process T f l)
  process (url_param f) l = wrap url_param (UrlParam.process T x f l)
  process (hash f) l = wrap hash (Hash.process T f l)
  process (set_string_from_url f) l = wrap set_string_from_url (SetStringFromUrl.process T x f l)
  process (timestamp f) l = wrap timestamp (Timestamp.process T x f l)
  process (count_and_tag f) l = wrap count_and_tag (CountAndTag.process T f l)
  process (metadata_last_modified f) l =
      wrap metadata_last_modified (MetadataLastModified.process T x f l)
  process (metadata_url f) l = wrap metadata_url (MetadataUrl.process T x f l)
  process (expand_json f) l = wrap expand_json (ExpandJson.process T x f l)
  process (clause_filter f) l = wrap clause_filter (ClauseFilter.process T f l)

  abbrev pub filters : FilterType T
  filters = record { F = Filter x.Json; process = process; num_filtered_lines = num_filtered_lines }

  -- Each filter counts each record that it drops, and no other.
  pub process_counts :
      (f f' : Filter x.Json) (l : T.Rec) (o : Option T.Rec)
      → process f l ≡ ok (f', o)
      → num_filtered_lines f' ≡ num_filtered_lines f + dropped o
  unfolding process num_filtered_lines NotNull.process StringMatch.process ClearFields.process
      Dedup.process ExpandList.process Slice.process Concatenate.process ReplaceFields.process
      PartialClone.process TimestampRange.process RegexMatch.process UrlEscape.process
      UrlParam.process Hash.process SetStringFromUrl.process Timestamp.process CountAndTag.process
      MetadataLastModified.process MetadataUrl.process ExpandJson.process ClauseFilter.process
  process_counts (not_null f) f' l o h = ground arith
  process_counts (string_match f) f' l o h = ground arith
  process_counts (clear_fields f) f' l o h = ground arith
  process_counts (dedup f) f' l o h = ground arith
  process_counts (slice f) f' l o h = ground arith
  process_counts (expand_list f) f' l o h = ground arith
  process_counts (concatenate f) f' l o h = ground arith
  process_counts (replace_fields f) f' l o h = ground arith
  process_counts (partial_clone f) f' l o h = ground arith
  process_counts (timestamp_range f) f' l o h = ground arith
  process_counts (regex_match f) f' l o h =
      wrap-counts regex_match (RegexMatch.process T f l) f.discarded f' o h λ g e.
        let a = returned (RegexMatch.is_match T f l) _ e in
        dropping-counts (λ r. r.discarded) f g (record f { discarded = f.discarded + 1 })
          (if f.invert then a.value else not a.value) l o refl a.rest
  process_counts (url_escape f) f' l o h =
      wrap-counts url_escape (UrlEscape.process T f l) f.num_filtered_lines f' o h λ g e.
        let a = returned (T.get l f.src) _ e in
        passing-counts (λ r. r.num_filtered_lines) f g _ (λ l'. l') o a.rest
  process_counts (url_param f) f' l o h = ground arith
  process_counts (hash f) f' l o h =
      wrap-counts hash (Hash.process T f l) f.num_filtered_lines f' o h λ g e.
        let a = returned (T.get l f.src) _ e in
        hashed-counts T f g l (f.hash (content a.value)) o a.rest
  process_counts (set_string_from_url f) f' l o h = ground arith
  process_counts (timestamp f) f' l o h = ground arith
  process_counts (count_and_tag f) f' l o h = ground arith
  process_counts (metadata_last_modified f) f' l o h = ground arith
  process_counts (metadata_url f) f' l o h = ground arith
  process_counts (expand_json f) f' l o h =
      wrap-counts expand_json (ExpandJson.process T x f l) 0 f' o h λ g e.
        let a = returned (T.get l f.source) _ e in passing-counts (λ r. 0) f g _ (λ l'. l') o a.rest
  process_counts (clause_filter f) f' l o h = ground arith

  abbrev pub filter_laws : FilterLaws filters
  filter_laws = record { counts = process_counts }
