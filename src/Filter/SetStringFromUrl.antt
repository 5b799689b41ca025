-- ===== src/Filter/SetStringFromUrl.antt =====
-- filter/set_string_from_url.go
use mathlib.Core.Option.{Option, none, some}
use baker.Common.{
  Bytes, List, [], ◌∷◌, ℕ, ◌+◌, Result, ok, panic, ◌>>=◌, Bool, true, false, if◌then◌else◌, ◌==◌,
  ◌&&◌, ◌||◌,
}
use baker.Record.{FieldIndex, bytes}
use baker.RecordType.{RecordType}
use baker.Filter.Names.{FieldByName, resolve, Outcome}
use baker.Filter.External.{External}

pub record Config : Type 0 where
  pub field : Bytes
  pub strings : List Bytes

pub record SetStringFromUrl : Type 0 where
  pub num_filtered_lines : ℕ
  pub field : FieldIndex
  pub strings : List Bytes

unfoldable pub new : FieldByName → Config → Result SetStringFromUrl
unfolding resolve
new field_by_name cfg = do
  f ← resolve field_by_name cfg.field
  ok (record { num_filtered_lines = 0; field = f; strings = cfg.strings })

unfoldable pub has_prefix : Bytes → Bytes → Bool
has_prefix s [] = true
has_prefix [] (d ∷ t) = false
has_prefix (c ∷ s) (d ∷ t) = c == d && has_prefix s t

-- `bytes.Contains(s, t)`
unfoldable pub contains : Bytes → Bytes → Bool
unfolding has_prefix
contains [] t = has_prefix [] t
contains (c ∷ s) t = has_prefix (c ∷ s) t || contains s t

-- The loop over the strings: the first one that the path contains.
unfoldable pub find : Bytes → List Bytes → Option Bytes
unfolding contains
find path [] = none
find path (s ∷ ss) = if contains path s then some s else find path ss

-- The key "url" of the metadata
abbrev pub metadata_url : Bytes
metadata_url = b'u' ∷ b'r' ∷ b'l' ∷ []

module _ {V : Type 0} (T : RecordType V) (x : External V) where
  open T use {Rec, set, meta}

  drop_record : SetStringFromUrl → Outcome SetStringFromUrl Rec
  drop_record f = ok (record f { num_filtered_lines = f.num_filtered_lines + 1 }, none)

  unfoldable pub process : SetStringFromUrl → Rec → Outcome SetStringFromUrl Rec
  unfolding find drop_record
  process f l = elim (meta l metadata_url) [
    | none ↦ drop_record f
    | some v ↦ elim (x.as_url v) [
      | none ↦ panic
      | some none ↦ panic
      | some (some url) ↦ elim (find (x.url_path url) f.strings) [
        | none ↦ drop_record f
        | some s ↦ set l f.field (bytes s) >>= λ l'. ok (f, some l')
      ]
    ]
  ]
