-- ===== src/Filter/MetadataLastModified.antt =====
-- filter/metadata_lastmodified.go
use mathlib.Core.Option.{none, some}
use baker.Common.{Bytes, [], ◌∷◌, Result, ok, panic, ◌>>=◌}
use baker.Common.Strconv.{format_int}
use baker.Record.{FieldIndex, bytes}
use baker.RecordType.{RecordType}
use baker.Filter.Names.{FieldByName, resolve, Outcome}
use baker.Filter.External.{External}

pub record MetadataLastModified : Type 0 where
  pub dst : FieldIndex

unfoldable pub new : FieldByName → Bytes → Result MetadataLastModified
unfolding resolve
new field_by_name name = do f ← resolve field_by_name name; ok (record { dst = f })

-- The key "last_modified" of the metadata
abbrev pub last_modified : Bytes
last_modified =
    b'l' ∷ b'a' ∷ b's' ∷ b't' ∷ b'_' ∷ b'm' ∷ b'o' ∷ b'd' ∷ b'i' ∷ b'f' ∷ b'i' ∷ b'e' ∷ b'd' ∷ []

module _ {V : Type 0} (T : RecordType V) (x : External V) where
  open T use {Rec, set, meta}

  unfoldable pub process : MetadataLastModified → Rec → Outcome MetadataLastModified Rec
  unfolding format_int
  process f l = elim (meta l last_modified) [
    | none ↦ ok (f, some l)
    | some v ↦ elim (x.as_time v) [
      | none ↦ panic
      | some none ↦ ok (f, some l)
      | some (some unix) ↦ set l f.dst (bytes (format_int unix)) >>= λ l'. ok (f, some l')
    ]
  ]
