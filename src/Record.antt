-- ===== src/Record.antt =====
-- record.go and api.go: what a record's fields hold, and the metadata that a record carries.
use mathlib.Core.Option.{Option, none, some}
use baker.Common.{Bytes, [], ℕ, length}
use baker.Common.Dict.{Dict, lookup}

-- `FieldIndex` is a Go int. The program resolves names to indexes, which are never negative.
abbrev pub FieldIndex : Type 0
FieldIndex = ℕ

-- A []byte. A nil slice has no bytes, and a test `== nil` tells it from an empty one.
pub data Slice : Type 0 where
  nil : Slice
  bytes : Bytes → Slice

abbrev pub content : Slice → Bytes
content nil = []
content (bytes b) = b

-- `len(s)`
abbrev pub len : Slice → ℕ
len s = length (content s)

-- A map of metadata, nil or not.
abbrev pub Metadata {ℓ} : Type ℓ → Type ℓ
Metadata V = Option (Dict V)

unfoldable pub get {ℓ} : {V : Type ℓ} → Metadata V → Bytes → Option V
get none key = none
get (some m) key = lookup key m
