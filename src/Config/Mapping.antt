-- ===== src/Config/Mapping.antt =====
-- config.go: the names of fields that come from the configuration.
use mathlib.Core.Option.{Option, none, some}
use baker.Common.{Bytes, List, [], ◌∷◌, ℕ, zero, suc, ◌+◌, ok, false, All, equal, ◌≡◌}
use baker.Common.Dict.{Dict, lookup}
use baker.Record.{FieldIndex}
use baker.RecordType.{RecordType}
use baker.Config.{Components, Config, name_indexes, assign_field_mapping}

-- No name occurs twice.
abbrev pub AreDistinct : List Bytes → Type 0
AreDistinct [] = Unit
AreDistinct (s ∷ names) = All (λ t. equal s t ≡ false) names × AreDistinct names

-- The name at a position
abbrev pub name_at : List Bytes → ℕ → Option Bytes
name_at [] i = none
name_at (s ∷ names) zero = some s
name_at (s ∷ names) (suc i) = name_at names i

-- What the loop over the names leaves
record Indexed (names : List Bytes) (f : ℕ) (m : Dict FieldIndex) : Type 0 where
  map : Dict FieldIndex
  call : name_indexes names f m ≡ ok map
  kept : (s : Bytes) (i : ℕ) → lookup s m ≡ some i → lookup s map ≡ some i
  found : (s : Bytes) (i : ℕ) → name_at names i ≡ some s → lookup s map ≡ some (f + i)

module _ {V : Type 0} (T : RecordType V) (cfg : Config T) (comp : Components T) where
  -- The names of the configuration are those of the fields, and the position of each is its index.
  pub record IsMapped (cfg' : Config T) : Type 0 where
    pub call : assign_field_mapping T cfg comp ≡ ok cfg'
    pub names : cfg'.field_names ≡ cfg.names
    pub indexes : (i : ℕ) (s : Bytes) → name_at cfg.names i ≡ some s → cfg'.field_by_name s ≡ some i
