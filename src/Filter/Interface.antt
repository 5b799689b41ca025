-- ===== src/Filter/Interface.antt =====
-- api.go: the interface Filter, and the promise of its statistics.
use mathlib.Core.Option.{Option, none, some}
use baker.Common.{ℕ, ◌+◌, ◌≡◌, ok}
use baker.RecordType.{RecordType}
use baker.Filter.Names.{Outcome}

pub record FilterType {V : Type 0} (T : RecordType V) : Type 1 where
  pub F : Type 0
  pub process : F → T.Rec → Outcome F T.Rec
  -- `Stats().NumFilteredLines`
  pub num_filtered_lines : F → ℕ

-- The records that a call of Process keeps from `next`.
abbrev pub dropped {ℓ} : {A : Type ℓ} → Option A → ℕ
dropped none = 1
dropped (some a) = 0

-- A filter counts each record that it drops, and no other.
pub record FilterLaws {V : Type 0} {T : RecordType V} (P : FilterType T) : Type 0 where
  pub counts :
      (f f' : P.F) (l : T.Rec) (o : Option T.Rec)
      → P.process f l ≡ ok (f', o)
      → P.num_filtered_lines f' ≡ P.num_filtered_lines f + dropped o
