-- ===== src/Cache.antt =====
-- record.go: the type Cache and its methods. The values are of any type `V` (interface{}).
mod Tests
use mathlib.Core.Option.{Option, none, some}
use baker.Common.{Bytes, equal, ◌≡◌, refl, [], arith, if◌then◌else◌}
use baker.Common.Dict.{Dict, lookup, delete, insert, lookup-delete, lookup-insert}

-- A Go map may be nil, which is not the empty map.
abbrev pub Cache {ℓ} : Type ℓ → Type ℓ
Cache V = Option (Dict V)

module _ {ℓ} {V : Type ℓ} where
  -- `none` is the answer (nil, false)
  unfoldable pub get : Cache V → Bytes → Option V
  get none key = none
  get (some m) key = lookup key m

  unfoldable pub set : Cache V → Bytes → V → Cache V
  set none key val = some (insert key val [])
  set (some m) key val = some (insert key val m)

  unfoldable pub del : Cache V → Bytes → Cache V
  del none key = none
  del (some m) key = some (delete key m)

  unfoldable pub clear : Cache V → Cache V
  clear c = none

  -- After `Set` the key has the value, and every other key what it had, also from a nil map.
  pub get-set_key :
      (c : Cache V) (k j : Bytes) (v : V)
      → get (set c k v) j ≡ (if equal k j then some v else get c j)
  unfolding get set lookup
  get-set_key none k j v = lookup-insert k j v []
  get-set_key (some m) k j v = lookup-insert k j v m

  -- After `Del` the key is absent, and every other key has what it had.
  pub get-del_key :
      (c : Cache V) (k j : Bytes) → get (del c k) j ≡ (if equal k j then none else get c j)
  unfolding get del
  get-del_key none k j = ground arith
  get-del_key (some m) k j = lookup-delete k j m

  -- After `Clear` no key is present.
  pub get-clear_key : (c : Cache V) (j : Bytes) → get (clear c) j ≡ none
  unfolding get clear
  get-clear_key c j = refl
