-- ===== src/Cache/Tests.antt =====
-- The theorems on record.go's cache, from a nil map.
use mathlib.Core.Option.{none, some}
use baker.Common.{Bytes, [], ◌∷◌, ℕ, equal, if◌then◌else◌, ◌≡◌}
use baker.Cache.{Cache, get, set, get-set_key}

abbrev nil_map : Cache ℕ
nil_map = none

abbrev key : Bytes
key = b'k' ∷ []

get-set_key_example :
    get (set nil_map key 7) key ≡ (if equal key key then some 7 else get nil_map key)
get-set_key_example = get-set_key nil_map key key 7
