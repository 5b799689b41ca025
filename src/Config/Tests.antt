-- ===== src/Config/Tests.antt =====
-- The theorems on config.go, at small configurations.
use mathlib.Core.Option.{none}
use baker.Common.{Bytes, List, [], ◌∷◌, ℕ, ok, true, equal, ◌≡◌, refl}
use baker.RecordType.LogLines.{log_lines}
use baker.Config.{Components, Config}
use baker.Config.Select.{Toml, Chosen, Available, select_components}
use baker.Config.Select.Known.{verdict, crashed, select_components-verdict}

abbrev two_names : List Bytes
two_names = (b'a' ∷ []) ∷ (b'b' ∷ []) ∷ []

abbrev config : Config (log_lines ℕ)
config = record {
  names = two_names;
  validation = [];
  field_by_name = λ s. none;
  field_names = [];
  validate = λ r. ok (true, 0);
}

abbrev components : Components (log_lines ℕ)
components = record { field_by_name = none; field_names = none; validate = none }

-- Names are compared as they are written; the upload that is named does not exist.
abbrev toml : Toml
toml = record {
  equal_fold = equal;
  decodes = λ kind n d. true;
  configured = λ n. true;
  undecoded = [];
}

abbrev available : Available
available = record {
  inputs = (b'i' ∷ []) ∷ [];
  filters = (b'f' ∷ []) ∷ (b'g' ∷ []) ∷ [];
  outputs = (b'o' ∷ []) ∷ [];
  uploads = (b'u' ∷ []) ∷ [];
  metrics = [];
  user = [];
}

abbrev chosen : Chosen
chosen = record {
  input = b'i' ∷ [];
  filters = (b'g' ∷ []) ∷ [];
  output = b'o' ∷ [];
  upload = b'v' ∷ [];
  metrics = [];
  user = [];
}

select_components-verdict_example : verdict (select_components toml chosen available) ≡ crashed
unfolding equal
select_components-verdict_example =
    select_components-verdict toml chosen available
      (record { sections = λ kind n d. refl; configured = λ n. refl; keys = refl })
