-- ===== src/Config/Select.antt =====
-- config.go: the look-up of the components that a configuration names, and the checks of their sections, in
-- NewConfigFromToml. A description is its name.
pub mod Known
use mathlib.Core.Option.{Option, none, some}
use baker.Common.{
  Bytes, List, [], ◌∷◌, ℕ, zero, suc, ◌+◌, Result, ok, err, bad_config, panic, out_of_fuel, ◌>>=◌,
  Bool, true, false, not, if◌then◌else◌, length, ◌==◌,
}

-- What kind a component is of
pub data Kind : Type 0 where
  input_kind filter_kind output_kind upload_kind metrics_kind user_kind : Kind

-- `strings.EqualFold`, which is symmetric; whether the section of a component, the n-th of its kind, is decoded into a
-- configuration of the description and has its required fields; whether the n-th user-specific entry has
-- a section, without which its nil pointer panics; and the keys that are not decoded.
pub record Toml : Type 0 where
  pub equal_fold : Bytes → Bytes → Bool
  pub decodes : Kind → ℕ → Bytes → Bool
  pub configured : ℕ → Bool
  pub undecoded : List Bytes

-- The names in a configuration, empty where there is none
pub record Chosen : Type 0 where
  pub input : Bytes
  pub filters : List Bytes
  pub output : Bytes
  pub upload : Bytes
  pub metrics : Bytes
  pub user : List Bytes

-- `Components`, as far as the look-up uses them
pub record Available : Type 0 where
  pub inputs : List Bytes
  pub filters : List Bytes
  pub outputs : List Bytes
  pub uploads : List Bytes
  pub metrics : List Bytes
  pub user : List Bytes

-- The `desc` of each section; nil is `none`.
pub record Descs : Type 0 where
  pub input : Bytes
  pub filters : List Bytes
  pub output : Bytes
  pub upload : Option Bytes
  pub metrics : Option Bytes

module _ (o : Toml) where
  -- A loop over descriptions, up to the first one of the name
  abbrev pub find_desc : Bytes → List Bytes → Option Bytes
  find_desc name [] = none
  find_desc name (d ∷ ds) =
      let rest = find_desc name ds in if o.equal_fold d name then some d else rest

  -- The same where a name that is not found is an error
  abbrev pub existing : Option Bytes → Result Bytes
  existing none = err bad_config
  existing (some d) = ok d

  unfoldable pub find_descs : List Bytes → List Bytes → Result (List Bytes)
  find_descs [] ds = ok []
  find_descs (name ∷ names) ds = do
    d ← existing (find_desc name ds)
    rest ← find_descs names ds
    ok (d ∷ rest)

  unfoldable pub find_metrics : Bytes → List Bytes → Result (Option Bytes)
  find_metrics [] ds = ok none
  find_metrics (b ∷ bs) ds = do d ← existing (find_desc (b ∷ bs) ds); ok (some d)

  unfoldable pub find_all : Chosen → Available → Result Descs
  unfolding find_descs find_metrics
  find_all c a = do
    input ← existing (find_desc c.input a.inputs)
    filters ← find_descs c.filters a.filters
    output ← existing (find_desc c.output a.outputs)
    let upload = find_desc c.upload a.uploads
    metrics ← find_metrics c.metrics a.metrics
    ok (record {
      input = input;
      filters = filters;
      output = output;
      upload = upload;
      metrics = metrics;
    })

  -- `decodeAndCheckConfig`
  abbrev pub decode_and_check_config : Kind → ℕ → Bytes → Result Bool
  decode_and_check_config kind n d = if o.decodes kind n d then ok true else err bad_config

  unfoldable pub decode_filters : ℕ → List Bytes → Result Bool
  decode_filters n [] = ok true
  decode_filters n (d ∷ ds) = do
    done ← decode_and_check_config filter_kind n d
    decode_filters (suc n) ds

  -- A section that may be missing. The description of one that is there is read, and a nil one panics.
  abbrev pub decode_optional : Kind → Bytes → Option Bytes → Result Bool
  decode_optional kind [] d = ok true
  decode_optional kind (b ∷ bs) none = panic
  decode_optional kind (b ∷ bs) (some d) = decode_and_check_config kind 0 d

  -- The user-specific entries
  unfoldable pub decode_user : ℕ → List Bytes → List Bytes → Result Bool
  decode_user n [] ds = ok true
  decode_user n (name ∷ names) ds = do
    d ← existing (find_desc name ds)
    done ← (if o.configured n then decode_and_check_config user_kind n d else panic)
    decode_user (suc n) names ds

  unfoldable pub select_components : Chosen → Available → Result Descs
  unfolding find_all decode_filters decode_user
  select_components c a = do
    found ← find_all c a
    input ← decode_and_check_config input_kind 0 found.input
    filters ← decode_filters 0 found.filters
    output ← decode_and_check_config output_kind 0 found.output
    upload ← decode_optional upload_kind c.upload found.upload
    metrics ← decode_optional metrics_kind c.metrics found.metrics
    user ← decode_user 0 c.user a.user
    if length o.undecoded == 0 then ok found else err bad_config
