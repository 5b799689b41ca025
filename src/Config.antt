-- ===== src/Config.antt =====
-- config.go: what a configuration becomes once the TOML is decoded: the names of fields, the validation of
-- records, the separator and the defaults. A function that is not set is `none`.
pub mod Mapping
pub mod Select
mod Tests
use mathlib.Core.Option.{Option, none, some}
use baker.Common.{
  Bytes, List, [], ◌∷◌, ℕ, ◌+◌, ℤ, pos, eqbℤ, Result, ok, err, bad_config, ◌>>=◌, Bool, true, false,
  not, if◌then◌else◌, length, ◌==◌, ◌&&◌, ltb,
}
use baker.Common.Dict.{Dict, lookup, insert}
use baker.Record.{FieldIndex, Slice, content}
use baker.RecordType.{RecordType}
use baker.Filter.Names.{FieldByName, resolve}

-- `ConfigInput`, `ConfigFilterChain` and `ConfigOutput`, as far as they have defaults.
pub record Sizes : Type 0 where
  pub input_chan_size : ℤ
  pub procs : ℤ
  pub output_chan_size : ℤ
  pub output_procs : ℤ

abbrev pub or_default : ℤ → ℤ → ℤ
or_default n d = if eqbℤ n (pos 0) then d else n

-- The methods `fillDefaults`
unfoldable pub fill_defaults : Sizes → Sizes
fill_defaults s = record {
  input_chan_size = or_default s.input_chan_size (pos 1024);
  procs = or_default s.procs (pos 16);
  output_chan_size = or_default s.output_chan_size (pos 16384);
  output_procs = or_default s.output_procs (pos 32);
}

-- The separator of `fillCreateRecordDefault`, from the runes of the one that is configured.
unfoldable pub field_separator : List ℕ → Result ℕ
field_separator [] = ok b','
field_separator (r ∷ []) = if ltb 127 r then err bad_config else ok r
field_separator (r ∷ s ∷ rs) = err bad_config

-- `ValidationFunc`
abbrev pub ValidationFunc : Type 0 → Type 0
ValidationFunc R = R → Result (Bool × FieldIndex)

module _ {V : Type 0} (T : RecordType V) where
  open T use {Rec, get}

  -- `Components`, as far as the mappings use them.
  pub record Components : Type 0 where
    pub field_by_name : Option FieldByName
    pub field_names : Option (List Bytes)
    pub validate : Option (ValidationFunc Rec)

  -- `Config` likewise. Names and Validation are decoded, the others are set here.
  pub record Config : Type 0 where
    pub names : List Bytes
    pub validation : Dict Bytes
    pub field_by_name : FieldByName
    pub field_names : List Bytes
    pub validate : ValidationFunc Rec

-- The loop over the names, with the number of the first one.
unfoldable pub name_indexes : List Bytes → ℕ → Dict FieldIndex → Result (Dict FieldIndex)
name_indexes [] f m = ok m
name_indexes (s ∷ names) f m = elim (lookup s m) [
  | some i ↦ err bad_config
  | none ↦ name_indexes names (f + 1) (insert s f m)
]

-- The loop over the validation's regular expressions, which `compile` compiles.
unfoldable pub compile_validation :
    (Bytes → Option (Bytes → Bool))
    → FieldByName
    → Dict Bytes
    → Result (List (FieldIndex × (Bytes → Bool)))
unfolding resolve
compile_validation compile field_by_name [] = ok []
compile_validation compile field_by_name ((k, v) ∷ rest) = do
  i ← resolve field_by_name k
  reg ← elim (compile v) [ none ↦ err bad_config | some r ↦ ok r ]
  regs ← compile_validation compile field_by_name rest
  ok ((i, reg) ∷ regs)

module _ {V : Type 0} (T : RecordType V) where
  open T use {Rec, get}

  unfoldable pub set_mapping : Config T → FieldByName → List Bytes → Config T
  set_mapping cfg field_by_name names = record cfg {
    field_by_name = field_by_name;
    field_names = names;
  }

  -- The end of `assignFieldMapping`, where the names come from the configuration.
  unfoldable pub map_names : Config T → Result (Config T)
  unfolding name_indexes set_mapping
  map_names cfg = do
    m ← name_indexes cfg.names 0 []
    ok (set_mapping cfg (λ name. lookup name m) cfg.names)

  unfoldable pub assign_field_mapping : Config T → Components T → Result (Config T)
  unfolding map_names set_mapping
  assign_field_mapping cfg comp =
      let cfg_ok = not (length cfg.names == 0) in
      elim comp.field_by_name [
        | none ↦ elim comp.field_names [
          | none ↦ if cfg_ok then map_names cfg else err bad_config
          | some n ↦ err bad_config
        ]
        | some f ↦ elim comp.field_names [
          | none ↦ err bad_config
          | some n ↦ if cfg_ok then err bad_config else ok (set_mapping cfg f n)
        ]
      ]

  -- The closure that `assignValidationMapping` makes
  unfoldable pub validate_fields : List (FieldIndex × (Bytes → Bool)) → ValidationFunc Rec
  validate_fields [] r = ok (true, 0)
  validate_fields ((idx, reg) ∷ regs) r = do
    v ← get r idx
    let rest = validate_fields regs r
    if not (reg (content v)) then ok (false, idx) else rest

  unfoldable pub assign_validation_mapping :
      (Bytes → Option (Bytes → Bool)) → Config T → Components T → Result (Config T)
  unfolding compile_validation validate_fields
  assign_validation_mapping compile cfg comp =
      let cfg_ok = not (length cfg.validation == 0) in
      elim comp.validate [
        | some f ↦ if cfg_ok then err bad_config else ok (record cfg { validate = f })
        | none ↦ if not cfg_ok then ok (record cfg { validate = λ r. ok (true, 0) }) else (do
          regs ← compile_validation compile cfg.field_by_name cfg.validation
          ok (record cfg { validate = validate_fields regs }))
      ]
