-- ===== src/Filter/Hash.antt =====
-- filter/hash.go
pub mod Counted
use mathlib.Core.Option.{Option, none, some}
use baker.Common.{
  Bytes, List, [], ◌∷◌, ◌++◌, ℕ, zero, suc, ◌+◌, ◌-◌, ◌/◌, ◌%◌, ℤ, pos, negsuc, Result, ok, err,
  panic, bad_config, unknown_field, ◌>>=◌, Bool, true, false, not, equal, if◌then◌else◌, length,
  ◌==◌, ◌&&◌, ◌||◌, ltb, leb,
}
use baker.Record.{FieldIndex, Slice, nil, bytes, content, len}
use baker.RecordType.{RecordType}
use baker.Filter.Names.{FieldByName, resolve, resolve_all, Outcome}
use baker.Filter.External.{External, JsonView, number, text, boolean, other}

pub record Config : Type 0 where
  pub src_field : Bytes
  pub dst_field : Bytes
  pub function : Bytes
  pub encoding : Bytes

-- The two functions of the source return an error, `none` here, which Process handles.
pub record Hash : Type 0 where
  pub num_filtered_lines : ℕ
  pub src : FieldIndex
  pub dst : FieldIndex
  pub hash : Bytes → Option Bytes
  pub encode : Bytes → Option Bytes

abbrev pub hex_digit : ℕ → ℕ
hex_digit n = if ltb n 10 then b'0' + n else b'a' + (n - 10)

-- `hex.Encode`
unfoldable pub hex : Bytes → Bytes
hex [] = []
hex (c ∷ cs) = hex_digit (c / 16) ∷ hex_digit (c % 16) ∷ hex cs

-- "md5", "sha256" and "hex"
abbrev md5_name : Bytes
md5_name = b'm' ∷ b'd' ∷ b'5' ∷ []

abbrev sha256_name : Bytes
sha256_name = b's' ∷ b'h' ∷ b'a' ∷ b'2' ∷ b'5' ∷ b'6' ∷ []

abbrev hex_name : Bytes
hex_name = b'h' ∷ b'e' ∷ b'x' ∷ []

-- `switch dcfg.Function`
unfoldable pub hash_function : {V : Type 0} → External V → Bytes → Result (Bytes → Option Bytes)
hash_function x name =
    if equal name md5_name
    then ok (λ b. some (x.md5 b))
    else if equal name sha256_name
    then ok (λ b. some (x.sha256 b))
    else err bad_config

-- `switch dcfg.Encoding`
unfoldable pub encoding_function : Bytes → Result (Bytes → Option Bytes)
unfolding hex
encoding_function name =
    if equal name hex_name
    then ok (λ b. some (hex b))
    else if length name == 0
    then ok (λ b. some b)
    else err bad_config

unfoldable pub new : {V : Type 0} → External V → FieldByName → Config → Result Hash
unfolding resolve hash_function encoding_function
new x field_by_name cfg = do
  src ← resolve field_by_name cfg.src_field
  dst ← resolve field_by_name cfg.dst_field
  h ← hash_function x cfg.function
  e ← encoding_function cfg.encoding
  ok (record { num_filtered_lines = 0; src = src; dst = dst; hash = h; encode = e })

module _ {V : Type 0} (T : RecordType V) where
  open T use {Rec, get, set}

  -- The value is encoded, if it could be hashed, and written, if it could be encoded; an error drops
  -- the record.
  unfoldable pub write_encoded : Hash → Rec → Option Bytes → Outcome Hash Rec
  write_encoded h r none = ok (record h { num_filtered_lines = h.num_filtered_lines + 1 }, none)
  write_encoded h r (some encoded) = set r h.dst (bytes encoded) >>= λ r'. ok (h, some r')

  unfoldable pub encode_hashed : Hash → Rec → Option Bytes → Outcome Hash Rec
  unfolding write_encoded
  encode_hashed h r none = ok (record h { num_filtered_lines = h.num_filtered_lines + 1 }, none)
  encode_hashed h r (some hashed) = write_encoded h r (h.encode hashed)

  unfoldable pub process : Hash → Rec → Outcome Hash Rec
  unfolding encode_hashed
  process h r = do v ← get r h.src; encode_hashed h r (h.hash (content v))
