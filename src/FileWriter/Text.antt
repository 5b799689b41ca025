-- ===== src/FileWriter/Text.antt =====
-- output/filewriter.go: the texts that the paths of files are made of.
use baker.Common.{
  Bytes, [], ◌∷◌, ◌++◌, ℕ, zero, suc, ◌-◌, Bool, true, false, if◌then◌else◌, ◌==◌, length, equal,
  drop, leb, ◌&&◌,
}
use baker.Common.Strconv.{itoa}
use baker.Common.Dict.{Dict}

-- The path that fillDefaults sets
abbrev pub default_path : Bytes
default_path =
    b'/' ∷ b't' ∷ b'm' ∷ b'p' ∷ b'/' ∷ b'b' ∷ b'a' ∷ b'k' ∷ b'e' ∷ b'r' ∷ b'/' ∷ b'o' ∷ b'l' ∷ b'o'
    ∷ b'g' ∷ b's' ∷ b'/' ∷ b'l' ∷ b'o' ∷ b'g' ∷ b's' ∷ b'/' ∷ b'{' ∷ b'{' ∷ b'.' ∷ b'Y' ∷ b'e'
    ∷ b'a' ∷ b'r' ∷ b'}' ∷ b'}' ∷ b'/' ∷ b'{' ∷ b'{' ∷ b'.' ∷ b'M' ∷ b'o' ∷ b'n' ∷ b't' ∷ b'h'
    ∷ b'}' ∷ b'}' ∷ b'/' ∷ b'{' ∷ b'{' ∷ b'.' ∷ b'D' ∷ b'a' ∷ b'y' ∷ b'}' ∷ b'}' ∷ b'/' ∷ b'b'
    ∷ b'a' ∷ b'k' ∷ b'e' ∷ b'r' ∷ b'/' ∷ b'{' ∷ b'{' ∷ b'.' ∷ b'Y' ∷ b'e' ∷ b'a' ∷ b'r' ∷ b'}'
    ∷ b'}' ∷ b'{' ∷ b'{' ∷ b'.' ∷ b'M' ∷ b'o' ∷ b'n' ∷ b't' ∷ b'h' ∷ b'}' ∷ b'}' ∷ b'{' ∷ b'{'
    ∷ b'.' ∷ b'D' ∷ b'a' ∷ b'y' ∷ b'}' ∷ b'}' ∷ b'-' ∷ b'{' ∷ b'{' ∷ b'.' ∷ b'H' ∷ b'o' ∷ b'u'
    ∷ b'r' ∷ b'}' ∷ b'}' ∷ b'{' ∷ b'{' ∷ b'.' ∷ b'M' ∷ b'i' ∷ b'n' ∷ b'u' ∷ b't' ∷ b'e' ∷ b'}'
    ∷ b'}' ∷ b'{' ∷ b'{' ∷ b'.' ∷ b'S' ∷ b'e' ∷ b'c' ∷ b'o' ∷ b'n' ∷ b'd' ∷ b'}' ∷ b'}' ∷ b'.'
    ∷ b'{' ∷ b'{' ∷ b'.' ∷ b'I' ∷ b'n' ∷ b'd' ∷ b'e' ∷ b'x' ∷ b'}' ∷ b'}' ∷ b'.' ∷ b'l' ∷ b'o'
    ∷ b'g' ∷ b'.' ∷ b'g' ∷ b'z' ∷ []

-- `fmt.Sprintf("%0wd", n)`: as many zeros in front of n as make w digits.
unfoldable pub zeros : ℕ → Bytes
zeros zero = []
zeros (suc n) = b'0' ∷ zeros n

unfoldable pub padded : ℕ → ℕ → Bytes
unfolding itoa zeros
padded w n = zeros (w - length (itoa n)) ++ itoa n

-- `strings.HasPrefix(s, p)`
unfoldable pub has_prefix : Bytes → Bytes → Bool
has_prefix s [] = true
has_prefix [] (c ∷ p) = false
has_prefix (d ∷ s) (c ∷ p) = let rest = has_prefix s p in if d == c then rest else false

-- `strings.Contains(s, p)`
unfoldable pub contains : Bytes → Bytes → Bool
unfolding has_prefix
contains [] p = has_prefix [] p
contains (c ∷ s) p = let rest = contains s p in if has_prefix (c ∷ s) p then true else rest

-- `{{.Field0}}`
abbrev pub field0_placeholder : Bytes
field0_placeholder = b'{' ∷ b'{' ∷ b'.' ∷ b'F' ∷ b'i' ∷ b'e' ∷ b'l' ∷ b'd' ∷ b'0' ∷ b'}' ∷ b'}' ∷ []

abbrev pub zst : Bytes
zst = b'.' ∷ b'z' ∷ b's' ∷ b't' ∷ []

abbrev pub zstd : Bytes
zstd = b'.' ∷ b'z' ∷ b's' ∷ b't' ∷ b'd' ∷ []

-- `strings.HasSuffix(s, p)`
unfoldable pub has_suffix : Bytes → Bytes → Bool
has_suffix s p = leb (length p) (length s) && equal (drop (length s - length p) s) p

-- `time.Now().UTC()`, as far as paths show it
pub record Time : Type 0 where
  pub year : ℕ
  pub month : ℕ
  pub day : ℕ
  pub hour : ℕ
  pub minute : ℕ
  pub second : ℕ

abbrev pub key_index : Bytes
key_index = b'I' ∷ b'n' ∷ b'd' ∷ b'e' ∷ b'x' ∷ []

abbrev pub key_year : Bytes
key_year = b'Y' ∷ b'e' ∷ b'a' ∷ b'r' ∷ []

abbrev pub key_month : Bytes
key_month = b'M' ∷ b'o' ∷ b'n' ∷ b't' ∷ b'h' ∷ []

abbrev pub key_day : Bytes
key_day = b'D' ∷ b'a' ∷ b'y' ∷ []

abbrev pub key_hour : Bytes
key_hour = b'H' ∷ b'o' ∷ b'u' ∷ b'r' ∷ []

abbrev pub key_minute : Bytes
key_minute = b'M' ∷ b'i' ∷ b'n' ∷ b'u' ∷ b't' ∷ b'e' ∷ []

abbrev pub key_second : Bytes
key_second = b'S' ∷ b'e' ∷ b'c' ∷ b'o' ∷ b'n' ∷ b'd' ∷ []

abbrev pub key_uuid : Bytes
key_uuid = b'U' ∷ b'U' ∷ b'I' ∷ b'D' ∷ []

abbrev pub key_rotation : Bytes
key_rotation = b'R' ∷ b'o' ∷ b't' ∷ b'a' ∷ b't' ∷ b'i' ∷ b'o' ∷ b'n' ∷ []

abbrev pub key_field0 : Bytes
key_field0 = b'F' ∷ b'i' ∷ b'e' ∷ b'l' ∷ b'd' ∷ b'0' ∷ []

-- `replacementVars` of makePath
abbrev pub replacement_vars : Time → ℕ → Bytes → ℕ → Bytes → Dict Bytes
replacement_vars now index uid rotate_idx repl_field_value =
    (key_index, padded 4 index)
    ∷ (key_year, padded 4 now.year)
    ∷ (key_month, padded 2 now.month)
    ∷ (key_day, padded 2 now.day)
    ∷ (key_hour, padded 2 now.hour)
    ∷ (key_minute, padded 2 now.minute)
    ∷ (key_second, padded 2 now.second)
    ∷ (key_uuid, uid)
    ∷ (key_rotation, padded 6 rotate_idx)
    ∷ (key_field0, repl_field_value)
    ∷ []
