-- ===== src/Common/Strconv.antt =====
-- What the program uses of Go's strconv, on byte strings.
use Prim.Native.Nat.{ℕ, zero, suc, ◌+◌, ◌-◌, ◌*◌, ◌/◌, ◌%◌, ◌^◌}
use mathlib.Core.Option.{Option, none, some}
use mathlib.Core.Bool.{Bool, true, false, ◌&&◌}
use mathlib.Core.List.{[], ◌∷◌}
use baker.Common.Tests.{Bytes, ltb, leb, ◌==◌, if◌then◌else◌}
use baker.Common.Integers.{ℤ, pos, negsuc, sub_ℕ}

-- The digits of a number, put before `acc`.
unfoldable pub digits : ℕ → ℕ → Bytes → Bytes
digits zero n acc = acc
digits (suc fuel) n acc =
    let more = digits fuel (n / 10) ((b'0' + n % 10) ∷ acc) in
    if ltb n 10 then (b'0' + n) ∷ acc else more

-- `strconv.Itoa` of a number that is not negative: there are no more digits than n + 1.
unfoldable pub itoa : ℕ → Bytes
unfolding digits
itoa n = digits (suc n) n []

-- The value of a string of digits behind one of value `acc`.
unfoldable pub digits_value : ℕ → Bytes → Option ℕ
digits_value acc [] = some acc
digits_value acc (c ∷ cs) =
    let rest = digits_value (acc * 10 + (c - b'0')) cs in
    if leb b'0' c && leb c b'9' then rest else none

-- A number without its sign: at least one digit.
unfoldable pub unsigned : Bytes → Option ℕ
unfolding digits_value
unsigned [] = none
unsigned (c ∷ cs) = digits_value 0 (c ∷ cs)

-- The integer of a sign and a magnitude, if 64 bits hold it.
unfoldable pub in_int64 : Bool → Option ℕ → Option ℤ
in_int64 negative none = none
in_int64 true (some n) = if leb n (2 ^ 63) then some (sub_ℕ 0 n) else none
in_int64 false (some n) = if ltb n (2 ^ 63) then some (pos n) else none

-- `strconv.ParseInt(s, 10, 64)`, and `strconv.Atoi` where an int has 64 bits; `none` for an error.
unfoldable pub parse_int : Bytes → Option ℤ
unfolding unsigned in_int64
parse_int [] = none
parse_int (c ∷ cs) =
    if c == b'-'
    then in_int64 true (unsigned cs)
    else if c == b'+'
    then in_int64 false (unsigned cs)
    else in_int64 false (unsigned (c ∷ cs))

-- `strconv.FormatInt(n, 10)`
unfoldable pub format_int : ℤ → Bytes
unfolding itoa
format_int (pos n) = itoa n
format_int (negsuc n) = b'-' ∷ itoa (suc n)
