-- ===== src/Prelude/Digits.antt =====
-- Reading a `u128` from its text, as `str::parse` does: an optional plus sign and at least one
-- digit, and nothing that is out of range.
use Prim.Native.Nat.{ℕ, ◌+◌, ◌-◌, ◌*◌, ◌^◌}
use Prim.Native.String.{String}
use mathlib.Core.Bool.{◌||◌}
use mathlib.Core.List.{List, [], ◌∷◌}
use mathlib.Core.Option.{Option, none, some}
use dogether_contracts.Prelude.Tests.{ltb, ◌==◌, if◌then◌else◌}
use dogether_contracts.Prelude.Text.{as_bytes}

unfoldable pub parse_digits : ℕ → List ℕ → Option ℕ
parse_digits acc [] = some acc
parse_digits acc (byte ∷ bytes) =
    let value = acc * 10 + (byte - b'0') in
    let rest = parse_digits value bytes in
    if ltb byte b'0' || ltb b'9' byte then none else if ltb value (2 ^ 128) then rest else none

unfoldable pub parse_unsigned : List ℕ → Option ℕ
unfolding parse_digits
parse_unsigned [] = none
parse_unsigned (byte ∷ bytes) = parse_digits 0 (byte ∷ bytes)

unfoldable pub parse_bytes : List ℕ → Option ℕ
unfolding parse_unsigned
parse_bytes [] = none
parse_bytes (byte ∷ bytes) =
    if byte == b'+' then parse_unsigned bytes else parse_unsigned (byte ∷ bytes)

unfoldable pub parse_u128 : String → Option ℕ
unfolding parse_bytes as_bytes
parse_u128 s = parse_bytes (as_bytes s)
