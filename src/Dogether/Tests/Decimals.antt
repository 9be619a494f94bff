-- ===== src/Dogether/Tests/Decimals.antt =====
-- The unit tests of src/math.rs of the dogether contract. The decimals that the tests print are
-- written as their atomics.
use dogether_contracts.Prelude.{◌≡◌, refl, Outcome, ok, ◌>>=◌, unwrap_option}
use dogether_contracts.Platform.Sample.{sample_std}
use dogether_contracts.Platform.Types.{Decimal, StdError}
use dogether_contracts.Dogether.Math.{decimal_multiplication_in_256, decimal_subtraction_in_256}

program : Unit {0}
unfolding decimal_multiplication_in_256 decimal_subtraction_in_256
program = tt

abbrev multiplied : Outcome StdError Decimal
multiplied = do
  b ← unwrap_option (sample_std.from_ratio 1_111_111 10_000_000)
  a ← unwrap_option (sample_std.from_ratio 100 1)
  decimal_multiplication_in_256 sample_std a b

abbrev subtracted : Outcome StdError Decimal
subtracted = do
  a ← unwrap_option (sample_std.from_ratio 20 50)
  b ← unwrap_option (sample_std.from_ratio 10 50)
  decimal_subtraction_in_256 sample_std a b

-- "11.11111"
abbrev TestDecimalMultiplication : Type 0
TestDecimalMultiplication = multiplied ≡ ok 11_111_110_000_000_000_000

test_decimal_multiplication_passes : TestDecimalMultiplication
unfolding program
test_decimal_multiplication_passes = refl

-- "0.2"
abbrev TestDecimalSubtraction : Type 0
TestDecimalSubtraction = subtracted ≡ ok 200_000_000_000_000_000

test_decimal_subtraction_passes : TestDecimalSubtraction
unfolding program
test_decimal_subtraction_passes = refl
