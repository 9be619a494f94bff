-- ===== src/Staking/Tests.antt =====
-- The unit tests of src/math.rs and of the rewards of src/user.rs of the staking contract. The
-- decimals that the tests print are written as their atomics.
use dogether_contracts.Prelude.{◌≡◌, refl, Outcome, ok, ◌>>=◌, unwrap_option}
use dogether_contracts.Platform.Sample.{sample_std}
use dogether_contracts.Platform.Types.{Decimal, StdError}
use dogether_contracts.Staking.Math.{
  decimal_multiplication_in_256, decimal_summation_in_256, decimal_subtraction_in_256,
}
use dogether_contracts.Staking.Rewards.{calculate_decimal_rewards}

program : Unit {0}
unfolding decimal_multiplication_in_256 decimal_summation_in_256 decimal_subtraction_in_256
    calculate_decimal_rewards
program = tt

-- The decimals of the tests: 100, 0.1111111, 0.4 and 0.2.
abbrev with_decimals :
    (Decimal → Decimal → Decimal → Decimal → Outcome StdError Decimal) → Outcome StdError Decimal
with_decimals f = do
  hundred ← unwrap_option (sample_std.from_ratio 100 1)
  ones ← unwrap_option (sample_std.from_ratio 1_111_111 10_000_000)
  a ← unwrap_option (sample_std.from_ratio 20 50)
  b ← unwrap_option (sample_std.from_ratio 10 50)
  f hundred ones a b

-- "11.11111"
abbrev TestDecimalMultiplication : Type 0
TestDecimalMultiplication =
    with_decimals (λ hundred ones a b. decimal_multiplication_in_256 sample_std hundred ones)
    ≡ ok 11_111_110_000_000_000_000

decimal_multiplication_passes : TestDecimalMultiplication
unfolding program
decimal_multiplication_passes = refl

-- "0.6"
abbrev TestDecimalSumation : Type 0
TestDecimalSumation =
    with_decimals (λ hundred ones a b. decimal_summation_in_256 sample_std a b)
    ≡ ok 600_000_000_000_000_000

decimal_sumation_passes : TestDecimalSumation
unfolding program
decimal_sumation_passes = refl

-- "0.2"
abbrev TestDecimalSubtraction : Type 0
TestDecimalSubtraction =
    with_decimals (λ hundred ones a b. decimal_subtraction_in_256 sample_std a b)
    ≡ ok 200_000_000_000_000_000

decimal_subtraction_passes : TestDecimalSubtraction
unfolding program
decimal_subtraction_passes = refl

-- "90"
abbrev ProperCalculateRewards : Type 0
ProperCalculateRewards =
    (unwrap_option (sample_std.from_ratio 9 100) >>= λ global_index.
    calculate_decimal_rewards sample_std global_index 0 1_000)
    ≡ ok 90_000_000_000_000_000_000

proper_calculate_rewards_passes : ProperCalculateRewards
unfolding program
proper_calculate_rewards_passes = refl
