-- ===== src/Staking/Rewards.antt =====
-- The rewards of a holder: `calculate_decimal_rewards` of src/user.rs.
pub mod Owed
use dogether_contracts.Prelude.{◌>>=◌, unwrap_option}
use dogether_contracts.Platform.Types.{Uint128, Decimal}
use dogether_contracts.Platform.Std.{Std, StdResult}
use dogether_contracts.Staking.Math.{
  decimal_multiplication_in_256, decimal_summation_in_256, decimal_subtraction_in_256,
}
use dogether_contracts.Staking.State.{State, Holder}

module _ (std : Std) where
  -- calculate the reward based on the sender's index and the global index.
  unfoldable pub calculate_decimal_rewards : Decimal → Decimal → Uint128 → StdResult Decimal
  calculate_decimal_rewards global_index user_index user_balance = do
    decimal_balance ← unwrap_option (std.from_ratio user_balance 1)
    difference ← decimal_subtraction_in_256 std global_index user_index
    decimal_multiplication_in_256 std difference decimal_balance

  -- The rewards of a holder with the pending ones.
  unfoldable pub all_rewards : State → Holder → StdResult Decimal
  unfolding calculate_decimal_rewards
  all_rewards state holder = do
    rewards ← calculate_decimal_rewards state.global_index holder.index holder.balance
    decimal_summation_in_256 std rewards holder.pending_rewards
