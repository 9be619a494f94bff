-- ===== src/Staking/Query.antt =====
-- The queries about holders: src/user.rs.
pub mod Accrued
pub mod Kept
pub mod Spent
use dogether_contracts.Prelude.{String, ◌>>=◌, ok, unwrap_option}
use dogether_contracts.Platform.Std.{Std, StdResult, load}
use dogether_contracts.Staking.Msg.{AccruedRewardsResponse, HolderResponse}
use dogether_contracts.Staking.Rewards.{all_rewards}
use dogether_contracts.Staking.State.{Storage, read_holder}

module _ (std : Std) where
  unfoldable pub query_accrued_rewards : Storage → String → StdResult AccruedRewardsResponse
  query_accrued_rewards storage address = do
    state ← load storage.state
    address_raw ← std.addr_canonicalize address
    all_reward_with_decimals ← all_rewards std state (read_holder storage address_raw)
    rewards ← unwrap_option (std.mul_decimal all_reward_with_decimals 1)
    ok (record { rewards = rewards })

  unfoldable pub query_holder : Storage → String → StdResult HolderResponse
  query_holder storage address = do
    address_raw ← std.addr_canonicalize address
    let holder = read_holder storage address_raw
    ok (record {
      address = address;
      balance = holder.balance;
      index = holder.index;
      pending_rewards = holder.pending_rewards;
    })
