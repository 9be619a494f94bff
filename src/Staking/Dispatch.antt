-- ===== src/Staking/Dispatch.antt =====
-- The queries' entry point and the migration: src/contract.rs of the staking contract.
use dogether_contracts.Prelude.{◌>>=◌, ok}
use dogether_contracts.Platform.Std.{Std, StdResult}
use dogether_contracts.Platform.Types.{Binary, Env, default_response}
use dogether_contracts.Staking.Claim.{ClaimsResponse, query_claims}
use dogether_contracts.Staking.Contract.{query_config, query_state}
use dogether_contracts.Staking.Listing.{query_holders}
use dogether_contracts.Staking.Msg.{
  QueryMsg, ConfigResponse, StateResponse, AccruedRewardsResponse, HolderResponse, HoldersResponse,
  MigrateMsg,
}
use dogether_contracts.Staking.Query.{query_accrued_rewards, query_holder}
use dogether_contracts.Staking.State.{Storage, Handled}

-- What is handed to `to_binary`.
pub data Answer : Type 0 where
  of_config : ConfigResponse → Answer
  of_state : StateResponse → Answer
  of_rewards : AccruedRewardsResponse → Answer
  of_holder : HolderResponse → Answer
  of_holders : HoldersResponse → Answer
  of_claims : ClaimsResponse → Answer

module _ (std : Std) (to_binary : Answer → StdResult Binary) where
  unfoldable pub query : Storage → Env → QueryMsg → StdResult Binary
  query storage env QueryMsg.config = do
    answer ← query_config std storage
    to_binary (of_config answer)
  query storage env QueryMsg.state = do
    answer ← query_state std storage
    to_binary (of_state answer)
  query storage env (QueryMsg.accrued_rewards address) = do
    answer ← query_accrued_rewards std storage address
    to_binary (of_rewards answer)
  query storage env (QueryMsg.holder address) = do
    answer ← query_holder std storage address
    to_binary (of_holder answer)
  query storage env (QueryMsg.holders start_after limit) = do
    answer ← query_holders std storage start_after limit
    to_binary (of_holders answer)
  query storage env (QueryMsg.claims address) = do
    answer ← query_claims std storage address
    to_binary (of_claims answer)

unfoldable pub migrate : Storage → Env → MigrateMsg → Handled
migrate storage env msg = ok (storage, default_response)
