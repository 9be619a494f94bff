-- ===== src/Token/Dispatch.antt =====
-- The queries' entry point: src/contract.rs of the token contract.
use dogether_contracts.Prelude.{Option, ◌>>=◌}
use dogether_contracts.Platform.Std.{Std, StdResult}
use dogether_contracts.Platform.Types.{Binary, Env, Uint128}
use dogether_contracts.Token.Contract.{
  TokenInfoResponse, MinterResponse, query_balance, query_token_info, query_minter,
}
use dogether_contracts.Token.Listing.{AllAccountsResponse, query_all_accounts}
use dogether_contracts.Token.Msg.{QueryMsg}
use dogether_contracts.Token.State.{Storage}

-- What is handed to `to_binary`.
pub data Answer : Type 0 where
  of_balance : Uint128 → Answer
  of_token_info : TokenInfoResponse → Answer
  of_minter : Option MinterResponse → Answer
  of_accounts : AllAccountsResponse → Answer

module _ (std : Std) (to_binary : Answer → StdResult Binary) where
  unfoldable pub query : Storage → Env → QueryMsg → StdResult Binary
  query storage env (QueryMsg.balance address) = do
    answer ← query_balance std storage address
    to_binary (of_balance answer)
  query storage env QueryMsg.token_info = do
    answer ← query_token_info storage
    to_binary (of_token_info answer)
  query storage env QueryMsg.minter = do answer ← query_minter storage; to_binary (of_minter answer)
  query storage env (QueryMsg.all_accounts start_after limit) = do
    answer ← query_all_accounts storage start_after limit
    to_binary (of_accounts answer)
