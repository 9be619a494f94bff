-- ===== src/Dogether/Dispatch.antt =====
-- The queries' entry point and the migration: src/contract.rs of the dogether contract.
use dogether_contracts.Prelude.{◌>>=◌, ok}
use dogether_contracts.Platform.Std.{Std, StdResult}
use dogether_contracts.Platform.Types.{Binary, Env, Response, default_response}
use dogether_contracts.Dogether.Contract.{query_config, query_state}
use dogether_contracts.Dogether.Msg.{Payload, QueryMsg, ConfigResponse, StateResponse, MigrateMsg}
use dogether_contracts.Dogether.State.{Storage}

-- What is handed to `to_binary`.
pub data Answer : Type 0 where
  of_state : StateResponse → Answer
  of_config : ConfigResponse → Answer

module _ (std : Std) (to_binary : Answer → StdResult Binary) where
  unfoldable pub query : Storage → Env → QueryMsg → StdResult Binary
  query storage env QueryMsg.state = do
    answer ← query_state std storage
    to_binary (of_state answer)
  query storage env QueryMsg.config = do
    answer ← query_config std storage
    to_binary (of_config answer)

unfoldable pub migrate : Storage → Env → MigrateMsg → StdResult (Storage × Response Payload)
migrate storage env msg = ok (storage, default_response)
