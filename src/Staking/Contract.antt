-- ===== src/Staking/Contract.antt =====
-- The entry points: src/contract.rs of the staking contract.
use dogether_contracts.Prelude.{String, some, ◌>>=◌, ok}
use dogether_contracts.Platform.Types.{Env, MessageInfo, default_response}
use dogether_contracts.Platform.Std.{Std, StdResult, Querier, load}
use dogether_contracts.Staking.Global.{handle_update_global_index}
use dogether_contracts.Staking.Msg.{
  InstantiateMsg, ExecuteMsg, Codec, LotteryConfig, ConfigResponse, StateResponse,
}
use dogether_contracts.Staking.Stake.{handle_receive, handle_unbound, handle_withdraw_stake}
use dogether_contracts.Staking.State.{Storage, Handled}
use dogether_contracts.Staking.Ticket.{handle_get_ticket}

module _ (std : Std) where
  unfoldable pub instantiate : Storage → MessageInfo → InstantiateMsg → Handled
  instantiate storage info msg = do
    admin ← std.addr_canonicalize info.sender
    cw20_token_addr ← std.addr_canonicalize msg.cw20_token_addr
    loterra_addr ← std.addr_canonicalize msg.loterra_addr
    ok (
      record storage {
        config = some (record {
          admin = admin;
          cw20_token_addr = cw20_token_addr;
          loterra_addr = loterra_addr;
          reward_denom = msg.reward_denom;
          unbonding_period = msg.unbonding_period;
        });
        state = some (record { global_index = 0; total_balance = 0; prev_reward_balance = 0 });
      },
      default_response,
    )

  unfoldable pub query_config : Storage → StdResult ConfigResponse
  query_config storage = do
    config ← load storage.config
    admin ← std.addr_humanize config.admin
    cw20_token_addr ← std.addr_humanize config.cw20_token_addr
    ok (record {
      admin = admin;
      cw20_token_addr = cw20_token_addr;
      reward_denom = config.reward_denom;
      unbonding_period = config.unbonding_period;
    })

  unfoldable pub query_state : Storage → StdResult StateResponse
  query_state storage = do
    state ← load storage.state
    ok (record {
      global_index = state.global_index;
      total_balance = state.total_balance;
      prev_reward_balance = state.prev_reward_balance;
    })

  module _ (codec : Codec) (querier : Querier) (lottery : String → StdResult LotteryConfig) where
    unfoldable pub execute : Storage → Env → MessageInfo → ExecuteMsg → Handled
    execute storage env info (ExecuteMsg.get_ticket recipient combination) =
        handle_get_ticket std querier lottery storage recipient combination
    execute storage env info ExecuteMsg.update_global_index =
        handle_update_global_index std querier storage env info
    execute storage env info (ExecuteMsg.unbond_stake amount address) =
        handle_unbound std storage env info amount address
    execute storage env info (ExecuteMsg.withdraw_stake cap address) =
        handle_withdraw_stake std storage env info cap address
    execute storage env info (ExecuteMsg.receive msg) = handle_receive std codec storage info msg
