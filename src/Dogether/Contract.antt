-- ===== src/Dogether/Contract.antt =====
-- The entry points: src/contract.rs of the dogether contract.
use dogether_contracts.Prelude.{some, [], ◌∷◌, ok, ◌>>=◌}
use dogether_contracts.Platform.Types.{
  Env, MessageInfo, attribute, wasm_instantiate, reply_on_success,
}
use dogether_contracts.Platform.Std.{Std, StdResult, Querier}
use dogether_contracts.Dogether.Msg.{
  lift, InstantiateMsg, ExecuteMsg, pool, un_pool, claim_un_pool, redeem_earning, Market,
  instantiate_cw20, StateResponse, ConfigResponse,
}
use dogether_contracts.Dogether.Pool.{try_pool, try_un_pool, try_claim_un_pool}
use dogether_contracts.Dogether.Redeem.{try_redeem_earning}
use dogether_contracts.Dogether.State.{
  Config, State, Storage, Handled, read_config, read_state, store_config, store_state,
}
use dogether_contracts.Staking.Msg.{Codec}

module _ (std : Std) where
  unfoldable pub instantiate : Storage → Env → MessageInfo → InstantiateMsg → Handled
  instantiate storage env info msg = do
    admin ← lift (std.addr_canonicalize info.sender)
    money_market_address ← lift (std.addr_canonicalize msg.money_market_address)
    anchor_aust_address ← lift (std.addr_canonicalize msg.anchor_aust_address)
    loterra_address ← lift (std.addr_canonicalize msg.loterra_address)
    staking_address ← lift (std.addr_canonicalize info.sender)
    cw20_address ← lift (std.addr_canonicalize info.sender)
    let config : Config = record {
      admin = admin;
      denom = "uusd";
      money_market_address = money_market_address;
      anchor_aust_address = anchor_aust_address;
      code_id_staking = msg.code_id_staking;
      label_staking = msg.label_staking;
      unbonding_period = msg.unbonding_period;
      loterra_address = loterra_address;
    }
    let state : State = record {
      staking_address = staking_address;
      cw20_address = cw20_address;
      draw_period = msg.draw_period;
      next_draw = msg.next_draw;
      total_ust_pool = 0;
    }
    ok (
      store_state (store_config storage config) state,
      record {
        messages =
            record {
              msg =
                  wasm_instantiate (some env.contract_address) msg.code_id_cw20
                    (instantiate_cw20 msg.message_cw20) [] msg.label_cw20;
              reply_on = reply_on_success 0;
            }
            ∷ [];
        attributes =
            attribute "instantiate" "Dogether"
            ∷ attribute "instantiate_cw20" "Dogether cw20"
            ∷ attribute "instantiate_staking" "Dogether staking"
            ∷ [];
      },
    )

  unfoldable pub execute :
      Querier → Codec → Market → Storage → Env → MessageInfo → ExecuteMsg → Handled
  execute querier codec market storage env info pool = try_pool std querier codec storage info
  execute querier codec market storage env info (un_pool amount) =
      try_un_pool std storage info amount
  execute querier codec market storage env info claim_un_pool = try_claim_un_pool std storage info
  execute querier codec market storage env info redeem_earning =
      try_redeem_earning std querier market storage env info

  unfoldable pub query_state : Storage → StdResult StateResponse
  query_state storage = do
    state ← read_state storage
    staking_address ← std.addr_humanize state.staking_address
    cw20_address ← std.addr_humanize state.cw20_address
    ok (record {
      staking_address = staking_address;
      cw20_address = cw20_address;
      draw_period = state.draw_period;
      next_draw = state.next_draw;
      total_ust_pool = state.total_ust_pool;
    })

  unfoldable pub query_config : Storage → StdResult ConfigResponse
  query_config storage = do
    config ← read_config storage
    admin ← std.addr_humanize config.admin
    money_market_address ← std.addr_humanize config.money_market_address
    anchor_aust_address ← std.addr_humanize config.anchor_aust_address
    loterra_address ← std.addr_humanize config.loterra_address
    ok (record {
      admin = admin;
      denom = config.denom;
      money_market_address = money_market_address;
      anchor_aust_address = anchor_aust_address;
      unbonding_period = config.unbonding_period;
      loterra_address = loterra_address;
    })
