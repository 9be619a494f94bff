-- ===== src/Dogether/Redeem.antt =====
-- Redeeming the earnings: `try_redeem_earning` of src/contract.rs.
pub mod Interest
pub mod Total
use dogether_contracts.Prelude.{
  ℕ, [], ◌∷◌, some, ◌==◌, ltb, not, length, Outcome, ok, ◌>>=◌, ◌>>◌, fail_if, unwrap_option,
}
use dogether_contracts.Platform.Types.{
  Uint128, Decimal, Decimal256, Coin, Env, MessageInfo, message, wasm_execute,
}
use dogether_contracts.Platform.Std.{Std, Querier, StdResult, add_u64}
use dogether_contracts.Taxation.{deduct_tax}
use dogether_contracts.Dogether.Math.{decimal_multiplication_in_256, decimal_subtraction_in_256}
use dogether_contracts.Dogether.Msg.{
  ContractError, do_not_send_funds, retry_redeem_later, lift, redeem_stable, Market, send, staking,
}
use dogether_contracts.Dogether.State.{Storage, Handled, read_config, read_state, store_state}
use dogether_contracts.Staking.Msg as Staking

-- `checked_add(..).unwrap_or(..)`
abbrev pub or_else : StdResult Uint128 → Uint128 → Uint128
or_else (ok amount) other = amount
or_else (Outcome.err e) other = other
or_else Outcome.panic other = other

module _ (std : Std) where
  -- The interest in UST, as a decimal: the worth of the aUST balance less the pool.
  unfoldable pub interest_accrued : Uint128 → Uint128 → Decimal256 → Outcome ContractError Decimal
  interest_accrued pool aust_balance exchange_rate = do
    total_ust_pool ← unwrap_option (std.from_ratio pool 1)
    total_aust_balance ← unwrap_option (std.from_ratio aust_balance 1)
    rate ← unwrap_option (std.to_decimal exchange_rate)
    total_aust_to_ust ← decimal_multiplication_in_256 std total_aust_balance rate
    decimal_subtraction_in_256 std total_aust_to_ust total_ust_pool

  -- The whole aUST that an amount of UST is worth.
  unfoldable pub to_aust : Decimal → Decimal256 → Outcome ContractError Uint128
  to_aust ust exchange_rate = do
    aust_256 ← unwrap_option (std.from_ratio_256 (std.to_decimal256 ust) exchange_rate)
    aust ← unwrap_option (std.to_decimal aust_256)
    unwrap_option (std.mul_decimal aust 1)

  unfoldable pub try_redeem_earning : Querier → Market → Storage → Env → MessageInfo → Handled
  unfolding interest_accrued to_aust
  try_redeem_earning querier market storage env info = do
    state ← lift (read_state storage)
    config ← lift (read_config storage)
    fail_if (not (length info.funds == 0)) do_not_send_funds
    fail_if (ltb env.block.time state.next_draw) (retry_redeem_later state.next_draw)
    money_market ← lift (std.addr_humanize config.money_market_address)
    res ← lift (market.epoch money_market)
    aust ← lift (std.addr_humanize config.anchor_aust_address)
    balance_aust ← lift (market.aust_balance aust env.contract_address)
    interest_accrued_ust ← interest_accrued state.total_ust_pool balance_aust res.exchange_rate
    interest_to_withdraw ← to_aust interest_accrued_ust res.exchange_rate
    whole ← unwrap_option (std.mul_decimal interest_accrued_ust 1)
    precision_amount_to_send ←
        lift (deduct_tax std querier (record { denom = config.denom; amount = whole }))
    balance ← lift (querier.balance env.contract_address config.denom)
    let contract_balance : Uint128 =
        or_else (std.checked_add precision_amount_to_send.amount balance.amount)
          precision_amount_to_send.amount
    staking_address ← lift (std.addr_humanize state.staking_address)
    earning ←
        lift (deduct_tax std querier (record { denom = config.denom; amount = contract_balance }))
    next_draw ← add_u64 state.next_draw state.draw_period
    ok (
      store_state storage (record state { next_draw = next_draw }),
      record {
        messages =
            message (wasm_execute aust (send money_market interest_to_withdraw redeem_stable) [])
            ∷ message (
                wasm_execute staking_address (staking Staking.ExecuteMsg.update_global_index)
                  (earning ∷ []))
            ∷ [];
        attributes = [];
      },
    )
