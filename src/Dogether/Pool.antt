-- ===== src/Dogether/Pool.antt =====
-- Pooling, unpooling and claiming: `try_pool`, `try_un_pool` and `try_claim_un_pool` of
-- src/contract.rs.
pub mod Effects
pub mod Total
use dogether_contracts.Prelude.{
  ℕ, String, none, [], ◌∷◌, List, ◌==◌, not, string_eq, Outcome, ok, err, ◌>>=◌, ◌>>◌, fail_if,
  unwrap, if◌then◌else◌,
}
use dogether_contracts.Platform.Types.{
  Uint128, Coin, MessageInfo, message, wasm_execute, reply_on_success,
}
use dogether_contracts.Platform.Std.{Std, Querier}
use dogether_contracts.Taxation.{deduct_tax}
use dogether_contracts.Dogether.Msg.{
  ContractError, empty_funds, multiple_denoms, wrong_denom, empty_amount, lift, deposit_stable,
  anchor, bond, staking,
}
use dogether_contracts.Dogether.State.{Storage, Handled, read_config, read_state, store_state}
use dogether_contracts.Staking.Msg as Staking
use dogether_contracts.Staking.Msg.{Codec}

-- The single coin of the right denomination.
unfoldable pub sent_funds : String → List Coin → Outcome ContractError Uint128
sent_funds denom [] = err empty_funds
sent_funds denom (coin ∷ []) =
    if not (string_eq.beq coin.denom denom) then err wrong_denom else ok coin.amount
sent_funds denom (coin ∷ other ∷ coins) = err multiple_denoms

module _ (std : Std) where
  unfoldable pub try_pool : Querier → Codec → Storage → MessageInfo → Handled
  unfolding sent_funds
  try_pool querier codec storage info = do
    state ← lift (read_state storage)
    config ← lift (read_config storage)
    sent ← sent_funds config.denom info.funds
    money_market ← lift (std.addr_humanize config.money_market_address)
    let coin : Coin = record { denom = config.denom; amount = sent }
    deposit ← lift (deduct_tax std querier coin)
    staking_address ← lift (std.addr_humanize state.staking_address)
    bonded ← lift (deduct_tax std querier coin)
    msg ← lift (codec.to_binary Staking.bond_stake)
    cw20_address ← lift (std.addr_humanize state.cw20_address)
    pooled ← lift (deduct_tax std querier coin)
    total_ust_pool ← unwrap (std.checked_add state.total_ust_pool pooled.amount)
    ok (
      store_state storage (record state { total_ust_pool = total_ust_pool }),
      record {
        messages =
            message (wasm_execute money_market (anchor deposit_stable) (deposit ∷ []))
            ∷ message
                (wasm_execute cw20_address (bond staking_address bonded.amount msg info.sender) [])
            ∷ [];
        attributes = [];
      },
    )

  unfoldable pub try_un_pool : Storage → MessageInfo → Uint128 → Handled
  try_un_pool storage info amount = do
    state ← lift (read_state storage)
    _ ← lift (read_config storage)
    fail_if (amount == 0) empty_amount
    staking_address ← lift (std.addr_humanize state.staking_address)
    ok (
      storage,
      record {
        messages =
            message (
              wasm_execute staking_address
                (staking (Staking.ExecuteMsg.unbond_stake amount info.sender)) [])
            ∷ [];
        attributes = [];
      },
    )

  unfoldable pub try_claim_un_pool : Storage → MessageInfo → Handled
  try_claim_un_pool storage info = do
    state ← lift (read_state storage)
    staking_address ← lift (std.addr_humanize state.staking_address)
    let withdraw = staking (Staking.ExecuteMsg.withdraw_stake none info.sender)
    ok (
      storage,
      record {
        messages =
            record { msg = wasm_execute staking_address withdraw []; reply_on = reply_on_success 2 }
            ∷ [];
        attributes = [];
      },
    )
