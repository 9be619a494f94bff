-- ===== src/Dogether/Reply.antt =====
-- The replies of the calls that were asked for: `reply` of src/contract.rs.
pub mod Withdraw
pub mod Setup
pub mod Total
use dogether_contracts.Prelude.{
  ℕ, String, Option, none, some, List, [], ◌∷◌, ◌==◌, string_eq, Outcome, ok, err, ◌>>=◌, ◌>>◌,
  unwrap_option, unwrap, if◌then◌else◌, parse_u128,
}
use dogether_contracts.Platform.Types.{
  Uint128, Coin, Env, Attribute, attribute, message, wasm_execute, wasm_instantiate, bank_send,
  reply_on_success,
}
use dogether_contracts.Platform.Std.{Std, Querier}
use dogether_contracts.Taxation.{deduct_tax}
use dogether_contracts.Dogether.Msg.{
  ContractError, unauthorized, lift, redeem_stable, Market, send, instantiate_staking, Event,
  ContractResult, success, failure,
}
use dogether_contracts.Dogether.Redeem.{to_aust}
use dogether_contracts.Dogether.State.{Storage, Handled, read_config, read_state, store_state}

-- `.find(|e| e.ty == ty)` and `.find(|attr| attr.key == key)` with the value
unfoldable pub find_event : String → List Event → Option Event
find_event ty [] = none
find_event ty (e ∷ events) = if string_eq.beq e.ty ty then some e else find_event ty events

unfoldable pub find_value : String → List Attribute → Option String
find_value key [] = none
find_value key (a ∷ attributes) =
    if string_eq.beq a.key key then some a.value else find_value key attributes

-- The address of the new contract, where the events name it.
unfoldable pub contract_address : List Event → Option String
unfolding find_event find_value
contract_address events = elim (find_event "instantiate_contract" events) [
  | none ↦ none
  | some e ↦ find_value "contract_address" e.attributes
]

module _ (std : Std) where
  unfoldable pub cw20_instance_reply : Storage → Env → ContractResult → Handled
  cw20_instance_reply storage env (failure reason) = do
    _ ← lift (read_state storage)
    _ ← lift (read_config storage)
    err unauthorized
  cw20_instance_reply storage env (success events) = do
    state ← lift (read_state storage)
    config ← lift (read_config storage)
    address ← unwrap_option (contract_address events)
    cw20_address ← lift (std.addr_canonicalize address)
    loterra_addr ← lift (std.addr_humanize config.loterra_address)
    ok (
      store_state storage (record state { cw20_address = cw20_address }),
      record {
        messages =
            record {
              msg =
                  wasm_instantiate (some env.contract_address) config.code_id_staking
                    (instantiate_staking (record {
                      cw20_token_addr = address;
                      loterra_addr = loterra_addr;
                      reward_denom = config.denom;
                      unbonding_period = config.unbonding_period;
                    }))
                    [] config.label_staking;
              reply_on = reply_on_success 1;
            }
            ∷ [];
        attributes = attribute "cw20-address" address ∷ attribute "cw20-instantiate" "success" ∷ [];
      },
    )

  unfoldable pub staking_instance_reply : Storage → ContractResult → Handled
  staking_instance_reply storage (failure reason) = do
    _ ← lift (read_state storage)
    err unauthorized
  staking_instance_reply storage (success events) = do
    state ← lift (read_state storage)
    address ← unwrap_option (contract_address events)
    staking_address ← lift (std.addr_canonicalize address)
    ok (
      store_state storage (record state { staking_address = staking_address }),
      record {
        messages = [];
        attributes =
            attribute "staking-address" address ∷ attribute "staking-instantiate" "success" ∷ [];
      },
    )

  unfoldable pub withdraw_reply : Querier → Market → Storage → ContractResult → Handled
  withdraw_reply querier market storage (failure reason) = do
    _ ← lift (read_state storage)
    _ ← lift (read_config storage)
    err unauthorized
  withdraw_reply querier market storage (success events) = do
    state ← lift (read_state storage)
    config ← lift (read_config storage)
    event ← unwrap_option (find_event "wasm" events)
    text ← unwrap_option (find_value "withdraw" event.attributes)
    amount ← unwrap_option (parse_u128 text)
    money_market ← lift (std.addr_humanize config.money_market_address)
    res ← lift (market.epoch money_market)
    total_ust_pool ← unwrap_option (std.from_ratio amount 1)
    interest_to_withdraw ← to_aust std total_ust_pool res.exchange_rate
    aust ← lift (std.addr_humanize config.anchor_aust_address)
    left ← unwrap (std.checked_sub state.total_ust_pool amount)
    grow_amount ← lift (deduct_tax std querier (record { denom = config.denom; amount = amount }))
    net_amount ←
        lift (deduct_tax std querier (record { denom = config.denom; amount = grow_amount.amount }))
    to_address ← unwrap_option (find_value "recipient" event.attributes)
    ok (
      store_state storage (record state { total_ust_pool = left }),
      record {
        messages =
            message (wasm_execute aust (send money_market interest_to_withdraw redeem_stable) [])
            ∷ message (bank_send to_address (net_amount ∷ []))
            ∷ [];
        attributes =
            attribute "withdraw" (std.to_string net_amount.amount)
            ∷ attribute "status" "success"
            ∷ [];
      },
    )

  unfoldable pub reply : Querier → Market → Storage → Env → ℕ → ContractResult → Handled
  unfolding cw20_instance_reply staking_instance_reply withdraw_reply
  reply querier market storage env id result =
      if id == 0
      then cw20_instance_reply storage env result
      else if id == 1
      then staking_instance_reply storage result
      else if id == 2
      then withdraw_reply querier market storage result
      else err unauthorized
