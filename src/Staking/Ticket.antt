-- ===== src/Staking/Ticket.antt =====
-- Tickets bought with a holder's rewards: `handle_get_ticket` of src/user.rs.
pub mod Effects
pub mod Combinations
pub mod Fee
use Prim.Native.String.{◌++◌ as str_append}
use dogether_contracts.Prelude.{
  ℕ, String, none, some, List, [], ◌∷◌, ◌==◌, ltb, list_eq, nat_eq, pair_eq, string_eq, length,
  ◌>>=◌, ◌>>◌, ok, err, fail_if, unwrap, unwrap_option,
}
use dogether_contracts.Platform.Types.{
  generic_err, attribute, Uint128, CanonicalAddr, wasm_execute, message,
}
use dogether_contracts.Platform.Std.{Std, StdResult, Querier, load, mul_u128}
use dogether_contracts.Platform.Storage.{Map, may_load, save}
use dogether_contracts.Taxation.{deduct_tax}
use dogether_contracts.Staking.Msg.{register, LotteryConfig}
use dogether_contracts.Staking.Rewards.{all_rewards}
use dogether_contracts.Staking.State.{Storage, Handled, CombinationKey, read_holder, store_holder}

-- The check for existing combinations and their storage, one after the other.
unfoldable pub store_combinations :
    ℕ
    → CanonicalAddr
    → List String
    → Map CombinationKey String
    → StdResult (Map CombinationKey String)
store_combinations counter address [] stored = ok stored
store_combinations counter address (combo ∷ combination) stored =
    let key : CombinationKey = (counter, (address, combo)) in
    let rest = store_combinations counter address combination (save key combo stored) in
    elim (may_load key stored) [
      | none ↦ rest
      | some _ ↦ err (generic_err (str_append "Combination " (str_append combo " already exist")))
    ]

module _ (std : Std) where
  unfoldable pub ticket_cost : Querier → String → LotteryConfig → ℕ → StdResult (Uint128 × Uint128)
  ticket_cost querier denom lottery count = do
    total_ticket_cost ← mul_u128 lottery.price_per_ticket_to_register count
    net ← deduct_tax std querier (record { denom = denom; amount = total_ticket_cost })
    total_fee ← unwrap (std.checked_sub total_ticket_cost net.amount)
    ok (total_ticket_cost, total_fee)

  unfoldable pub handle_get_ticket :
      Querier → (String → StdResult LotteryConfig) → Storage → String → List String → Handled
  unfolding ticket_cost
  handle_get_ticket querier lottery storage recipient combination = do
    fail_if (length combination == 0) (generic_err "No combination found")
    holder_addr_raw ← std.addr_canonicalize recipient
    let holder = read_holder storage holder_addr_raw
    state ← load storage.state
    config ← load storage.config
    all_reward_with_decimals ← all_rewards std state holder
    rewards ← unwrap_option (std.mul_decimal all_reward_with_decimals 1)
    fail_if (rewards == 0) (generic_err "No rewards have accrued yet")
    lottery_human ← std.addr_humanize config.loterra_addr
    query_loterra ← lottery lottery_human
    (total_ticket_cost, total_fee) ←
        ticket_cost querier config.reward_denom query_loterra (length combination)
    total_ticket_with_fees ← unwrap (std.checked_add total_ticket_cost total_fee)
    fail_if (ltb rewards total_ticket_with_fees)
        (generic_err (not_enough total_ticket_cost total_fee rewards))
    combinations ←
        store_combinations query_loterra.lottery_counter holder_addr_raw combination
          storage.combinations
    new_balance ← std.checked_sub state.prev_reward_balance total_ticket_with_fees
    left ← unwrap (std.checked_sub rewards total_ticket_with_fees)
    pending_rewards ← unwrap_option (std.from_ratio left 1)
    address ← std.addr_validate recipient
    contract ← std.addr_humanize config.loterra_addr
    ok (
      store_holder
          (record storage {
            combinations = combinations;
            state = some (record state { prev_reward_balance = new_balance });
          })
          holder_addr_raw
          (record holder { pending_rewards = pending_rewards; index = state.global_index }),
      record {
        messages =
            message (
              wasm_execute contract (register (some address) none combination)
                (record { denom = config.reward_denom; amount = total_ticket_cost } ∷ []))
            ∷ [];
        attributes =
            attribute "action" "get_ticket"
            ∷ attribute "player_address" recipient
            ∷ attribute "ticket_number" (std.to_string (length combination))
            ∷ [];
      },
    )
    where
      not_enough : Uint128 → Uint128 → Uint128 → String
      not_enough cost fee rewards = str_append "Not enough funds, you want to buy " (
          str_append (std.to_string cost) (
            str_append "UST + " (
              str_append (std.to_string fee) (
                str_append "UST network fees tickets and you only have "
                  (str_append (std.to_string rewards) "UST")))))
