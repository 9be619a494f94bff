-- ===== src/Staking/Global.antt =====
-- The global reward index: src/global.rs.
pub mod Effects
use dogether_contracts.Prelude.{
  ◌∷◌, [], some, ◌==◌, not, list_eq, nat_eq, ◌>>=◌, ◌>>◌, ok, fail_if, unwrap, unwrap_option,
}
use dogether_contracts.Platform.Types.{generic_err, Env, MessageInfo, Response, attribute, Uint128}
use dogether_contracts.Platform.Std.{Std, StdResult, Querier, load}
use dogether_contracts.Staking.Math.{decimal_summation_in_256}
use dogether_contracts.Staking.Msg.{Payload}
use dogether_contracts.Staking.State.{Storage, State}

module _ (std : Std) where
  -- The state after a balance has been read.
  unfoldable pub raise_index : State → Uint128 → StdResult (State × Uint128)
  raise_index state balance = do
    claimed_rewards ← std.checked_sub balance state.prev_reward_balance
    share ← unwrap_option (std.from_ratio claimed_rewards state.total_balance)
    index ← decimal_summation_in_256 std state.global_index share
    ok (record state { global_index = index; prev_reward_balance = balance }, claimed_rewards)

  unfoldable pub handle_update_global_index :
      Querier → Storage → Env → MessageInfo → StdResult (Storage × Response Payload)
  unfolding raise_index
  handle_update_global_index querier storage env info = do
    state ← load storage.state
    config ← load storage.config
    sender ← std.addr_canonicalize info.sender
    fail_if (not (list_eq.beq config.admin sender)) (generic_err "Not authorized")
    fail_if (state.total_balance == 0) (generic_err "No asset is bonded by Hub")
    balance ← unwrap (querier.balance env.contract_address config.reward_denom)
    (state', claimed_rewards) ← raise_index state balance.amount
    ok (
      record storage { state = some state' },
      record {
        messages = [];
        attributes =
            attribute "action" "update_global_index"
            ∷ attribute "claimed_rewards" (std.to_string claimed_rewards)
            ∷ [];
      },
    )
