-- ===== src/Staking/Global/Effects.antt =====
-- What `handle_update_global_index` of src/global.rs has done where it succeeds.
use native.Mathlib.Nat.{div-mul-le_self}
use dogether_contracts.Prelude.{
  ◌+◌, ◌-◌, ◌*◌, ◌/◌, ◌≤◌, ◌<◌, ◌≡◌, some, ok, arith, [], list_eq, nat_eq, Outcome-cases,
  Option-cases, inl, inr,
}
use dogether_contracts.Platform.Types.{
  StdError, Uint128, decimal_one, Env, MessageInfo, Response, Coin,
}
use dogether_contracts.Platform.Std.{Std, Querier}
use dogether_contracts.Platform.Laws.{IsDocumented}
use dogether_contracts.Staking.Math.{summation_lem}
use dogether_contracts.Staking.Global.{raise_index, handle_update_global_index}
use dogether_contracts.Staking.Msg.{Payload}
use dogether_contracts.Staking.State.{State, Storage, Config}

-- The state `t` after the balance `balance` was seen at `s`: every unit of stake earns an equal
-- share of what has come in, rounded down.
pub record HasRaised (s t : State) (balance claimed_rewards : Uint128) : Type 0 where
  pub staked : 0 < s.total_balance
  pub income : claimed_rewards + s.prev_reward_balance ≡ balance
  pub index : t.global_index ≡ s.global_index + claimed_rewards * decimal_one / s.total_balance
  pub total : t.total_balance ≡ s.total_balance
  pub seen : t.prev_reward_balance ≡ balance

module _ (std : Std) (doc : IsDocumented std) where
  pub raise_index-HasRaised :
      (s t : State) (balance claimed_rewards : Uint128)
      → raise_index std s balance ≡ ok (t, claimed_rewards)
      → HasRaised s t balance claimed_rewards
  unfolding raise_index
  raise_index-HasRaised s t balance claimed_rewards e =
      elim (Option-cases (std.from_ratio (balance - s.prev_reward_balance) s.total_balance)) [
        | inl fails ↦ absurd (ground (arith, doc.checked_sub_lem balance s.prev_reward_balance))
        | inr (share, c) ↦ ground (
          arith,
          doc.checked_sub_lem balance s.prev_reward_balance,
          doc.from_ratio_value (balance - s.prev_reward_balance) s.total_balance c,
          summation_lem std doc {E = StdError} s.global_index share,
        )
      ]

  -- Where the update of the index succeeds on a stored state and configuration, some stake exists,
  -- the queried balance of the contract is the recorded one and the new income, the index rises by
  -- the income per unit of stake rounded down, the queried balance is recorded, and nothing else is
  -- written and no message is sent.
  pub handle_update_global_index-HasRaised :
      (querier : Querier) (storage : Storage) (env : Env) (info : MessageInfo) (s : State)
      (config : Config) {storage' : Storage} {r : Response Payload}
      → storage.state ≡ some s
      → storage.config ≡ some config
      → handle_update_global_index std querier storage env info ≡ ok (storage', r)
      → (t : State) × (coin : Coin) × (claimed_rewards : Uint128) × (querier.balance
            env.contract_address config.reward_denom
          ≡ ok coin)
        × (storage' ≡ record storage { state = some t })
        × HasRaised s t coin.amount claimed_rewards
        × (r.messages ≡ [])
  unfolding handle_update_global_index
  handle_update_global_index-HasRaised querier storage env info s config loaded configured e =
      elim (Outcome-cases (querier.balance env.contract_address config.reward_denom)) [
        | inr fails ↦ absurd (ground arith)
        | inl (coin, c1) ↦ elim (Outcome-cases (raise_index std s coin.amount)) [
          | inr fails ↦ absurd (ground arith)
          | inl ((t, claimed_rewards), c2) ↦ (
            t,
            coin,
            claimed_rewards,
            c1,
            ground arith,
            raise_index-HasRaised s t coin.amount claimed_rewards c2,
            ground arith,
          )
        ]
      ]

-- The rise of the index, over the whole stake, costs no more than what has come in.
pub raise_covered :
    {s t : State} {balance claimed_rewards : Uint128}
    → HasRaised s t balance claimed_rewards
    → (t.global_index - s.global_index) * s.total_balance + s.prev_reward_balance * decimal_one
      ≤ t.prev_reward_balance * decimal_one
raise_covered {s} {t} {balance} {claimed_rewards} h =
    let rise : t.global_index - s.global_index ≡ claimed_rewards * decimal_one / s.total_balance =
      omega (arith, h.index) in
    rw (rise, h.seen)
      (omega (arith, h.income, div-mul-le_self (claimed_rewards * decimal_one) s.total_balance))
