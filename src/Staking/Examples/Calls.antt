-- ===== src/Staking/Examples/Calls.antt =====
-- Calls of src/contract.rs on the concrete chain.
use dogether_contracts.Prelude.{◌≡◌, refl, some, none, [], ◌∷◌, ok, arith, list_eq, nat_eq}
use dogether_contracts.Platform.Types.{Env, Coin, Response}
use dogether_contracts.Platform.Storage.{may_load}
use dogether_contracts.Platform.Sample.{sample_std, sample_querier, sample-IsDocumented}
use dogether_contracts.Staking.Msg.{Payload, ExecuteMsg, LotteryConfig, AccruedRewardsResponse}
use dogether_contracts.Staking.Solvency.Invariant.{IsBacked}
use dogether_contracts.Staking.Solvency.Reach.{Reaches-IsBacked}
use dogether_contracts.Staking.State.{Storage, State}
use dogether_contracts.Platform.Types.{Uint128}
use dogether_contracts.Prelude.{ℕ, ◌+◌, ◌≤◌, if◌then◌else◌}
use dogether_contracts.Staking.Claim.Sums.{due, not_due}
use dogether_contracts.Staking.Custody.Held.{held, burned, paid_out, sum_amounts}
use dogether_contracts.Staking.Custody.Conservation.{received, execute-held}
use dogether_contracts.Staking.Global.Effects.{HasRaised, handle_update_global_index-HasRaised}
use dogether_contracts.Staking.Query.{query_accrued_rewards}
use dogether_contracts.Staking.Query.Kept.{handle_bond-accrued, handle_unbound-accrued}
use dogether_contracts.Staking.Query.Spent.{handle_get_ticket-accrued}
use dogether_contracts.Staking.Access.{IsAllowed, execute-IsAllowed}
use dogether_contracts.Staking.Claim.{or_empty}
use dogether_contracts.Staking.Custody.Unbonding.{handle_unbound-handle_withdraw_stake}
use dogether_contracts.Staking.Solvency.Purchase.{handle_get_ticket_total}
use dogether_contracts.Staking.Ticket.{handle_get_ticket}
use dogether_contracts.Staking.Stake.{handle_withdraw_stake}
use dogether_contracts.Staking.Examples.{
  sample_codec, sample_lottery, sample_env, by, program, stored, sent, call, bond_of, with_alice,
  with_both, rewarded, unbonded, bought, reached, alice, bob, sample_config, reached_unbonded,
  after_rewards, after_unbond,
}

buy : ExecuteMsg
buy = ExecuteMsg.get_ticket "alice" ("012345" ∷ "abcdef" ∷ [])

abbrev bob_rewards : AccruedRewardsResponse
bob_rewards = record { rewards = 1_250 }

abbrev staked_400 : State
staked_400 = record { global_index = 0; total_balance = 400; prev_reward_balance = 0 }

abbrev answer : LotteryConfig
answer = record { price_per_ticket_to_register = 1_000; lottery_counter = 7 }

Reaches-IsBacked_example : IsBacked bought
Reaches-IsBacked_example = Reaches-IsBacked sample_std sample_codec sample-IsDocumented reached

-- Bob bonds 100 units, which are held from then on.
execute-held_example :
    held with_both + burned (sent (call with_alice "token" (bond_of "bob" 100))).messages
    ≡ held with_alice + received (bond_of "bob" 100)
unfolding program call
execute-held_example =
    execute-held sample_std sample-IsDocumented sample_codec sample_querier sample_lottery
      with_alice {storage' = with_both} {r = sent (call with_alice "token" (bond_of "bob" 100))}
      sample_env (by "token") (bond_of "bob" 100) refl

-- Alice buys two tickets at 1000, and the tax on them, of her 3750.
handle_get_ticket-accrued_example :
    (paid : ℕ) × (paid_out (sent (call unbonded "bob" buy)).messages ≤ paid)
    × (1_748 + (if (list_eq {A = ℕ}).beq alice alice then paid else 0) ≡ 3_750)
unfolding program call buy query_accrued_rewards
handle_get_ticket-accrued_example =
    handle_get_ticket-accrued sample_std sample-IsDocumented sample_querier sample_lottery unbonded
      {storage' = bought} {r = sent (call unbonded "bob" buy)} "alice"
      {before = record { rewards = 3_750 }} {after = record { rewards = 1_748 }} refl refl "alice"
      ("012345" ∷ "abcdef" ∷ []) refl alice alice refl refl

abbrev more : Storage
more = stored (call rewarded "token" (bond_of "bob" 60))

-- Bob bonds 60 units more, and keeps the 1250 that he has earned.
handle_bond-accrued_example : bob_rewards.rewards ≡ bob_rewards.rewards
unfolding program call query_accrued_rewards
handle_bond-accrued_example =
    handle_bond-accrued sample_std sample-IsDocumented rewarded {storage' = more}
      {r = sent (call rewarded "token" (bond_of "bob" 60))} "bob" {before = bob_rewards}
      {after = bob_rewards} refl refl (by "token") "bob" 60 refl

-- Bob unbonds 40 of his 100 units, and keeps the 1250 that he has earned.
handle_unbound-accrued_example : bob_rewards.rewards ≡ bob_rewards.rewards
unfolding program call query_accrued_rewards
handle_unbound-accrued_example =
    handle_unbound-accrued sample_std sample-IsDocumented rewarded {storage' = unbonded}
      {r = sent (call rewarded "admin" (ExecuteMsg.unbond_stake 40 "bob"))} "bob"
      {before = bob_rewards} {after = bob_rewards} refl refl sample_env (by "admin") 40 "bob" refl

-- The 5000 units of the contract raise the index of 400 units of stake by 12.5.
handle_update_global_index-HasRaised_example :
    (t : State) × (coin : Coin) × (claimed_rewards : Uint128) × (sample_querier.balance
        sample_env.contract_address sample_config.reward_denom
      ≡ ok coin)
    × (rewarded ≡ record with_both { state = some t })
    × HasRaised staked_400 t coin.amount claimed_rewards
    × ((sent (call with_both "admin" ExecuteMsg.update_global_index)).messages ≡ [])
unfolding program call
handle_update_global_index-HasRaised_example =
    handle_update_global_index-HasRaised sample_std sample-IsDocumented sample_querier with_both
      sample_env (by "admin") staked_400 sample_config {storage' = rewarded}
      {r = sent (call with_both "admin" ExecuteMsg.update_global_index)} refl refl refl

execute-IsAllowed_example :
    IsAllowed sample_std sample_config (by "admin") (ExecuteMsg.unbond_stake 40 "bob")
unfolding program call
execute-IsAllowed_example =
    execute-IsAllowed sample_std sample_codec sample_querier sample_lottery rewarded sample_config
      refl {storage' = unbonded}
      {r = sent (call rewarded "admin" (ExecuteMsg.unbond_stake 40 "bob"))} sample_env (by "admin")
      (ExecuteMsg.unbond_stake 40 "bob") refl

handle_get_ticket_total_example :
    (storage' : Storage) × (r : Response Payload) × (handle_get_ticket sample_std sample_querier
        sample_lottery unbonded "alice"
        ("012345" ∷ "abcdef" ∷ [])
      ≡ ok (storage', r))
unfolding program call
handle_get_ticket_total_example =
    handle_get_ticket_total sample_std sample-IsDocumented sample_querier sample_lottery unbonded
      after_unbond sample_config refl refl "alice" ("012345" ∷ "abcdef" ∷ []) alice "loterra"
      "alice" answer 2_000 2 {combinations = bought.combinations}
      (Reaches-IsBacked sample_std sample_codec sample-IsDocumented reached_unbonded)
      (λ e. absurd (cc)) refl refl refl refl refl refl (omega arith) (omega arith) (omega arith)
      (omega arith) (omega arith)

abbrev late_env : Env
late_env = record { block = record { height = 150; time = 2_000 }; contract_address = "staking" }

-- Bob gets the 40 units that he unbonded, 100 blocks later.
handle_unbound-handle_withdraw_stake_example :
    (storage'' : Storage) × (r' : Response Payload) × (handle_withdraw_stake sample_std unbonded
        late_env
        (by "admin")
        none
        "bob"
      ≡ ok (storage'', r'))
    × (burned r'.messages
        ≡ 40
          + sum_amounts (due sample_std late_env.block (or_empty (may_load bob rewarded.claims))))
    × (may_load bob storage''.claims
        ≡ some (not_due sample_std late_env.block (or_empty (may_load bob rewarded.claims))))
unfolding program call
handle_unbound-handle_withdraw_stake_example =
    handle_unbound-handle_withdraw_stake sample_std sample-IsDocumented rewarded after_rewards
      sample_config refl refl sample_env (by "admin") refl "bob" bob refl 40 {storage' = unbonded}
      {r = sent (call rewarded "admin" (ExecuteMsg.unbond_stake 40 "bob"))} late_env "token" refl
      (omega arith) (omega arith) refl
