-- ===== src/Staking/Examples/Amounts.antt =====
-- The claims of src/claim.rs and the rewards of src/user.rs on concrete amounts.
use dogether_contracts.Prelude.{◌*◌, ◌/◌, ◌<◌, ◌≡◌, refl, none, [], ◌∷◌, ok, arith, list_eq, nat_eq}
use dogether_contracts.Platform.Sample.{sample_querier, sample_std, sample-IsDocumented}
use dogether_contracts.Staking.Msg.{LotteryConfig}
use dogether_contracts.Staking.Ticket.{ticket_cost}
use dogether_contracts.Staking.Ticket.Fee.{ticket_cost_short}
use dogether_contracts.Taxation.{min}
use dogether_contracts.Platform.Types.{decimal_one}
use dogether_contracts.Staking.State.{State, Holder}
use dogether_contracts.Prelude.{List, ◌+◌, ◌≤◌}
use dogether_contracts.Platform.Types.{at_height}
use dogether_contracts.Staking.Claim.Sums.{
  due, not_due, partition_claims_within, partition_claims_uncapped,
}
use dogether_contracts.Staking.Custody.Held.{sum_amounts}
use dogether_contracts.Staking.Rewards.Owed.{owed, all_rewards_total}
use dogether_contracts.Staking.State.{Claim}
use dogether_contracts.Staking.Claim.{partition_claims}
use dogether_contracts.Staking.Rewards.{all_rewards}
use dogether_contracts.Staking.Examples.{sample_env, program}

abbrev sample_claims : List Claim
sample_claims =
    record { amount = 5; release_at = at_height 10 }
    ∷ record { amount = 7; release_at = at_height 60 }
    ∷ record { amount = 9; release_at = at_height 40 }
    ∷ []

abbrev late_claim : List Claim
late_claim = record { amount = 7; release_at = at_height 60 } ∷ []

abbrev capped_claims : List Claim
capped_claims =
    record { amount = 7; release_at = at_height 60 }
    ∷ record { amount = 9; release_at = at_height 40 }
    ∷ []

partition_claims_uncapped_example :
    partition_claims sample_std sample_env.block none 0 sample_claims
    ≡ ok (
      0 + sum_amounts (due sample_std sample_env.block sample_claims),
      not_due sample_std sample_env.block sample_claims,
    )
partition_claims_uncapped_example =
    partition_claims_uncapped sample_std sample-IsDocumented sample_env.block 0 sample_claims
      (omega arith)

partition_claims_within_example : 5 ≤ 13
unfolding program
partition_claims_within_example =
    partition_claims_within sample_std sample-IsDocumented sample_env.block 13 0 sample_claims
      {total = 5} {waiting = capped_claims} refl (omega arith)

abbrev sample_state : State
sample_state = record {
  global_index = 12_500_000_000_000_000_000;
  total_balance = 400;
  prev_reward_balance = 5_000;
}

abbrev sample_holder : Holder
sample_holder = record { balance = 100; index = 500_000_000_000_000_000; pending_rewards = 7 }

all_rewards_total_example :
    all_rewards sample_std sample_state sample_holder
    ≡ ok (owed sample_state.global_index sample_holder)
all_rewards_total_example =
    all_rewards_total sample_std sample-IsDocumented sample_state sample_holder (omega arith)
      (omega arith) (omega arith) (omega arith)

abbrev costly : LotteryConfig
costly = record { price_per_ticket_to_register = 10_000_000; lottery_counter = 7 }

-- The tax on sending 10,000,000 is 10,000, and 9991 is put aside.
ticket_cost_short_example : 9_991 < min (10_000_000 * 1_000_000_000_000_000 / decimal_one) 1_000_000
unfolding program ticket_cost
ticket_cost_short_example =
    ticket_cost_short sample_std sample-IsDocumented sample_querier "uusd" costly 1
      1_000_000_000_000_000 1_000_000 10_000_000 9_991 refl refl refl (omega arith) (omega arith)
