-- ===== src/Staking/Examples.antt =====
-- The staking contract on a concrete chain: alice bonds 300 units, bob bonds 100, rewards of 5000
-- come in, bob unbonds, and alice buys tickets.
mod Calls
mod Amounts
mod Pages
use dogether_contracts.Prelude.{◌≡◌, refl, some, [], ◌∷◌, ok, list_eq, nat_eq, String}
use dogether_contracts.Platform.Types.{Env, MessageInfo, Response}
use dogether_contracts.Platform.Std.{StdResult}
use dogether_contracts.Platform.Storage.{may_load, save}
use dogether_contracts.Platform.Sample.{sample_std, sample_querier}
use dogether_contracts.Staking.Contract.{instantiate, execute}
use dogether_contracts.Staking.Msg.{
  Payload, InstantiateMsg, ExecuteMsg, Codec, LotteryConfig, bond_stake,
}
use dogether_contracts.Staking.Solvency.Reach.{fresh, Reaches, instantiated, executed}
use dogether_contracts.Staking.State.{Storage, Config, State, Handled, read_holder, store_holder}
use dogether_contracts.Platform.Types.{default_response, Uint128}
use dogether_contracts.Platform.Std.{add_u64, mul_u128}
use dogether_contracts.Platform.Types.{CanonicalAddr}
use dogether_contracts.Taxation.{compute_tax, deduct_tax}
use dogether_contracts.Staking.Math.{
  decimal_multiplication_in_256, decimal_summation_in_256, decimal_subtraction_in_256,
}
use dogether_contracts.Staking.Claim.{
  create_claim, exceeds_cap, send_claim, partition_claims, claim_tokens,
}
use dogether_contracts.Staking.Global.{raise_index, handle_update_global_index}
use dogether_contracts.Staking.Rewards.{calculate_decimal_rewards, all_rewards}
use dogether_contracts.Staking.Ticket.{store_combinations, ticket_cost, handle_get_ticket}
use dogether_contracts.Staking.Stake.{
  handle_bond, handle_receive, handle_unbound, handle_withdraw_stake,
}

abbrev pub sample_codec : Codec
sample_codec = record { to_binary = λ m. ok "bond"; from_binary = λ b. ok bond_stake }

abbrev pub sample_lottery : String → StdResult LotteryConfig
sample_lottery human = ok (record { price_per_ticket_to_register = 1_000; lottery_counter = 7 })

abbrev pub sample_env : Env
sample_env = record { block = record { height = 50; time = 1_000 }; contract_address = "staking" }

abbrev pub by : String → MessageInfo
by sender = record { sender = sender; funds = [] }

abbrev pub init_msg : InstantiateMsg
init_msg = record {
  cw20_token_addr = "token";
  loterra_addr = "loterra";
  reward_denom = "uusd";
  unbonding_period = 100;
}

abbrev pub after_init : Storage
after_init = record fresh {
  config = some (record {
    admin = 97 ∷ 100 ∷ 109 ∷ 105 ∷ 110 ∷ [];
    cw20_token_addr = 116 ∷ 111 ∷ 107 ∷ 101 ∷ 110 ∷ [];
    loterra_addr = 108 ∷ 111 ∷ 116 ∷ 101 ∷ 114 ∷ 114 ∷ 97 ∷ [];
    reward_denom = "uusd";
    unbonding_period = 100;
  });
  state = some (record { global_index = 0; total_balance = 0; prev_reward_balance = 0 });
}

init_runs :
    instantiate sample_std fresh (by "admin") init_msg
    ≡ ok (after_init, record { messages = []; attributes = [] })
unfolding instantiate
init_runs = refl

pub program : Unit {0}
unfolding instantiate execute handle_update_global_index raise_index handle_get_ticket
    store_combinations ticket_cost handle_bond handle_receive handle_unbound handle_withdraw_stake
    calculate_decimal_rewards all_rewards decimal_multiplication_in_256 decimal_summation_in_256
    decimal_subtraction_in_256 create_claim claim_tokens partition_claims send_claim exceeds_cap
    read_holder store_holder may_load save compute_tax deduct_tax add_u64 mul_u128
program = tt

abbrev pub stored : Handled → Storage
stored (ok (storage, r)) = storage
stored _ = fresh

abbrev pub sent : Handled → Response Payload
sent (ok (storage, r)) = r
sent _ = default_response

-- A call of the sample chain.
unfoldable pub call : Storage → String → ExecuteMsg → Handled
unfolding execute
call storage sender msg =
    execute sample_std sample_codec sample_querier sample_lottery storage sample_env (by sender) msg

abbrev pub bond_of : String → Uint128 → ExecuteMsg
bond_of sender amount =
    ExecuteMsg.receive (record { sender = sender; amount = amount; msg = "bond" })

abbrev pub with_alice : Storage
with_alice = stored (call after_init "token" (bond_of "alice" 300))

abbrev pub with_both : Storage
with_both = stored (call with_alice "token" (bond_of "bob" 100))

abbrev pub rewarded : Storage
rewarded = stored (call with_both "admin" ExecuteMsg.update_global_index)

abbrev pub unbonded : Storage
unbonded = stored (call rewarded "admin" (ExecuteMsg.unbond_stake 40 "bob"))

abbrev pub bought : Storage
bought = stored (call unbonded "bob" (ExecuteMsg.get_ticket "alice" ("012345" ∷ "abcdef" ∷ [])))

bought_state :
    bought.state
    ≡ some (record {
      global_index = 12_500_000_000_000_000_000;
      total_balance = 360;
      prev_reward_balance = 2_998;
    })
unfolding program call
bought_state = refl

pub reached : Reaches sample_std sample_codec bought
unfolding program call
reached =
    executed sample_querier sample_lottery sample_env (by "bob")
      (ExecuteMsg.get_ticket "alice" ("012345" ∷ "abcdef" ∷ []))
      (executed sample_querier sample_lottery sample_env (by "admin")
        (ExecuteMsg.unbond_stake 40 "bob")
        (executed sample_querier sample_lottery sample_env (by "admin")
          ExecuteMsg.update_global_index
          (executed sample_querier sample_lottery sample_env (by "token") (bond_of "bob" 100)
            (executed sample_querier sample_lottery sample_env (by "token") (bond_of "alice" 300)
              (instantiated (by "admin") init_msg refl) refl)
            refl)
          refl)
        refl)
      refl

abbrev pub alice : CanonicalAddr
alice = 97 ∷ 108 ∷ 105 ∷ 99 ∷ 101 ∷ []

abbrev pub bob : CanonicalAddr
bob = 98 ∷ 111 ∷ 98 ∷ []

abbrev pub sample_config : Config
sample_config = record {
  admin = 97 ∷ 100 ∷ 109 ∷ 105 ∷ 110 ∷ [];
  cw20_token_addr = 116 ∷ 111 ∷ 107 ∷ 101 ∷ 110 ∷ [];
  loterra_addr = 108 ∷ 111 ∷ 116 ∷ 101 ∷ 114 ∷ 114 ∷ 97 ∷ [];
  reward_denom = "uusd";
  unbonding_period = 100;
}

-- Every state of the sample chain is backed.
pub reached_rewarded : Reaches sample_std sample_codec rewarded
unfolding program call
reached_rewarded =
    executed sample_querier sample_lottery sample_env (by "admin") ExecuteMsg.update_global_index
      (executed sample_querier sample_lottery sample_env (by "token") (bond_of "bob" 100)
        (executed sample_querier sample_lottery sample_env (by "token") (bond_of "alice" 300)
          (instantiated (by "admin") init_msg refl) refl)
        refl)
      refl

pub reached_unbonded : Reaches sample_std sample_codec unbonded
unfolding program call
reached_unbonded =
    executed sample_querier sample_lottery sample_env (by "admin")
      (ExecuteMsg.unbond_stake 40 "bob") reached_rewarded refl

abbrev pub after_rewards : State
after_rewards = record {
  global_index = 12_500_000_000_000_000_000;
  total_balance = 400;
  prev_reward_balance = 5_000;
}

abbrev pub after_unbond : State
after_unbond = record {
  global_index = 12_500_000_000_000_000_000;
  total_balance = 360;
  prev_reward_balance = 5_000;
}
