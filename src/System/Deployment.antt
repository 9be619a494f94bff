-- ===== src/System/Deployment.antt =====
-- The three contracts deployed on a sample chain: the messages that made them, the storages they
-- start from, and calls on them.
use dogether_contracts.Prelude.{ℕ, String, some, none, List, [], ◌∷◌, ok, parse_u128, as_bytes}
use dogether_contracts.Platform.Numerals.{print, print_digits}
use dogether_contracts.Prelude.{parse_bytes, parse_unsigned, parse_digits}
use dogether_contracts.Platform.Sample.{sample_std, sample_querier}
use dogether_contracts.Platform.Std.{StdResult, add_u64, mul_u128}
use dogether_contracts.Platform.Storage.{may_load, save}
use dogether_contracts.Platform.Types.{
  CanonicalAddr, Coin, Env, MessageInfo, Response, Cw20ReceiveMsg, attribute, default_response,
}
use dogether_contracts.Dogether.Contract as Pool
use dogether_contracts.Dogether.Math as PoolMath
use dogether_contracts.Dogether.Msg as PoolMsg
use dogether_contracts.Dogether.Pool.{sent_funds, try_pool, try_un_pool, try_claim_un_pool}
use dogether_contracts.Dogether.Redeem.{to_aust}
use dogether_contracts.Dogether.Reply.{
  find_event, find_value, contract_address, cw20_instance_reply, staking_instance_reply,
  withdraw_reply, reply,
}
use dogether_contracts.Dogether.State as PoolState
use dogether_contracts.Staking.Claim.{
  create_claim, exceeds_cap, send_claim, partition_claims, claim_tokens,
}
use dogether_contracts.Staking.Contract as Stake
use dogether_contracts.Staking.Math as StakeMath
use dogether_contracts.Staking.Msg as StakeMsg
use dogether_contracts.Staking.Rewards.{calculate_decimal_rewards, all_rewards}
use dogether_contracts.Staking.Solvency.Reach as StakeReach
use dogether_contracts.Staking.Stake.{
  handle_bond, handle_receive, handle_unbound, handle_withdraw_stake,
}
use dogether_contracts.Staking.State as StakeState
use dogether_contracts.System.{by}
use dogether_contracts.Taxation.{compute_tax, deduct_tax}
use dogether_contracts.Token.Contract as Coins
use dogether_contracts.Token.Msg as CoinsMsg
use dogether_contracts.Token.State as CoinsState
use dogether_contracts.Token.Supply.Reach as CoinsReach

unfoldable pub program : Unit {0}
unfolding Pool.instantiate Pool.execute PoolMath.decimal_multiplication_in_256
    PoolMath.decimal_subtraction_in_256 sent_funds try_pool try_un_pool try_claim_un_pool to_aust
    find_event find_value contract_address cw20_instance_reply staking_instance_reply withdraw_reply
    reply create_claim exceeds_cap send_claim partition_claims claim_tokens Stake.instantiate
    Stake.execute StakeMath.decimal_multiplication_in_256 StakeMath.decimal_summation_in_256
    StakeMath.decimal_subtraction_in_256 calculate_decimal_rewards all_rewards handle_bond
    handle_receive handle_unbound handle_withdraw_stake StakeState.read_holder
    StakeState.store_holder compute_tax deduct_tax Coins.create_accounts Coins.instantiate
    Coins.execute Coins.execute_bond Coins.execute_burn CoinsMsg.validate CoinsMsg.is_valid_name
    CoinsMsg.is_valid_symbol CoinsMsg.symbol_loop CoinsState.get_cap may_load save add_u64 mul_u128
    as_bytes parse_u128 parse_bytes parse_unsigned parse_digits print print_digits
program = tt

abbrev pub sample_codec : StakeMsg.Codec
sample_codec = record {
  to_binary = λ m. ok "bond";
  from_binary = λ b. ok StakeMsg.ReceiveMsg.bond_stake;
}

abbrev pub sample_lottery : String → StdResult StakeMsg.LotteryConfig
sample_lottery human = ok (record { price_per_ticket_to_register = 1_000; lottery_counter = 7 })

abbrev pub sample_market : PoolMsg.Market
sample_market = record {
  epoch = λ addr. ok (record { exchange_rate = 1_200_000_000_000_000_000; aterra_supply = 1 });
  aust_balance = λ aust holder. ok 10_000;
}

abbrev pub at : ℕ → Env
at height = record { block = record { height = height; time = 1_000 }; contract_address = "pool" }

abbrev pub pool_msg : PoolMsg.InstantiateMsg
pool_msg = record {
  code_id_cw20 = 11;
  message_cw20 = "token";
  label_cw20 = "token";
  code_id_staking = 12;
  label_staking = "staking";
  money_market_address = "money";
  anchor_aust_address = "aust";
  next_draw = 900;
  draw_period = 500;
  unbonding_period = 100;
  loterra_address = "loterra";
}

abbrev pub token_msg : CoinsMsg.InstantiateMsg
token_msg = record { name = "Dogether"; symbol = "DOG"; decimals = 6; initial_balances = [] }

abbrev pub staking_msg : StakeMsg.InstantiateMsg
staking_msg = record {
  cw20_token_addr = "token";
  loterra_addr = "loterra";
  reward_denom = "uusd";
  unbonding_period = 100;
}

abbrev pub token_raw : CanonicalAddr
token_raw = 116 ∷ 111 ∷ 107 ∷ 101 ∷ 110 ∷ []

abbrev pub staking_raw : CanonicalAddr
staking_raw = 115 ∷ 116 ∷ 97 ∷ 107 ∷ 105 ∷ 110 ∷ 103 ∷ []

abbrev pub pool_raw : CanonicalAddr
pool_raw = 112 ∷ 111 ∷ 111 ∷ 108 ∷ []

abbrev pub admin_raw : CanonicalAddr
admin_raw = 97 ∷ 100 ∷ 109 ∷ 105 ∷ 110 ∷ []

abbrev pub alice_raw : CanonicalAddr
alice_raw = 97 ∷ 108 ∷ 105 ∷ 99 ∷ 101 ∷ []

abbrev pub loterra_raw : CanonicalAddr
loterra_raw = 108 ∷ 111 ∷ 116 ∷ 101 ∷ 114 ∷ 114 ∷ 97 ∷ []

-- The pool with the addresses that it knows and an amount in it.
abbrev pub pool_with : CanonicalAddr → CanonicalAddr → ℕ → PoolState.Storage
pool_with staking token total = record {
  config = some (record {
    admin = admin_raw;
    denom = "uusd";
    money_market_address = 109 ∷ 111 ∷ 110 ∷ 101 ∷ 121 ∷ [];
    anchor_aust_address = 97 ∷ 117 ∷ 115 ∷ 116 ∷ [];
    code_id_staking = 12;
    label_staking = "staking";
    unbonding_period = 100;
    loterra_address = loterra_raw;
  });
  state = some (record {
    staking_address = staking;
    cw20_address = token;
    draw_period = 500;
    next_draw = 900;
    total_ust_pool = total;
  });
}

abbrev pub pool_sent : PoolState.Handled → Response PoolMsg.Payload
pool_sent (ok (storage, r)) = r
pool_sent _ = default_response

abbrev pub stake_stored : StakeState.Handled → StakeState.Storage
stake_stored (ok (storage, r)) = storage
stake_stored _ = StakeReach.fresh

abbrev pub stake_sent : StakeState.Handled → Response StakeMsg.Payload
stake_sent (ok (storage, r)) = r
stake_sent _ = default_response

abbrev pub coins_stored : Coins.Handled → CoinsState.Storage
coins_stored (ok (storage, r)) = storage
coins_stored _ = CoinsReach.fresh

abbrev pub coins_sent : Coins.Handled → Response CoinsMsg.Payload
coins_sent (ok (storage, r)) = r
coins_sent _ = default_response

abbrev pub token_0 : CoinsState.Storage
token_0 = record {
  contract_info = some ("crates.io:cw20-base", "0.9.1");
  token_info = some (record {
    name = "Dogether";
    symbol = "DOG";
    decimals = 6;
    total_supply = 0;
    mint = some (record { minter = "pool"; cap = none });
  });
  balances = [];
}

abbrev pub staking_0 : StakeState.Storage
staking_0 = record {
  config = some (record {
    admin = pool_raw;
    cw20_token_addr = token_raw;
    loterra_addr = loterra_raw;
    reward_denom = "uusd";
    unbonding_period = 100;
  });
  state = some (record { global_index = 0; total_balance = 0; prev_reward_balance = 0 });
  holders = [];
  claims = [];
  combinations = [];
}

abbrev pub made : String → List PoolMsg.Event
made address =
    record { ty = "instantiate_contract"; attributes = attribute "contract_address" address ∷ [] }
    ∷ []

abbrev pub uusd : ℕ → List Coin
uusd amount = record { denom = "uusd"; amount = amount } ∷ []

unfoldable pub pool_call : ℕ → MessageInfo → PoolMsg.ExecuteMsg → PoolState.Handled
unfolding Pool.execute
pool_call total info msg =
    Pool.execute sample_std sample_querier sample_codec sample_market
      (pool_with staking_raw token_raw total) (at 50) info msg

unfoldable pub coins_call : CoinsState.Storage → String → CoinsMsg.ExecuteMsg → Coins.Handled
unfolding Coins.execute
coins_call storage sender msg = Coins.execute sample_std storage (by sender) msg

unfoldable pub stake_call :
    StakeState.Storage → ℕ → String → StakeMsg.ExecuteMsg → StakeState.Handled
unfolding Stake.execute
stake_call storage height sender msg =
    Stake.execute sample_std sample_codec sample_querier sample_lottery storage (at height)
      (by sender) msg

unfoldable pub reply_call : PoolState.Storage → ℕ → List PoolMsg.Event → PoolState.Handled
unfolding reply
reply_call storage id events =
    reply sample_std sample_querier sample_market storage (at 50) id
      (PoolMsg.ContractResult.success events)

abbrev pub bonding : Coins.Handled
bonding = coins_call token_0 "pool" (CoinsMsg.ExecuteMsg.bond "staking" 1_000 "bond" "alice")

abbrev pub hook : Cw20ReceiveMsg
hook = record { sender = "alice"; amount = 1_000; msg = "bond" }

abbrev pub staking : StakeState.Handled
staking = stake_call staking_0 50 "token" (StakeMsg.ExecuteMsg.receive hook)

abbrev pub unbonding : StakeState.Handled
unbonding =
    stake_call (stake_stored staking) 50 "pool" (StakeMsg.ExecuteMsg.unbond_stake 400 "alice")

abbrev pub withdrawal : StakeState.Handled
withdrawal =
    stake_call (stake_stored unbonding) 150 "pool" (StakeMsg.ExecuteMsg.withdraw_stake none "alice")

abbrev pub burning : Coins.Handled
burning = coins_call (coins_stored bonding) "staking" (CoinsMsg.ExecuteMsg.burn 400)

abbrev pub wasm_event : PoolMsg.Event
wasm_event = record {
  ty = "wasm";
  attributes = attribute "_contract_address" "staking" ∷ (stake_sent withdrawal).attributes;
}
