-- ===== src/Dogether/Examples.antt =====
-- The pool on a concrete chain: 10,000 aUST at a rate of 1.2 over a pool of 10,000, a deposit, a
-- redemption and a refusal.
mod Replies
use dogether_contracts.Prelude.{
  ℕ, ◌≡◌, ◌↔◌, err, refl, String, some, none, List, [], ◌∷◌, ok, arith, parse_u128, as_bytes,
}
use dogether_contracts.Platform.Types.{
  Addr, CanonicalAddr, Uint128, Coin, Env, MessageInfo, Response, default_response, Binary,
}
use dogether_contracts.Platform.Std.{add_u64}
use dogether_contracts.Platform.Sample.{sample_std, sample_querier, sample-IsDocumented}
use dogether_contracts.Dogether.Contract.{instantiate, execute}
use dogether_contracts.Dogether.Math.{decimal_multiplication_in_256, decimal_subtraction_in_256}
use dogether_contracts.Dogether.Msg.{
  ExecuteMsg, Payload, Market, EpochStateResponse, retry_redeem_later,
}
use dogether_contracts.Dogether.Pool.{sent_funds, try_pool, try_un_pool, try_claim_un_pool}
use dogether_contracts.Dogether.Pool.Effects.{HasPooled, Deposits, try_pool_lem}
use dogether_contracts.Dogether.Redeem.{interest_accrued, to_aust, try_redeem_earning}
use dogether_contracts.Dogether.Redeem.Interest.{HasRedeemed, try_redeem_earning-HasRedeemed}
use dogether_contracts.Dogether.Redeem.Total.{try_redeem_earning_total}
use dogether_contracts.Dogether.Refusals.{IsRefused, execute-IsRefused}
use dogether_contracts.Dogether.Reply.{
  find_event, find_value, contract_address, cw20_instance_reply, staking_instance_reply,
  withdraw_reply, reply,
}
use dogether_contracts.Dogether.State.{Config, State, Storage, Handled}
use dogether_contracts.Staking.Msg.{Codec, bond_stake}
use dogether_contracts.Taxation.{compute_tax, deduct_tax}

pub program : Unit {0}
unfolding instantiate execute try_pool try_un_pool try_claim_un_pool sent_funds interest_accrued
    to_aust try_redeem_earning decimal_multiplication_in_256 decimal_subtraction_in_256 find_event
    find_value contract_address cw20_instance_reply staking_instance_reply withdraw_reply reply
    compute_tax deduct_tax add_u64 parse_u128 as_bytes
program = tt

abbrev sample_codec : Codec
sample_codec = record { to_binary = λ m. ok "bond"; from_binary = λ b. ok bond_stake }

abbrev pub sample_market : Market
sample_market = record {
  epoch = λ addr. ok (record { exchange_rate = 1_200_000_000_000_000_000; aterra_supply = 1 });
  aust_balance = λ aust holder. ok 10_000;
}

abbrev pub sample_env : Env
sample_env = record { block = record { height = 50; time = 1_000 }; contract_address = "pool" }

abbrev admin : CanonicalAddr
admin = 97 ∷ 100 ∷ 109 ∷ 105 ∷ 110 ∷ []

abbrev pub token : CanonicalAddr
token = 116 ∷ 111 ∷ 107 ∷ 101 ∷ 110 ∷ []

abbrev pub staking : CanonicalAddr
staking = 115 ∷ 116 ∷ 97 ∷ 107 ∷ 105 ∷ 110 ∷ 103 ∷ []

abbrev pub sample_config : Config
sample_config = record {
  admin = admin;
  denom = "uusd";
  money_market_address = 109 ∷ 111 ∷ 110 ∷ 101 ∷ 121 ∷ [];
  anchor_aust_address = 97 ∷ 117 ∷ 115 ∷ 116 ∷ [];
  code_id_staking = 12;
  label_staking = "staking";
  unbonding_period = 100;
  loterra_address = 108 ∷ 111 ∷ 116 ∷ 101 ∷ 114 ∷ 114 ∷ 97 ∷ [];
}

abbrev pub state_of : CanonicalAddr → CanonicalAddr → ℕ → Uint128 → State
state_of staking_address cw20_address next_draw total = record {
  staking_address = staking_address;
  cw20_address = cw20_address;
  draw_period = 500;
  next_draw = next_draw;
  total_ust_pool = total;
}

abbrev pub running : Storage
running = record { config = some sample_config; state = some (state_of staking token 900 10_000) }

abbrev pub stored : Handled → Storage
stored (ok (storage, r)) = storage
stored _ = record { config = none; state = none }

abbrev pub sent : Handled → Response Payload
sent (ok (storage, r)) = r
sent _ = default_response

abbrev pub by : String → List Coin → MessageInfo
by sender funds = record { sender = sender; funds = funds }

call : String → List Coin → ExecuteMsg → Handled
unfolding execute
call sender funds msg =
    execute sample_std sample_querier sample_codec sample_market running sample_env
      (by sender funds) msg

abbrev uusd : Uint128 → Coin
uusd amount = record { denom = "uusd"; amount = amount }

abbrev deposit : Handled
deposit = call "alice" (uusd 1_001 ∷ []) ExecuteMsg.pool

try_pool_lem_example :
    (coin : Coin) × (left : Coin) × HasPooled sample_std sample_querier sample_codec running
      (state_of staking token 900 10_000)
      sample_config
      (by "alice" (uusd 1_001 ∷ []))
      (stored deposit)
      coin
      left
    × (money_market : Addr) × (cw20 : Addr) × (staking_addr : Addr) × (msg : Binary) × Deposits
        sample_std sample_querier sample_codec running
        (state_of staking token 900 10_000)
        sample_config
        (by "alice" (uusd 1_001 ∷ []))
        (sent deposit)
        left
        money_market
        cw20
        staking_addr
        msg
unfolding program call
try_pool_lem_example =
    try_pool_lem sample_std sample-IsDocumented sample_querier sample_codec running
      (state_of staking token 900 10_000) sample_config refl refl (by "alice" (uusd 1_001 ∷ []))
      {storage' = stored deposit} {r = sent deposit} refl

abbrev redemption : Handled
redemption = call "bob" [] ExecuteMsg.redeem_earning

-- 1666 of the aUST are worth at most the interest of 2000.
try_redeem_earning-HasRedeemed_example :
    (money_market : Addr) × (aust : Addr) × (res : EpochStateResponse) × (aust_balance : Uint128)
    × (sample_std.addr_humanize sample_config.money_market_address ≡ ok money_market)
    × (sample_std.addr_humanize sample_config.anchor_aust_address ≡ ok aust)
    × (sample_market.epoch money_market ≡ ok res)
    × (sample_market.aust_balance aust sample_env.contract_address ≡ ok aust_balance)
    × HasRedeemed running
        (state_of staking token 900 10_000)
        sample_env
        (by "bob" [])
        aust_balance
        res.exchange_rate
        (stored redemption)
        (sent redemption)
unfolding program call
try_redeem_earning-HasRedeemed_example =
    try_redeem_earning-HasRedeemed sample_std sample-IsDocumented sample_querier sample_market
      running (state_of staking token 900 10_000) sample_config sample_env (by "bob" []) refl refl
      {storage' = stored redemption} {r = sent redemption} refl

abbrev early_env : Env
early_env = record { block = record { height = 50; time = 800 }; contract_address = "pool" }

-- The draw is due, and the pool is covered.
try_redeem_earning_total_example :
    (storage' : Storage) × (r : Response Payload) × (try_redeem_earning sample_std sample_querier
        sample_market running sample_env
        (by "bob" [])
      ≡ ok (storage', r))
unfolding program call
try_redeem_earning_total_example =
    try_redeem_earning_total sample_std sample-IsDocumented sample_querier sample_market running
      (state_of staking token 900 10_000) sample_config sample_env (by "bob" []) refl refl "money"
      "aust" "staking" (record { exchange_rate = 1_200_000_000_000_000_000; aterra_supply = 1 })
      10_000 (uusd 5_000) 1_000_000_000_000_000 1_000_000 refl (omega arith) (omega arith) refl refl
      refl refl refl refl refl refl (omega arith) (omega arith) (omega arith) (omega arith)
      (omega arith) (omega arith) (omega arith)

-- A redemption before the draw is due is refused.
execute-IsRefused_example :
    (execute sample_std sample_querier sample_codec sample_market running early_env
        (by "bob" [])
        ExecuteMsg.redeem_earning
      ≡ err (retry_redeem_later 900))
    ↔ IsRefused
        (state_of staking token 900 10_000)
        sample_config
        early_env
        (by "bob" [])
        ExecuteMsg.redeem_earning
        (retry_redeem_later 900)
execute-IsRefused_example =
    execute-IsRefused sample_std sample_querier running (state_of staking token 900 10_000)
      sample_config refl refl early_env (by "bob" []) sample_codec sample_market
      ExecuteMsg.redeem_earning (retry_redeem_later 900) tt
