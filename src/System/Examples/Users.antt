-- ===== src/System/Examples/Users.antt =====
-- Alice enters the pool, leaves it and is paid on the concrete chain.
use dogether_contracts.Prelude.{
  ◌+◌, ◌-◌, ◌≡◌, ◌++◌, refl, some, none, [], ◌∷◌, arith, list_eq, nat_eq, string_eq,
}
use dogether_contracts.Platform.Sample.{sample_std, sample_querier, sample-IsDocumented}
use dogether_contracts.Platform.Storage.{may_load}
use dogether_contracts.Platform.Types.{MessageInfo, at_height}
use dogether_contracts.Dogether.State as PoolState
use dogether_contracts.Staking.Claim.{or_empty}
use dogether_contracts.Staking.State as StakeState
use dogether_contracts.Staking.State.{read_holder}
use dogether_contracts.System.{Chain, Step, by}
use dogether_contracts.System.Entry.{pools-Step}
use dogether_contracts.System.Deployment.{
  program, pool_call, coins_call, stake_call, sample_codec, sample_lottery, sample_market, at,
  staking_raw, token_raw, alice_raw, pool_raw, loterra_raw, admin_raw, uusd,
}
use dogether_contracts.System.Examples.{chain_1, reached_1}
use dogether_contracts.System.Exit.{un_pools-Step}
use dogether_contracts.System.Moves.{pool_of}
use dogether_contracts.Taxation.Bounds.{tax}
use dogether_contracts.Token.State as CoinsState

-- What the three contracts have stored after alice has pooled.
abbrev pool_state : PoolState.State
pool_state = record {
  staking_address = staking_raw;
  cw20_address = token_raw;
  draw_period = 500;
  next_draw = 900;
  total_ust_pool = 1_000;
}

abbrev pool_config : PoolState.Config
pool_config = record {
  admin = admin_raw;
  denom = "uusd";
  money_market_address = 109 ∷ 111 ∷ 110 ∷ 101 ∷ 121 ∷ [];
  anchor_aust_address = 97 ∷ 117 ∷ 115 ∷ 116 ∷ [];
  code_id_staking = 12;
  label_staking = "staking";
  unbonding_period = 100;
  loterra_address = loterra_raw;
}

abbrev stake_state : StakeState.State
stake_state = record { global_index = 0; total_balance = 1_000; prev_reward_balance = 0 }

abbrev stake_config : StakeState.Config
stake_config = record {
  admin = pool_raw;
  cw20_token_addr = token_raw;
  loterra_addr = loterra_raw;
  reward_denom = "uusd";
  unbonding_period = 100;
}

abbrev token_info : CoinsState.TokenInfo
token_info = record {
  name = "Dogether";
  symbol = "DOG";
  decimals = 6;
  total_supply = 1_000;
  mint = some (record { minter = "pool"; cap = none });
}

abbrev alice_pays : MessageInfo
alice_pays = record { sender = "alice"; funds = uusd 1_001 }

pools-Step_example :
    (c' : Chain) × Step sample_std sample_codec "pool" "token" "staking" chain_1 c'
    × (pool_of c'.dogether.state ≡ 1_000 + (1_001 - tax 1_001 1_000_000_000_000_000 1_000_000))
    × ((read_holder c'.staking alice_raw).balance
        ≡ (read_holder chain_1.staking alice_raw).balance
          + (1_001 - tax 1_001 1_000_000_000_000_000 1_000_000))
unfolding program pool_call coins_call stake_call
pools-Step_example =
    pools-Step sample_std sample-IsDocumented sample_codec "pool" "token" "staking" chain_1
      pool_state pool_config stake_state stake_config token_info alice_pays alice_raw sample_querier
      sample_market sample_lottery (at 50) "money" "bond" 1_000_000_000_000_000 1_000_000 1_001
      reached_1 refl refl refl refl refl refl refl refl refl refl refl refl refl refl refl refl
      (omega arith) (omega arith) (omega arith) (omega arith) (omega arith) (omega arith)
      (omega arith) (omega arith) (omega arith) (omega arith)

un_pools-Step_example :
    (c' : Chain) × Step sample_std sample_codec "pool" "token" "staking" chain_1 c'
    × (c'.dogether ≡ chain_1.dogether)
    × ((read_holder c'.staking alice_raw).balance + 400
        ≡ (read_holder chain_1.staking alice_raw).balance)
    × (may_load alice_raw c'.staking.claims
        ≡ some (
            or_empty (may_load alice_raw chain_1.staking.claims)
            ++ record { amount = 400; release_at = at_height 150 } ∷ []))
unfolding program pool_call coins_call stake_call
un_pools-Step_example =
    un_pools-Step sample_std sample-IsDocumented sample_codec "pool" "token" "staking" chain_1
      pool_state pool_config stake_state stake_config (by "alice") alice_raw sample_querier
      sample_market sample_lottery (at 50) 400 reached_1 refl refl refl refl refl refl refl
      (omega arith) (omega arith) (omega arith) (omega arith) (omega arith) (omega arith)
