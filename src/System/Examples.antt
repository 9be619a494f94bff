-- ===== src/System/Examples.antt =====
-- The three contracts on a concrete chain: the deployment, alice pools 1001 uusd, unpools 400 of
-- the 1000 that are left after the tax, and claims them when the unbonding period is over.
mod Users
use dogether_contracts.Prelude.{refl, none, [], ◌∷◌}
use dogether_contracts.Platform.Sample.{sample_std, sample_querier, sample-IsDocumented}
use dogether_contracts.Platform.Types.{default_response}
use dogether_contracts.Dogether.Contract as Pool
use dogether_contracts.Dogether.Msg as PoolMsg
use dogether_contracts.Dogether.State as PoolState
use dogether_contracts.Staking.Msg as StakeMsg
use dogether_contracts.System.{Chain, by, pools, un_pools, claims}
use dogether_contracts.System.Lockstep.{IsMatched}
use dogether_contracts.System.Reach.{Reaches, deployed, stepped, Reaches-IsMatched}
use dogether_contracts.System.Deployment.{
  program, sample_codec, sample_lottery, sample_market, at, pool_msg, token_msg, staking_msg,
  token_raw, staking_raw, admin_raw, pool_with, pool_sent, stake_stored, stake_sent, coins_stored,
  coins_sent, token_0, staking_0, made, uusd, pool_call, coins_call, stake_call, reply_call,
  bonding, hook, staking, unbonding, withdrawal, burning, wasm_event,
}

pool_0 :
    Reaches sample_std sample_codec "pool" "token" "staking" (record {
      dogether = pool_with staking_raw token_raw 0;
      token = token_0;
      staking = staking_0;
    })
unfolding program reply_call
pool_0 =
    deployed {d0 = pool_with admin_raw admin_raw 0} {d1 = pool_with admin_raw token_raw 0}
      {r0 = pool_sent (
        Pool.instantiate sample_std (record { config = none; state = none }) (at 50) (by "admin")
          pool_msg)}
      {r1 = pool_sent (reply_call (pool_with admin_raw admin_raw 0) 0 (made "token"))}
      {r2 = pool_sent (reply_call (pool_with admin_raw token_raw 0) 1 (made "staking"))}
      {r3 = default_response} {r4 = default_response} sample_querier sample_market (at 50) (at 50)
      (at 50) (by "admin") pool_msg (made "token") (made "staking") token_raw staking_raw token_msg
      staking_msg refl refl tt refl refl refl refl refl refl refl

abbrev pub chain_1 : Chain
chain_1 = record {
  dogether = pool_with staking_raw token_raw 1_000;
  token = coins_stored bonding;
  staking = stake_stored staking;
}

abbrev pub pooling : PoolState.Handled
pooling = pool_call 0 (record { sender = "alice"; funds = uusd 1_001 }) PoolMsg.ExecuteMsg.pool

pub reached_1 : Reaches sample_std sample_codec "pool" "token" "staking" chain_1
unfolding program pool_call coins_call stake_call
reached_1 = stepped pool_0 (
    pools {r = pool_sent pooling} {r2 = coins_sent bonding} {r3 = stake_sent staking} sample_querier
      sample_querier sample_market sample_lottery (at 50) (at 50)
      (record { sender = "alice"; funds = uusd 1_001 }) "money" (uusd 1_000) "staking" 1_000 "bond"
      "alice" hook refl refl refl refl refl)

abbrev pub chain_2 : Chain
chain_2 = record {
  dogether = pool_with staking_raw token_raw 1_000;
  token = coins_stored bonding;
  staking = stake_stored unbonding;
}

pub reached_2 : Reaches sample_std sample_codec "pool" "token" "staking" chain_2
unfolding program pool_call coins_call stake_call
reached_2 = stepped reached_1 (
    un_pools {r = pool_sent (pool_call 1_000 (by "alice") (PoolMsg.ExecuteMsg.un_pool 400))}
      {r2 = stake_sent unbonding} sample_querier sample_querier sample_market sample_lottery (at 50)
      (at 50) (by "alice") 400 (StakeMsg.ExecuteMsg.unbond_stake 400 "alice") refl refl refl)

abbrev pub chain_3 : Chain
chain_3 = record {
  dogether = pool_with staking_raw token_raw 600;
  token = coins_stored burning;
  staking = stake_stored withdrawal;
}

reached_3 : Reaches sample_std sample_codec "pool" "token" "staking" chain_3
unfolding program pool_call coins_call stake_call reply_call
reached_3 = stepped reached_2 (
    claims {d = pool_with staking_raw token_raw 1_000}
      {r = pool_sent (pool_call 1_000 (by "alice") PoolMsg.ExecuteMsg.claim_un_pool)}
      {r4 = pool_sent (reply_call (pool_with staking_raw token_raw 1_000) 2 (wasm_event ∷ []))}
      {r2 = stake_sent withdrawal} {r3 = coins_sent burning} sample_querier sample_querier
      sample_querier sample_market sample_market sample_lottery (at 50) (at 150) (at 50)
      (by "alice") (StakeMsg.ExecuteMsg.withdraw_stake none "alice") 400 (wasm_event ∷ [])
      wasm_event refl refl refl refl refl refl refl refl)

Reaches-IsMatched_example : IsMatched "staking" chain_3
Reaches-IsMatched_example =
    Reaches-IsMatched sample_std sample-IsDocumented sample_codec "pool" "token" "staking" reached_3
