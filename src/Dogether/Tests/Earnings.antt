-- ===== src/Dogether/Tests/Earnings.antt =====
-- The unit tests of `try_redeem_earning` of src/contract.rs.
use dogether_contracts.Prelude.{◌+◌, ◌≡◌, ◌<◌, refl, some, List, [], ◌∷◌, err, arith}
use dogether_contracts.Platform.Sample.{sample_std}
use dogether_contracts.Platform.Std.{add_u64}
use dogether_contracts.Platform.Types.{message, wasm_execute, Coin}
use dogether_contracts.Dogether.Contract.{instantiate}
use dogether_contracts.Dogether.Math.{decimal_multiplication_in_256, decimal_subtraction_in_256}
use dogether_contracts.Dogether.Msg.{
  do_not_send_funds, retry_redeem_later, redeem_stable, send, staking,
}
use dogether_contracts.Dogether.Redeem.{interest_accrued, to_aust, try_redeem_earning}
use dogether_contracts.Dogether.Reply.{
  find_event, find_value, contract_address, cw20_instance_reply, staking_instance_reply, reply,
}
use dogether_contracts.Dogether.State.{Storage, Handled}
use dogether_contracts.Dogether.Tests.{
  mock_querier, mock_market, mock_env, mock_info, bank_of, coins, stored, loaded, pooled, messages,
  default_init, set_up,
}
use dogether_contracts.Staking.Msg as Staking
use dogether_contracts.Taxation.{compute_tax, deduct_tax}

program : Unit {0}
unfolding instantiate find_event find_value contract_address cw20_instance_reply
    staking_instance_reply reply default_init set_up interest_accrued to_aust try_redeem_earning
    decimal_multiplication_in_256 decimal_subtraction_in_256 compute_tax deduct_tax add_u64
program = tt

abbrev before : Storage
before = stored (set_up 1 "staking" (stored (set_up 0 "cw20" (pooled (stored default_init)))))

abbrev redeem : Storage → List Coin → Handled
redeem storage funds =
    try_redeem_earning sample_std (mock_querier (bank_of 7_500_000_000)) mock_market storage
      mock_env (mock_info "addr0000" funds)

abbrev after : Storage
after = stored (redeem before [])

abbrev RedeemEarning : Type 0
RedeemEarning =
    (redeem before (coins 100 "uusd") ≡ err do_not_send_funds)
    × ((loaded before).total_ust_pool ≡ (loaded after).total_ust_pool)
    × ((loaded before).next_draw < (loaded after).next_draw)
    × ((loaded after).next_draw ≡ (loaded before).next_draw + (loaded after).draw_period)
    × ((loaded before).draw_period ≡ (loaded after).draw_period)
    × ((loaded before).staking_address ≡ (loaded after).staking_address)
    × ((loaded before).cw20_address ≡ (loaded after).cw20_address)
    × (messages (redeem before [])
        ≡ some (
            message (wasm_execute "aust" (send "money" 7_142_857_142 redeem_stable) [])
            ∷ message (
                wasm_execute "staking" (staking Staking.ExecuteMsg.update_global_index)
                  (coins 14_998_000_000 "uusd"))
            ∷ []))

redeem_earning_passes : RedeemEarning
unfolding program
redeem_earning_passes = (refl, refl, omega arith, refl, refl, refl, refl, refl)

-- The next draw is 10,000,000 seconds away.
abbrev early : Storage
early =
    let storage = stored default_init in
    record storage {
      state = some (record (loaded storage) { next_draw = mock_env.block.time + 10_000_000 });
    }

abbrev RedeemEarningStillInProgress : Type 0
RedeemEarningStillInProgress = redeem early [] ≡ err (retry_redeem_later 1_581_797_419)

redeem_earning_still_in_progress_passes : RedeemEarningStillInProgress
unfolding program
redeem_earning_still_in_progress_passes = refl
