-- ===== src/Dogether/Tests/Replies.antt =====
-- The unit tests of `reply` of src/contract.rs.
use dogether_contracts.Prelude.{◌≡◌, ◌≢◌, refl, some, [], ◌∷◌, ok, arith, as_bytes, parse_u128}
use dogether_contracts.Platform.Numerals.{print, print_digits}
use dogether_contracts.Platform.Sample.{sample_std}
use dogether_contracts.Platform.Types.{
  attribute, bank_send, message, wasm_execute, wasm_instantiate, reply_on_success,
}
use dogether_contracts.Dogether.Contract.{instantiate}
use dogether_contracts.Dogether.Msg.{redeem_stable, send, instantiate_staking, success}
use dogether_contracts.Dogether.Redeem.{to_aust}
use dogether_contracts.Dogether.Reply.{
  find_event, find_value, contract_address, cw20_instance_reply, staking_instance_reply,
  withdraw_reply, reply,
}
use dogether_contracts.Dogether.State.{Storage, Handled}
use dogether_contracts.Dogether.Tests.{
  mock_querier, mock_market, mock_env, bank_of, coins, stored, loaded, pooled, response,
  default_init, set_up,
}
use dogether_contracts.Taxation.{compute_tax, deduct_tax}

program : Unit {0}
unfolding instantiate find_event find_value contract_address cw20_instance_reply
    staking_instance_reply withdraw_reply reply default_init set_up to_aust compute_tax deduct_tax
    parse_u128 as_bytes print print_digits
program = tt

-- The states before and after the replies that name the new contracts.
abbrev before : Storage
before = stored default_init

abbrev ReplyCw20Instantiated : Type 0
ReplyCw20Instantiated =
    let res = set_up 0 "cw20" before in
    (ok (loaded (stored res)).cw20_address ≡ sample_std.addr_canonicalize "cw20")
    × ((loaded before).cw20_address ≢ (loaded (stored res)).cw20_address)
    × (response res
        ≡ some (record {
          messages =
              record {
                msg =
                    wasm_instantiate (some "cosmos2contract") 1
                      (instantiate_staking (record {
                        cw20_token_addr = "cw20";
                        loterra_addr = "loterra";
                        reward_denom = "uusd";
                        unbonding_period = 100_000;
                      }))
                      [] "";
                reply_on = reply_on_success 1;
              }
              ∷ [];
          attributes =
              attribute "cw20-address" "cw20" ∷ attribute "cw20-instantiate" "success" ∷ [];
        }))

reply_cw20_instantiated_passes : ReplyCw20Instantiated
unfolding program
reply_cw20_instantiated_passes = (refl, (λ e. ground arith), refl)

abbrev ReplyStakingInstantiated : Type 0
ReplyStakingInstantiated =
    let res = set_up 1 "staking" before in
    (ok (loaded (stored res)).staking_address ≡ sample_std.addr_canonicalize "staking")
    × ((loaded before).staking_address ≢ (loaded (stored res)).staking_address)
    × (response res
        ≡ some (record {
          messages = [];
          attributes =
              attribute "staking-address" "staking"
              ∷ attribute "staking-instantiate" "success"
              ∷ [];
        }))

reply_staking_instantiated_passes : ReplyStakingInstantiated
unfolding program
reply_staking_instantiated_passes = (refl, (λ e. ground arith), refl)

abbrev withdrawal : Handled
withdrawal = reply sample_std (mock_querier (bank_of 0)) mock_market (pooled before) mock_env 2 (
    success (
      record {
        ty = "wasm";
        attributes = attribute "withdraw" "100000000000" ∷ attribute "recipient" "addr0008" ∷ [];
      }
      ∷ []))

abbrev ReplyWithdrawal : Type 0
ReplyWithdrawal =
    response withdrawal
    ≡ some (record {
      messages =
          message (wasm_execute "aust" (send "money" 95_238_095_238 redeem_stable) [])
          ∷ message (bank_send "addr0008" (coins 99_998_000_000 "uusd"))
          ∷ [];
      attributes = attribute "withdraw" "99998000000" ∷ attribute "status" "success" ∷ [];
    })

reply_withdrawal_passes : ReplyWithdrawal
unfolding program
reply_withdrawal_passes = refl
