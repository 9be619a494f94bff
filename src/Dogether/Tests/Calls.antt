-- ===== src/Dogether/Tests/Calls.antt =====
-- The unit tests of the instantiation and of the messages of src/contract.rs.
use dogether_contracts.Prelude.{ℕ, ◌≡◌, refl, none, some, [], ◌∷◌, err}
use dogether_contracts.Platform.Sample.{sample_std}
use dogether_contracts.Platform.Types.{message, wasm_execute, reply_on_success}
use dogether_contracts.Dogether.Contract.{instantiate, execute}
use dogether_contracts.Dogether.Msg.{
  ExecuteMsg, empty_funds, empty_amount, anchor, deposit_stable, bond, staking,
}
use dogether_contracts.Dogether.Pool.{sent_funds, try_pool, try_un_pool, try_claim_un_pool}
use dogether_contracts.Dogether.Reply.{
  find_event, find_value, contract_address, cw20_instance_reply, staking_instance_reply, reply,
}
use dogether_contracts.Dogether.State.{Storage, Handled}
use dogether_contracts.Dogether.Tests.{
  mock_querier, mock_market, mock_codec, mock_env, mock_info, bank_of, coins, stored, response,
  messages, sent_count, init_msg, empty, default_init, set_up,
}
use dogether_contracts.Staking.Msg as Staking
use dogether_contracts.Taxation.{compute_tax, deduct_tax}

program : Unit {0}
unfolding instantiate execute sent_funds try_pool try_un_pool try_claim_un_pool find_event
    find_value contract_address cw20_instance_reply staking_instance_reply reply default_init set_up
    compute_tax deduct_tax
program = tt

abbrev initialized : Handled
initialized =
    instantiate sample_std empty mock_env (mock_info "addr0000" (coins 1_000 "uusd"))
      (init_msg 100 1_000)

abbrev ProperInitialization : Type 0
ProperInitialization = sent_count initialized ≡ some 1

proper_initialization_passes : ProperInitialization
unfolding program
proper_initialization_passes = refl

-- Both replies have come in.
abbrev ready : Storage
ready = stored (set_up 1 "staking" (stored (set_up 0 "cw20" (stored default_init))))

abbrev PoolTokens : Type 0
PoolTokens =
    (try_pool sample_std (mock_querier (bank_of 0)) mock_codec (stored default_init)
        (mock_info "addr0000" [])
      ≡ err empty_funds)
    × (messages (
          try_pool sample_std (mock_querier (bank_of 0)) mock_codec ready
            (mock_info "addr0000" (coins 100 "uusd")))
        ≡ some (
            message (wasm_execute "money" (anchor deposit_stable) (coins 99 "uusd"))
            ∷ message (wasm_execute "cw20" (bond "staking" 99 "bond" "addr0000") [])
            ∷ []))

pool_tokens_passes : PoolTokens
unfolding program
pool_tokens_passes = (refl, refl)

-- The reply of the staking contract has come in.
abbrev with_staking : Storage
with_staking = stored (set_up 1 "staking" (stored default_init))

abbrev un_pool_call : ℕ → Handled
un_pool_call amount =
    execute sample_std (mock_querier (bank_of 0)) mock_codec mock_market with_staking mock_env
      (mock_info "addr0000" []) (ExecuteMsg.un_pool amount)

abbrev UnPool : Type 0
UnPool =
    (messages (un_pool_call 1_000)
      ≡ some (
          message
            (wasm_execute "staking" (staking (Staking.ExecuteMsg.unbond_stake 1_000 "addr0000")) [])
          ∷ []))
    × (un_pool_call 0 ≡ err empty_amount)

un_pool_passes : UnPool
unfolding program
un_pool_passes = (refl, refl)

abbrev ClaimUnPool : Type 0
ClaimUnPool =
    response (try_claim_un_pool sample_std with_staking (mock_info "addr0000" []))
    ≡ some (record {
      messages =
          record {
            msg =
                wasm_execute "staking" (staking (Staking.ExecuteMsg.withdraw_stake none "addr0000"))
                  [];
            reply_on = reply_on_success 2;
          }
          ∷ [];
      attributes = [];
    })

claim_un_pool_passes : ClaimUnPool
unfolding program
claim_un_pool_passes = refl
