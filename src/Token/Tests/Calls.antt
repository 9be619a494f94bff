-- ===== src/Token/Tests/Calls.antt =====
-- The unit tests of the queries and of the messages of src/contract.rs of the token contract.
use dogether_contracts.Prelude.{
  ◌-◌, ◌≡◌, refl, String, Option, none, some, List, [], ◌∷◌, ok, err, as_bytes, string_eq,
}
use dogether_contracts.Platform.Sample.{sample_std}
use dogether_contracts.Platform.Std.{StdResult}
use dogether_contracts.Platform.Storage.{may_load, save}
use dogether_contracts.Platform.Types.{
  Binary, Env, SubMsg, Uint128, message, overflow, wasm_execute,
}
use dogether_contracts.Token.Contract.{
  Handled, create_accounts, instantiate, execute, execute_bond, execute_burn, query_balance,
  query_minter, query_token_info,
}
use dogether_contracts.Token.Dispatch.{Answer, of_balance, query}
use dogether_contracts.Token.Msg.{
  ExecuteMsg, Payload, QueryMsg, validate, is_valid_name, is_valid_symbol, symbol_loop, std_error,
  invalid_zero_amount, unauthorized, receive,
}
use dogether_contracts.Token.State.{Storage, get_cap}
use dogether_contracts.Token.Tests.{
  mock_info, stored, sent_count, created, GetBalance, do_instantiate, DoInstantiateWithMinter,
}

program : Unit {0}
unfolding instantiate created do_instantiate create_accounts validate is_valid_name is_valid_symbol
    symbol_loop as_bytes may_load save query_balance query_minter query_token_info query execute
    execute_bond execute_burn get_cap
program = tt

-- The total supply that a query answers.
abbrev supply : Storage → Option Uint128
supply storage = elim (query_token_info storage) [ ok answer ↦ some answer.total_supply | _ ↦ none ]

abbrev holding : Storage
holding = do_instantiate "addr0001" 12_340_000

abbrev QueriesWork : Type 0
QueriesWork =
    DoInstantiateWithMinter "addr0001" 12_340_000 "creator" none
    × ((to_binary : Answer → StdResult Binary) (env : Env)
        → query sample_std to_binary holding env (QueryMsg.balance "addr0001")
          ≡ to_binary (of_balance 12_340_000))
    × ((to_binary : Answer → StdResult Binary) (env : Env)
        → query sample_std to_binary holding env (QueryMsg.balance "addr0002")
          ≡ to_binary (of_balance 0))

queries_work_passes : QueriesWork
unfolding program
queries_work_passes = (((refl, refl), refl, refl), (λ to_binary env. refl), (λ to_binary env. refl))

abbrev burn_call : Uint128 → Handled
burn_call amount = execute sample_std holding (mock_info "addr0001") (ExecuteMsg.burn amount)

-- A call that fails leaves the storage, so that the supply is still that of `holding`.
abbrev Burn : Type 0
Burn =
    (burn_call 0 ≡ err invalid_zero_amount)
    × (burn_call 12_340_321 ≡ err (std_error overflow))
    × (supply holding ≡ some 12_340_000)
    × (sent_count (burn_call 76_543) ≡ some 0)
    × GetBalance (stored (burn_call 76_543)) "addr0001" (12_340_000 - 76_543)
    × (supply (stored (burn_call 76_543)) ≡ some (12_340_000 - 76_543))

burn_passes : Burn
unfolding program
burn_passes = (refl, refl, refl, refl, refl, refl)

abbrev bond_call : String → Uint128 → Handled
bond_call sender amount =
    execute sample_std (do_instantiate "creator" 0) (mock_info sender)
      (ExecuteMsg.bond "staking" amount "" "provider")

abbrev messages : Handled → Option (List (SubMsg Payload))
messages (ok (storage, r)) = some r.messages
messages _ = none

abbrev Bond : Type 0
Bond =
    DoInstantiateWithMinter "creator" 0 "creator" none
    × (bond_call "addr0001" 0 ≡ err invalid_zero_amount)
    × (bond_call "addr0001" 1_000_000 ≡ err unauthorized)
    × (messages (bond_call "creator" 1_000_000)
        ≡ some (
            message (
              wasm_execute "staking"
                (receive (record { sender = "provider"; amount = 1_000_000; msg = "" })) [])
            ∷ []))
    × (supply (stored (bond_call "creator" 1_000_000)) ≡ some 1_000_000)
    × (may_load "staking" (stored (bond_call "creator" 1_000_000)).balances ≡ some 1_000_000)

bond_passes : Bond
unfolding program
bond_passes = (((refl, refl), refl, refl), refl, refl, refl, refl, refl)
