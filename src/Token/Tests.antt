-- ===== src/Token/Tests.antt =====
-- The unit tests of src/contract.rs of the token contract: what they share, and the tests of the
-- instantiation. A test is the conjunction of what it asserts.
mod Calls
use dogether_contracts.Prelude.{
  ℕ, ◌+◌, ◌≡◌, refl, String, Option, none, some, [], ◌∷◌, length, Outcome, ok, as_bytes, string_eq,
}
use dogether_contracts.Platform.Sample.{sample_std}
use dogether_contracts.Platform.Std.{StdResult}
use dogether_contracts.Platform.Storage.{may_load, save}
use dogether_contracts.Platform.Types.{MessageInfo, Response, Uint128}
use dogether_contracts.Token.Contract.{
  create_accounts, instantiate, query_balance, query_minter, query_token_info,
}
use dogether_contracts.Token.Msg.{
  Cw20Coin, InstantiateMsg, Payload, validate, is_valid_name, is_valid_symbol, symbol_loop,
}
use dogether_contracts.Token.State.{Storage}
use dogether_contracts.Token.Supply.Reach.{fresh}

abbrev pub mock_info : String → MessageInfo
mock_info sender = record { sender = sender; funds = [] }

abbrev pub stored : {E : Type 0} → Outcome E (Storage × Response Payload) → Storage
stored (ok (storage, r)) = storage
stored _ = fresh

abbrev pub sent_count : {E : Type 0} → Outcome E (Storage × Response Payload) → Option ℕ
sent_count (ok (storage, r)) = some (length r.messages)
sent_count _ = none

abbrev pub coin_of : String → Uint128 → Cw20Coin
coin_of address amount = record { address = address; amount = amount }

unfoldable pub created : InstantiateMsg → StdResult (Storage × Response Payload)
unfolding instantiate
created msg = instantiate sample_std fresh (mock_info "creator") msg

-- What the tests of the instantiation assert: no message is sent, and the information of the token
-- is that of the message with the given supply.
abbrev pub Instantiates : InstantiateMsg → Uint128 → Type 0
Instantiates msg total_supply =
    (sent_count (created msg) ≡ some 0)
    × (query_token_info (stored (created msg))
        ≡ ok (record {
          name = msg.name;
          symbol = msg.symbol;
          decimals = msg.decimals;
          total_supply = total_supply;
        }))

abbrev pub GetBalance : Storage → String → Uint128 → Type 0
GetBalance storage address amount = query_balance sample_std storage address ≡ ok amount

abbrev pub auto_gen : String → Uint128 → InstantiateMsg
auto_gen addr amount = record {
  name = "Auto Gen";
  symbol = "AUTO";
  decimals = 3;
  initial_balances = coin_of addr amount ∷ [];
}

-- The storage that `do_instantiate` leaves, and what it asserts.
unfoldable pub do_instantiate : String → Uint128 → Storage
unfolding created
do_instantiate addr amount = stored (created (auto_gen addr amount))

abbrev pub DoInstantiateWithMinter : String → Uint128 → String → Option Uint128 → Type 0
DoInstantiateWithMinter addr amount minter cap =
    Instantiates (auto_gen addr amount) amount
    × GetBalance (do_instantiate addr amount) addr amount
    × (query_minter (do_instantiate addr amount)
        ≡ ok (some (record { minter = minter; cap = cap })))

program : Unit {0}
unfolding instantiate created do_instantiate create_accounts validate is_valid_name is_valid_symbol
    symbol_loop as_bytes may_load save query_balance query_minter query_token_info
program = tt

abbrev cash : InstantiateMsg
cash = record {
  name = "Cash Token";
  symbol = "CASH";
  decimals = 9;
  initial_balances = coin_of "addr0000" 11_223_344 ∷ [];
}

abbrev ProperInstantiation : Type 0
ProperInstantiation =
    Instantiates cash 11_223_344 × GetBalance (stored (created cash)) "addr0000" 11_223_344

proper_instantiation_passes : ProperInstantiation
unfolding program
proper_instantiation_passes = ((refl, refl), refl)

abbrev InstantiateMintable : Type 0
InstantiateMintable =
    Instantiates cash 11_223_344
    × GetBalance (stored (created cash)) "addr0000" 11_223_344
    × (query_minter (stored (created cash)) ≡ ok (some (record { minter = "creator"; cap = none })))

instantiate_mintable_passes : InstantiateMintable
unfolding program
instantiate_mintable_passes = ((refl, refl), refl, refl)

abbrev bash : InstantiateMsg
bash = record {
  name = "Bash Shell";
  symbol = "BASH";
  decimals = 6;
  initial_balances = coin_of "addr0001" 11_223_344 ∷ coin_of "addr0002" 7_890_987 ∷ [];
}

abbrev InstantiateMultipleAccounts : Type 0
InstantiateMultipleAccounts =
    Instantiates bash (11_223_344 + 7_890_987)
    × GetBalance (stored (created bash)) "addr0001" 11_223_344
    × GetBalance (stored (created bash)) "addr0002" 7_890_987

instantiate_multiple_accounts_passes : InstantiateMultipleAccounts
unfolding program
instantiate_multiple_accounts_passes = ((refl, refl), refl, refl)
