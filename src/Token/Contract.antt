-- ===== src/Token/Contract.antt =====
-- The entry points: src/contract.rs of the token contract.
use dogether_contracts.Prelude.{
  ℕ, String, Bool, true, false, Option, none, some, List, [], ◌∷◌, ◌==◌, ltb, not, string_eq,
  Outcome, ok, ◌>>=◌, ◌>>◌, fail_if, unwrap_option, map_err,
}
use dogether_contracts.Platform.Types.{
  Uint128, Addr, Binary, MessageInfo, Response, attribute, message, wasm_execute, default_response,
}
use dogether_contracts.Platform.Std.{Std, StdResult, load}
use dogether_contracts.Platform.Storage.{Map, may_load, save}
use dogether_contracts.Token.Msg.{
  ContractError, std_error, unauthorized, invalid_zero_amount, cannot_exceed_cap, Cw20Coin,
  InstantiateMsg, validate, ExecuteMsg, burn, bond, Payload, receive,
}
use dogether_contracts.Token.State.{MinterData, get_cap, Storage}

abbrev pub Handled : Type 0
Handled = Outcome ContractError (Storage × Response Payload)

-- `?` in a function that returns a `ContractError`
abbrev pub lift : {A : Type 0} → StdResult A → Outcome ContractError A
lift = map_err std_error

-- `unwrap_or_default`
abbrev pub or_zero : Option Uint128 → Uint128
or_zero none = 0
or_zero (some amount) = amount

-- `config.mint.is_none() || config.mint.as_ref().unwrap().minter != info.sender`
abbrev pub is_not_minter : Option MinterData → Addr → Bool
is_not_minter none sender = true
is_not_minter (some data_of) sender = not (string_eq.beq data_of.minter sender)

-- Whether the supply is above the cap, where there is one.
abbrev pub exceeds : Option Uint128 → Uint128 → Bool
exceeds none supply = false
exceeds (some limit) supply = ltb limit supply

module _ (std : Std) where
  -- The loop over the initial accounts.
  unfoldable pub create_accounts :
      Map Addr Uint128 → Uint128 → List Cw20Coin → StdResult (Map Addr Uint128 × Uint128)
  create_accounts balances total_supply [] = ok (balances, total_supply)
  create_accounts balances total_supply (row ∷ accounts) = do
    address ← std.addr_validate row.address
    total ← unwrap_option (std.add total_supply row.amount)
    create_accounts (save address row.amount balances) total accounts

  unfoldable pub instantiate :
      Storage → MessageInfo → InstantiateMsg → StdResult (Storage × Response Payload)
  unfolding create_accounts
  instantiate storage info msg = do
    validate msg
    (balances, total_supply) ← create_accounts storage.balances 0 msg.initial_balances
    ok (
      record {
        contract_info = some ("crates.io:cw20-base", "0.9.1");
        token_info = some (record {
          name = msg.name;
          symbol = msg.symbol;
          decimals = msg.decimals;
          total_supply = total_supply;
          mint = some (record { minter = info.sender; cap = none });
        });
        balances = balances;
      },
      default_response,
    )

  unfoldable pub execute_bond : Storage → MessageInfo → String → Uint128 → Binary → String → Handled
  execute_bond storage info contract amount msg recipient = do
    fail_if (amount == 0) invalid_zero_amount
    config ← lift (load storage.token_info)
    fail_if (is_not_minter config.mint info.sender) unauthorized
    total_supply ← unwrap_option (std.add config.total_supply amount)
    fail_if (exceeds (get_cap (record config { total_supply = total_supply })) total_supply)
        cannot_exceed_cap
    rcpt_addr ← lift (std.addr_validate contract)
    balance ← unwrap_option (std.add (or_zero (may_load rcpt_addr storage.balances)) amount)
    ok (
      record storage {
        token_info = some (record config { total_supply = total_supply });
        balances = save rcpt_addr balance storage.balances;
      },
      record {
        messages =
            message (
              wasm_execute contract
                (receive (record { sender = recipient; amount = amount; msg = msg })) [])
            ∷ [];
        attributes =
            attribute "action" "bond"
            ∷ attribute "from" info.sender
            ∷ attribute "to" contract
            ∷ attribute "amount" (std.to_string amount)
            ∷ [];
      },
    )

  unfoldable pub execute_burn : Storage → MessageInfo → Uint128 → Handled
  execute_burn storage info amount = do
    fail_if (amount == 0) invalid_zero_amount
    balance ← lift (std.checked_sub (or_zero (may_load info.sender storage.balances)) amount)
    token ← lift (load storage.token_info)
    total_supply ← lift (std.checked_sub token.total_supply amount)
    ok (
      record storage {
        token_info = some (record token { total_supply = total_supply });
        balances = save info.sender balance storage.balances;
      },
      record {
        messages = [];
        attributes =
            attribute "action" "burn"
            ∷ attribute "from" info.sender
            ∷ attribute "amount" (std.to_string amount)
            ∷ [];
      },
    )

  unfoldable pub execute : Storage → MessageInfo → ExecuteMsg → Handled
  unfolding execute_bond execute_burn
  execute storage info (burn amount) = execute_burn storage info amount
  execute storage info (bond contract amount msg recipient) =
      execute_bond storage info contract amount msg recipient

  unfoldable pub query_balance : Storage → String → StdResult Uint128
  query_balance storage address = do
    address' ← std.addr_validate address
    ok (or_zero (may_load address' storage.balances))

-- `TokenInfoResponse` and `MinterResponse` of the cw20 package.
pub record TokenInfoResponse : Type 0 where
  pub name : String
  pub symbol : String
  pub decimals : ℕ
  pub total_supply : Uint128

pub record MinterResponse : Type 0 where
  pub minter : String
  pub cap : Option Uint128

unfoldable pub query_token_info : Storage → StdResult TokenInfoResponse
query_token_info storage = do
  info ← load storage.token_info
  ok (record {
    name = info.name;
    symbol = info.symbol;
    decimals = info.decimals;
    total_supply = info.total_supply;
  })

unfoldable pub query_minter : Storage → StdResult (Option MinterResponse)
query_minter storage = do
  meta ← load storage.token_info
  ok (elim meta.mint [ none ↦ none | some m ↦ some (record { minter = m.minter; cap = m.cap }) ])
