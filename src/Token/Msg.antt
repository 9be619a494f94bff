-- ===== src/Token/Msg.antt =====
-- The messages of the token contract, src/msg.rs, its errors, src/error.rs, and the check of the
-- token's description.
use dogether_contracts.Prelude.{
  ℕ, String, Bool, Option, true, false, ◌&&◌, ◌||◌, not, List, [], ◌∷◌, ◌==◌, ltb, length,
  if◌then◌else◌, as_bytes, ◌>>◌, ok, fail_if,
}
use dogether_contracts.Platform.Types.{Uint128, Binary, StdError, generic_err, Cw20ReceiveMsg}
use dogether_contracts.Platform.Std.{StdResult}

pub data ContractError : Type 0 where
  std_error : StdError → ContractError
  unauthorized : ContractError
  cannot_set_own_account : ContractError
  invalid_zero_amount : ContractError
  expired : ContractError
  no_allowance : ContractError
  cannot_exceed_cap : ContractError

-- `Cw20Coin` of the cw20 package: an account and its initial balance.
pub record Cw20Coin : Type 0 where
  pub address : String
  pub amount : Uint128

pub record InstantiateMsg : Type 0 where
  pub name : String
  pub symbol : String
  pub decimals : ℕ
  pub initial_balances : List Cw20Coin

unfoldable pub is_valid_name : String → Bool
is_valid_name name =
    let bytes = as_bytes name in
    if ltb (length bytes) 3 || ltb 50 (length bytes) then false else true

-- The loop over the bytes: the first one that is no dash and no letter decides.
unfoldable pub symbol_loop : List ℕ → Bool
symbol_loop [] = true
symbol_loop (byte ∷ bytes) =
    if not (byte == 45) && (ltb byte 65 || ltb 90 byte) && (ltb byte 97 || ltb 122 byte)
    then false
    else symbol_loop bytes

unfoldable pub is_valid_symbol : String → Bool
unfolding symbol_loop
is_valid_symbol symbol =
    let bytes = as_bytes symbol in
    if ltb (length bytes) 3 || ltb 12 (length bytes) then false else symbol_loop bytes

unfoldable pub validate : InstantiateMsg → StdResult (Unit {0})
unfolding is_valid_name is_valid_symbol
validate msg = do
  fail_if (not (is_valid_name msg.name))
      (generic_err "Name is not in the expected format (3-50 UTF-8 bytes)")
  fail_if (not (is_valid_symbol msg.symbol))
      (generic_err "Ticker symbol is not in expected format [a-zA-Z\\-]{3,12}")
  fail_if (ltb 18 msg.decimals) (generic_err "Decimals must not exceed 18")
  ok tt

pub data ExecuteMsg : Type 0 where
  burn : Uint128 → ExecuteMsg
  bond : String → Uint128 → Binary → String → ExecuteMsg

pub data QueryMsg : Type 0 where
  balance : String → QueryMsg
  token_info : QueryMsg
  minter : QueryMsg
  all_accounts : Option String → Option ℕ → QueryMsg

-- What the contract puts into the messages that it sends: `Receive` of the cw20 package.
pub data Payload : Type 0 where
  receive : Cw20ReceiveMsg → Payload
