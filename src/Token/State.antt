-- ===== src/Token/State.antt =====
-- What the token contract stores: src/state.rs, and the version of the cw2 package.
use dogether_contracts.Prelude.{ℕ, String, Option, none, some}
use dogether_contracts.Platform.Types.{Uint128, Addr}
use dogether_contracts.Platform.Storage.{Map}

pub record MinterData : Type 0 where
  pub minter : Addr
  -- cap is how many more tokens can be issued by the minter
  pub cap : Option Uint128

pub record TokenInfo : Type 0 where
  pub name : String
  pub symbol : String
  pub decimals : ℕ
  pub total_supply : Uint128
  pub mint : Option MinterData

abbrev pub cap_of : Option MinterData → Option Uint128
cap_of none = none
cap_of (some minter) = minter.cap

unfoldable pub get_cap : TokenInfo → Option Uint128
get_cap info = cap_of info.mint

pub record Storage : Type 0 where
  pub contract_info : Option (String × String)
  pub token_info : Option TokenInfo
  pub balances : Map Addr Uint128
