-- ===== src/Staking/State.antt =====
-- What the staking contract stores: src/state.rs, and the claims of src/claim.rs.
use dogether_contracts.Prelude.{ℕ, String, Option, none, some, List, list_eq, nat_eq}
use dogether_contracts.Platform.Types.{Uint128, Decimal, CanonicalAddr, Expiration, Response}
use dogether_contracts.Platform.Std.{StdResult}
use dogether_contracts.Staking.Msg.{Payload}
use dogether_contracts.Platform.Storage.{Map, may_load, save}

pub record Config : Type 0 where
  pub admin : CanonicalAddr
  pub cw20_token_addr : CanonicalAddr
  pub loterra_addr : CanonicalAddr
  pub reward_denom : String
  pub unbonding_period : ℕ

pub record State : Type 0 where
  pub global_index : Decimal
  pub total_balance : Uint128
  pub prev_reward_balance : Uint128

pub record Holder : Type 0 where
  pub balance : Uint128
  pub index : Decimal
  pub pending_rewards : Decimal

pub record Claim : Type 0 where
  pub amount : Uint128
  pub release_at : Expiration

-- The key of a registered combination: the draw, the player and the combination.
abbrev pub CombinationKey : Type 0
CombinationKey = ℕ × (CanonicalAddr × String)

-- An `Item` is an optional value, and a `Map` is a stored map.
pub record Storage : Type 0 where
  pub config : Option Config
  pub state : Option State
  pub holders : Map CanonicalAddr Holder
  pub claims : Map CanonicalAddr (List Claim)
  pub combinations : Map CombinationKey String

-- What an execute call ends with.
abbrev pub Handled : Type 0
Handled = StdResult (Storage × Response Payload)

abbrev pub new_holder : Holder
new_holder = record { balance = 0; index = 0; pending_rewards = 0 }

abbrev pub or_new : Option Holder → Holder
or_new (some holder) = holder
or_new none = new_holder

unfoldable pub store_holder : Storage → CanonicalAddr → Holder → Storage
store_holder storage holder_address holder = record storage {
  holders = save holder_address holder storage.holders;
}

unfoldable pub read_holder : Storage → CanonicalAddr → Holder
read_holder storage holder_address = or_new (may_load holder_address storage.holders)
