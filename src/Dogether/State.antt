-- ===== src/Dogether/State.antt =====
-- What the dogether contract stores: src/state.rs.
use dogether_contracts.Prelude.{ℕ, String, Option, Outcome}
use dogether_contracts.Platform.Types.{Uint128, CanonicalAddr, Response}
use dogether_contracts.Platform.Std.{StdResult, load}
use dogether_contracts.Dogether.Msg.{ContractError, Payload}

pub record Config : Type 0 where
  pub admin : CanonicalAddr
  pub denom : String
  pub money_market_address : CanonicalAddr
  pub anchor_aust_address : CanonicalAddr
  pub code_id_staking : ℕ
  pub label_staking : String
  pub unbonding_period : ℕ
  pub loterra_address : CanonicalAddr

pub record State : Type 0 where
  pub staking_address : CanonicalAddr
  pub cw20_address : CanonicalAddr
  pub draw_period : ℕ
  pub next_draw : ℕ
  pub total_ust_pool : Uint128

pub record Storage : Type 0 where
  pub config : Option Config
  pub state : Option State

-- What an execute call ends with.
abbrev pub Handled : Type 0
Handled = Outcome ContractError (Storage × Response Payload)

abbrev pub read_config : Storage → StdResult Config
read_config storage = load storage.config

abbrev pub read_state : Storage → StdResult State
read_state storage = load storage.state

abbrev pub store_state : Storage → State → Storage
store_state storage state = record storage { state = Option.some state }

abbrev pub store_config : Storage → Config → Storage
store_config storage config = record storage { config = Option.some config }
