-- ===== src/Dogether/Msg.antt =====
-- The messages of the dogether contract, src/msg.rs, its errors, src/error.rs, and what it sends.
use dogether_contracts.Prelude.{ℕ, String, Option, List, Outcome, map_err}
use dogether_contracts.Platform.Types.{Uint128, Decimal256, Addr, Binary, StdError, Attribute}
use dogether_contracts.Platform.Std.{StdResult}
use dogether_contracts.Staking.Msg as Staking

pub data ContractError : Type 0 where
  std_error : StdError → ContractError
  unauthorized : ContractError
  empty_funds : ContractError
  multiple_denoms : ContractError
  wrong_denom : ContractError
  empty_amount : ContractError
  retry_redeem_later : ℕ → ContractError
  do_not_send_funds : ContractError
  not_enough_funds : ContractError

-- `?` in a function that returns a `ContractError`
abbrev pub lift : {A : Type 0} → StdResult A → Outcome ContractError A
lift = map_err std_error

pub record InstantiateMsg : Type 0 where
  pub code_id_cw20 : ℕ
  pub message_cw20 : Binary
  pub label_cw20 : String
  pub code_id_staking : ℕ
  pub label_staking : String
  pub money_market_address : String
  pub anchor_aust_address : String
  pub next_draw : ℕ
  pub draw_period : ℕ
  pub unbonding_period : ℕ
  pub loterra_address : String

pub data ExecuteMsg : Type 0 where
  pool : ExecuteMsg
  un_pool : Uint128 → ExecuteMsg
  claim_un_pool : ExecuteMsg
  redeem_earning : ExecuteMsg

pub data QueryMsg : Type 0 where
  state : QueryMsg
  config : QueryMsg

pub data Anchor : Type 0 where
  deposit_stable : Anchor
  redeem_stable : Anchor
  epoch_state : Option ℕ → Option ℕ → Anchor

pub record StateResponse : Type 0 where
  pub staking_address : String
  pub cw20_address : String
  pub draw_period : ℕ
  pub next_draw : ℕ
  pub total_ust_pool : Uint128

pub record ConfigResponse : Type 0 where
  pub admin : String
  pub denom : String
  pub money_market_address : String
  pub anchor_aust_address : String
  pub unbonding_period : ℕ
  pub loterra_address : String

pub record EpochStateResponse : Type 0 where
  pub exchange_rate : Decimal256
  pub aterra_supply : ℕ

pub record MigrateMsg : Type 0 where

-- The bodies of the messages that the contract sends: to the money market, to the token contract,
-- to the staking contract, the `Send` of the cw20 package to the token of the money market, and
-- the two instantiations.
pub data Payload : Type 0 where
  anchor : Anchor → Payload
  bond : String → Uint128 → Binary → String → Payload
  staking : Staking.ExecuteMsg → Payload
  send : String → Uint128 → Anchor → Payload
  instantiate_cw20 : Binary → Payload
  instantiate_staking : Staking.InstantiateMsg → Payload

-- What the money market and its token answer, by contract address.
pub record Market : Type 0 where
  pub epoch : Addr → StdResult EpochStateResponse
  pub aust_balance : Addr → String → StdResult Uint128

-- What the chain reports of a call that was asked for.
pub record Event : Type 0 where
  pub ty : String
  pub attributes : List Attribute

pub data ContractResult : Type 0 where
  success : List Event → ContractResult
  failure : String → ContractResult
