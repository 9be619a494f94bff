-- ===== src/Staking/Msg.antt =====
-- The messages and the answers of the staking contract: src/msg.rs.
use dogether_contracts.Prelude.{ℕ, String, Bool, Option, List}
use dogether_contracts.Platform.Std.{StdResult}
use dogether_contracts.Platform.Types.{Binary, Uint128, Decimal, Addr, Cw20ReceiveMsg}

pub record InstantiateMsg : Type 0 where
  pub cw20_token_addr : Addr
  pub loterra_addr : Addr
  pub reward_denom : String
  pub unbonding_period : ℕ

pub data ExecuteMsg : Type 0 where
  update_global_index : ExecuteMsg
  unbond_stake : Uint128 → String → ExecuteMsg
  withdraw_stake : Option Uint128 → String → ExecuteMsg
  receive : Cw20ReceiveMsg → ExecuteMsg
  get_ticket : String → List String → ExecuteMsg

pub data ReceiveMsg : Type 0 where
  bond_stake : ReceiveMsg

pub data QueryMsg : Type 0 where
  config : QueryMsg
  state : QueryMsg
  accrued_rewards : String → QueryMsg
  holder : String → QueryMsg
  holders : Option String → Option ℕ → QueryMsg
  claims : String → QueryMsg

pub record ConfigResponse : Type 0 where
  pub admin : String
  pub cw20_token_addr : String
  pub reward_denom : String
  pub unbonding_period : ℕ

pub record StateResponse : Type 0 where
  pub global_index : Decimal
  pub total_balance : Uint128
  pub prev_reward_balance : Uint128

pub record AccruedRewardsResponse : Type 0 where
  pub rewards : Uint128

pub record HolderResponse : Type 0 where
  pub address : String
  pub balance : Uint128
  pub index : Decimal
  pub pending_rewards : Decimal

pub record HoldersResponse : Type 0 where
  pub holders : List HolderResponse

pub record MigrateMsg : Type 0 where

-- What the contract puts into the messages that it sends: the burn of the cw20 package, and the
-- registration of tickets at the lottery (address, altered bonus, combinations).
pub data Payload : Type 0 where
  burn : Uint128 → Payload
  register : Option Addr → Option Bool → List String → Payload

-- `to_binary` and `from_binary` of cosmwasm_std at a `ReceiveMsg`.
pub record Codec : Type 0 where
  pub to_binary : ReceiveMsg → StdResult Binary
  pub from_binary : Binary → StdResult ReceiveMsg

-- The answer of the lottery contract to `loterra::msg::QueryMsg::Config`, as far as it is read.
pub record LotteryConfig : Type 0 where
  pub price_per_ticket_to_register : Uint128
  pub lottery_counter : ℕ
