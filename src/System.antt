-- ===== src/System.antt =====
-- The three contracts together: what a user's call does across them, one transaction at a time.
pub mod Burns
pub mod Moves
pub mod Lockstep
pub mod Reach
pub mod Parts
pub mod Entry
pub mod Exit
pub mod Payout
mod Deployment
mod Examples
use dogether_contracts.Prelude.{ℕ, ◌≡◌, ◌≢◌, String, none, some, List, [], ◌∷◌, ok}
use dogether_contracts.Platform.Types.{
  Addr, Binary, Uint128, Coin, Env, MessageInfo, Response, Cw20ReceiveMsg, attribute, message,
  wasm_execute, reply_on_success,
}
use dogether_contracts.Platform.Std.{Std, StdResult, Querier}
use dogether_contracts.Dogether.Contract as Pool
use dogether_contracts.Dogether.Msg as PoolMsg
use dogether_contracts.Dogether.Reply.{find_event, reply}
use dogether_contracts.Dogether.State as PoolState
use dogether_contracts.Staking.Contract as Stake
use dogether_contracts.Staking.Msg as StakeMsg
use dogether_contracts.Staking.State as StakeState
use dogether_contracts.Token.Contract as Coins
use dogether_contracts.Token.Msg as CoinsMsg
use dogether_contracts.Token.State as CoinsState

pub record Chain : Type 0 where
  pub dogether : PoolState.Storage
  pub token : CoinsState.Storage
  pub staking : StakeState.Storage

-- A call by one of the contracts, without coins.
abbrev pub by : Addr → MessageInfo
by sender = record { sender = sender; funds = [] }

module _ (std : Std) (codec : StakeMsg.Codec) (pool_addr token_addr staking_addr : Addr) where
  -- One transaction that succeeds in every contract that it reaches: the calls are those that the
  -- messages of the call before name. A transaction that fails anywhere changes nothing. The
  -- environments and the answers of the money market, the bank and the lottery are any.
  pub data Step (c : Chain) : Chain → Type 0 where
    pools :
        {d : PoolState.Storage} {t : CoinsState.Storage} {k : StakeState.Storage}
        {r : Response PoolMsg.Payload} {r2 : Response CoinsMsg.Payload}
        {r3 : Response StakeMsg.Payload} (querier querier' : Querier) (market : PoolMsg.Market)
        (lottery : String → StdResult StakeMsg.LotteryConfig) (env env' : Env) (info : MessageInfo)
        (money_market : Addr) (deposit : List Coin) (contract : String) (amount : Uint128)
        (msg : Binary) (recipient : String) (hook : Cw20ReceiveMsg)
        → Pool.execute std querier codec market c.dogether env info PoolMsg.ExecuteMsg.pool
          ≡ ok (d, r)
        → r.messages
          ≡ message (
              wasm_execute money_market
                (PoolMsg.Payload.anchor PoolMsg.Anchor.deposit_stable)
                deposit)
            ∷ message
                (wasm_execute token_addr (PoolMsg.Payload.bond contract amount msg recipient) [])
            ∷ []
        → Coins.execute std c.token
            (by pool_addr)
            (CoinsMsg.ExecuteMsg.bond contract amount msg recipient)
          ≡ ok (t, r2)
        → r2.messages ≡ message (wasm_execute staking_addr (CoinsMsg.Payload.receive hook) []) ∷ []
        → Stake.execute std codec querier' lottery c.staking env'
            (by token_addr)
            (StakeMsg.ExecuteMsg.receive hook)
          ≡ ok (k, r3)
        → Step c (record { dogether = d; token = t; staking = k })
    un_pools :
        {d : PoolState.Storage} {k : StakeState.Storage} {r : Response PoolMsg.Payload}
        {r2 : Response StakeMsg.Payload} (querier querier' : Querier) (market : PoolMsg.Market)
        (lottery : String → StdResult StakeMsg.LotteryConfig) (env env' : Env) (info : MessageInfo)
        (wanted : Uint128) (msg : StakeMsg.ExecuteMsg)
        → Pool.execute std querier codec market c.dogether env info
            (PoolMsg.ExecuteMsg.un_pool wanted)
          ≡ ok (d, r)
        → r.messages ≡ message (wasm_execute staking_addr (PoolMsg.Payload.staking msg) []) ∷ []
        → Stake.execute std codec querier' lottery c.staking env' (by pool_addr) msg ≡ ok (k, r2)
        → Step c (record { dogether = d; token = c.token; staking = k })
    claims :
        {d d' : PoolState.Storage} {t : CoinsState.Storage} {k : StakeState.Storage}
        {r r4 : Response PoolMsg.Payload} {r2 : Response StakeMsg.Payload}
        {r3 : Response CoinsMsg.Payload} (querier querier' querier'' : Querier)
        (market market' : PoolMsg.Market) (lottery : String → StdResult StakeMsg.LotteryConfig)
        (env env' env'' : Env) (info : MessageInfo) (msg : StakeMsg.ExecuteMsg) (amount : Uint128)
        (events : List PoolMsg.Event) (event : PoolMsg.Event)
        → Pool.execute std querier codec market c.dogether env info PoolMsg.ExecuteMsg.claim_un_pool
          ≡ ok (d, r)
        → r.messages
          ≡ record {
            msg = wasm_execute staking_addr (PoolMsg.Payload.staking msg) [];
            reply_on = reply_on_success 2;
          }
            ∷ []
        → Stake.execute std codec querier' lottery c.staking env' (by pool_addr) msg ≡ ok (k, r2)
        → r2.messages ≡ message (wasm_execute token_addr (StakeMsg.Payload.burn amount) []) ∷ []
        → Coins.execute std c.token (by staking_addr) (CoinsMsg.ExecuteMsg.burn amount) ≡ ok (t, r3)
        → find_event "wasm" events ≡ some event
        → event.attributes ≡ attribute "_contract_address" staking_addr ∷ r2.attributes
        → reply std querier'' market' d env'' 2 (PoolMsg.ContractResult.success events)
          ≡ ok (d', r4)
        → Step c (record { dogether = d'; token = t; staking = k })
    redeems :
        {d : PoolState.Storage} {k : StakeState.Storage} {r : Response PoolMsg.Payload}
        {r2 : Response StakeMsg.Payload} (querier querier' : Querier) (market : PoolMsg.Market)
        (lottery : String → StdResult StakeMsg.LotteryConfig) (env env' : Env) (info : MessageInfo)
        (earning : List Coin)
        → Pool.execute std querier codec market c.dogether env info
            PoolMsg.ExecuteMsg.redeem_earning
          ≡ ok (d, r)
        → Stake.execute std codec querier' lottery c.staking env'
            (record { sender = pool_addr; funds = earning })
            StakeMsg.ExecuteMsg.update_global_index
          ≡ ok (k, r2)
        → Step c (record { dogether = d; token = c.token; staking = k })
    buys :
        {k : StakeState.Storage} {r : Response StakeMsg.Payload} (querier : Querier)
        (lottery : String → StdResult StakeMsg.LotteryConfig) (env : Env) (info : MessageInfo)
        (recipient : String) (combination : List String)
        → Stake.execute std codec querier lottery c.staking env info
            (StakeMsg.ExecuteMsg.get_ticket recipient combination)
          ≡ ok (k, r)
        → Step c (record { dogether = c.dogether; token = c.token; staking = k })
    burns :
        {t : CoinsState.Storage} {r : Response CoinsMsg.Payload} (info : MessageInfo)
        (amount : Uint128)
        → info.sender ≢ staking_addr
        → Coins.execute std c.token info (CoinsMsg.ExecuteMsg.burn amount) ≡ ok (t, r)
        → Step c (record { dogether = c.dogether; token = t; staking = c.staking })
