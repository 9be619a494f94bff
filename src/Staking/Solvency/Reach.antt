-- ===== src/Staking/Solvency/Reach.antt =====
-- The states that the staking contract reaches by `instantiate` and `execute` of src/contract.rs,
-- and their accounts.
use dogether_contracts.Prelude.{◌≡◌, String, none, [], ok, arith}
use dogether_contracts.Platform.Types.{Env, MessageInfo, Response}
use dogether_contracts.Platform.Std.{Std, StdResult, Querier}
use dogether_contracts.Platform.Laws.{IsDocumented}
use dogether_contracts.Staking.Contract.{instantiate, execute}
use dogether_contracts.Staking.Msg.{Payload, InstantiateMsg, ExecuteMsg, Codec, LotteryConfig}
use dogether_contracts.Staking.Solvency.Invariant.{IsBacked}
use dogether_contracts.Staking.Solvency.Operations.{
  handle_receive-IsBacked, handle_unbound-IsBacked, handle_withdraw_stake-IsBacked,
}
use dogether_contracts.Staking.Solvency.Payouts.{
  handle_update_global_index-IsBacked, handle_get_ticket-IsBacked,
}
use dogether_contracts.Staking.State.{Storage}

-- Nothing is stored.
abbrev pub fresh : Storage
fresh = record { config = none; state = none; holders = []; claims = []; combinations = [] }

module _ (std : Std) (codec : Codec) where
  -- The states of a contract that was instantiated once and then executed any messages, in any
  -- environment, with any answers to its queries. A call that fails changes nothing.
  pub data Reaches : Storage → Type 0 where
    instantiated :
        {storage : Storage} {r : Response Payload} (info : MessageInfo) (msg : InstantiateMsg)
        → instantiate std fresh info msg ≡ ok (storage, r)
        → Reaches storage
    executed :
        {storage storage' : Storage} {r : Response Payload} (querier : Querier)
        (lottery : String → StdResult LotteryConfig) (env : Env) (info : MessageInfo)
        (msg : ExecuteMsg)
        → Reaches storage
        → execute std codec querier lottery storage env info msg ≡ ok (storage', r)
        → Reaches storage'

  module _ (doc : IsDocumented std) where
    pub instantiate-IsBacked :
        {storage : Storage} {r : Response Payload} (info : MessageInfo) (msg : InstantiateMsg)
        → instantiate std fresh info msg ≡ ok (storage, r)
        → IsBacked storage
    unfolding instantiate
    instantiate-IsBacked info msg e = ground arith

    pub execute-IsBacked :
        (storage : Storage) {storage' : Storage} {r : Response Payload} (querier : Querier)
        (lottery : String → StdResult LotteryConfig) (env : Env) (info : MessageInfo)
        (msg : ExecuteMsg)
        → IsBacked storage
        → execute std codec querier lottery storage env info msg ≡ ok (storage', r)
        → IsBacked storage'
    unfolding execute
    execute-IsBacked storage q lottery env info (ExecuteMsg.get_ticket recipient combination) =
        handle_get_ticket-IsBacked std doc q storage lottery recipient combination
    execute-IsBacked storage q lottery env info ExecuteMsg.update_global_index =
        handle_update_global_index-IsBacked std doc q storage env info
    execute-IsBacked storage q lottery env info (ExecuteMsg.unbond_stake amount address) =
        handle_unbound-IsBacked std doc storage env info amount address
    execute-IsBacked storage q lottery env info (ExecuteMsg.withdraw_stake limit address) =
        handle_withdraw_stake-IsBacked std doc storage env info limit address
    execute-IsBacked storage q lottery env info (ExecuteMsg.receive msg) =
        handle_receive-IsBacked std doc storage codec info msg

    -- In every state that the staking contract can reach, by its instantiation and any sequence of
    -- executed messages, the recorded total stake is the sum of the holders' balances, no holder's
    -- index is above the global index, and the rewards owed to all holders are covered by the
    -- recorded reward balance.
    pub Reaches-IsBacked : {storage : Storage} → Reaches storage → IsBacked storage
    Reaches-IsBacked (instantiated info msg e) = instantiate-IsBacked info msg e
    Reaches-IsBacked (executed {storage} querier lottery env info msg reached e) =
        execute-IsBacked storage querier lottery env info msg (Reaches-IsBacked reached) e
