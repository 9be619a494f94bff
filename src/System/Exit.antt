-- ===== src/System/Exit.antt =====
-- A user can leave the pool: unpooling and claiming across the three contracts succeed.
use dogether_contracts.Prelude.{
  ◌+◌, ◌*◌, ◌≤◌, ◌<◌, ◌≡◌, ◌++◌, refl, String, some, [], ◌∷◌, ok, arith, list_eq, nat_eq, string_eq,
}
use dogether_contracts.Platform.Laws.{IsDocumented}
use dogether_contracts.Platform.Std.{Std, StdResult, Querier}
use dogether_contracts.Platform.Storage.{may_load, may_load-save_self}
use dogether_contracts.Platform.Types.{
  Addr, CanonicalAddr, Env, MessageInfo, Response, Uint128, at_height, message, wasm_execute,
  decimal_one, u64_bound, u128_bound,
}
use dogether_contracts.Dogether.Contract as Pool
use dogether_contracts.Dogether.Msg as PoolMsg
use dogether_contracts.Dogether.Pool.{try_un_pool}
use dogether_contracts.Dogether.State as PoolState
use dogether_contracts.Staking.Claim.{or_empty}
use dogether_contracts.Staking.Contract as Stake
use dogether_contracts.Staking.Custody.Unbonding.{handle_unbound_total}
use dogether_contracts.Staking.Msg as StakeMsg
use dogether_contracts.Staking.Rewards.Owed.{owed}
use dogether_contracts.Staking.Solvency.Reach.{Reaches-IsBacked}
use dogether_contracts.Staking.Stake.Effects.{handle_unbound-HasUnbonded}
use dogether_contracts.Staking.State as StakeState
use dogether_contracts.Staking.State.{read_holder}
use dogether_contracts.System.{Chain, Step, by, un_pools}
use dogether_contracts.System.Parts.{Reaches-staking}
use dogether_contracts.System.Reach.{Reaches}

module _ (std : Std) (doc : IsDocumented std) (codec : StakeMsg.Codec)
    (pool_addr token_addr staking_addr : Addr) (c : Chain) (p : PoolState.State)
    (pc : PoolState.Config) (s : StakeState.State) (sc : StakeState.Config) (info : MessageInfo)
    (raw : CanonicalAddr) where
  -- In every state that the three contracts reach together, a user can unpool any positive amount
  -- up to his stake as one transaction, after which the dogether contract is as before, his stake
  -- is smaller by the amount and a claim of it waits for the unbonding period, where the contracts
  -- know each other's addresses, the addresses are answered and the numbers fit their integers.
  pub un_pools-Step :
      (querier : Querier) (market : PoolMsg.Market)
      (lottery : String → StdResult StakeMsg.LotteryConfig) (env : Env) (amount : Uint128)
      → Reaches std codec pool_addr token_addr staking_addr c
      → c.dogether.state ≡ some p
      → c.dogether.config ≡ some pc
      → c.staking.state ≡ some s
      → c.staking.config ≡ some sc
      → std.addr_humanize p.staking_address ≡ ok staking_addr
      → std.addr_canonicalize pool_addr ≡ ok sc.admin
      → std.addr_canonicalize info.sender ≡ ok raw
      → 0 < amount
      → amount ≤ (read_holder c.staking raw).balance
      → s.global_index < u128_bound
      → (read_holder c.staking raw).balance * decimal_one < u128_bound
      → owed s.global_index (read_holder c.staking raw) < u128_bound
      → env.block.height + sc.unbonding_period < u64_bound
      → (c' : Chain) × Step std codec pool_addr token_addr staking_addr c c'
        × (c'.dogether ≡ c.dogether)
        × ((read_holder c'.staking raw).balance + amount ≡ (read_holder c.staking raw).balance)
        × (may_load raw c'.staking.claims
            ≡ some (
                or_empty (may_load raw c.staking.claims)
                ++ record {
                  amount = amount;
                  release_at = at_height (env.block.height + sc.unbonding_period);
                }
                  ∷ []))
  unfolding Pool.execute try_un_pool Stake.execute read_holder
  un_pools-Step querier market lottery env amount reached p_is pc_is s_is sc_is named admin
        canonical positive covered small_index small_balance small_owed height =
      let backed =
        Reaches-IsBacked std codec doc
          (Reaches-staking std codec pool_addr token_addr staking_addr reached) in
      let asked = StakeMsg.ExecuteMsg.unbond_stake amount info.sender in
      let r : Response PoolMsg.Payload = record {
        messages = message (wasm_execute staking_addr (PoolMsg.Payload.staking asked) []) ∷ [];
        attributes = [];
      } in
      let calls : Pool.execute std querier codec market c.dogether env info
            (PoolMsg.ExecuteMsg.un_pool amount)
          ≡ ok (c.dogether, r) =
        ground (arith, p_is, pc_is, named, positive) in
      let (k, r2, runs) =
        handle_unbound_total std doc c.staking s sc s_is sc_is env (by pool_addr) admin info.sender
          raw canonical amount backed refl positive covered small_index small_balance small_owed
          height in
      let b =
        handle_unbound-HasUnbonded std doc c.staking raw s s_is env (by pool_addr) amount
          info.sender sc sc_is canonical runs in
      (
        record { dogether = c.dogether; token = c.token; staking = k },
        un_pools querier querier market lottery env env info amount asked calls refl runs,
        refl,
        rw (b.holders, may_load-save_self raw _ c.staking.holders) (omega (arith, covered)),
        rw (b.claims, may_load-save_self raw _ c.staking.claims) refl,
      )
