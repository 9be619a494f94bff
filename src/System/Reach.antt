-- ===== src/System/Reach.antt =====
-- The deployment of the three contracts, the states that they reach together, and their pool, stake
-- and tokens.
use dogether_contracts.Prelude.{
  ◌+◌, ◌≡◌, ◌≢◌, refl, All, some, none, List, [], ◌∷◌, ok, arith, string_eq, Outcome-cases, inl,
  inr,
}
use dogether_contracts.Platform.Types.{Addr, CanonicalAddr, Env, MessageInfo, Response, Uint128}
use dogether_contracts.Platform.Std.{Std, Querier}
use dogether_contracts.Platform.Laws.{IsDocumented}
use dogether_contracts.Platform.Storage.{Map, may_load, save, may_load-save}
use dogether_contracts.Dogether.Contract as Pool
use dogether_contracts.Dogether.Msg as PoolMsg
use dogether_contracts.Dogether.Reply.{contract_address, reply}
use dogether_contracts.Dogether.Reply.Setup.{setup_lem}
use dogether_contracts.Dogether.State as PoolState
use dogether_contracts.Staking.Contract as Stake
use dogether_contracts.Staking.Custody.Held.{held}
use dogether_contracts.Staking.Msg as StakeMsg
use dogether_contracts.Staking.Solvency.Reach as StakeReach
use dogether_contracts.Staking.State as StakeState
use dogether_contracts.System.{Chain, Step, by}
use dogether_contracts.System.Lockstep.{IsMatched, Step-IsMatched}
use dogether_contracts.System.Moves.{owned}
use dogether_contracts.Token.Contract as Coins
use dogether_contracts.Token.Contract.{create_accounts, or_zero}
use dogether_contracts.Token.Msg as CoinsMsg
use dogether_contracts.Token.State as CoinsState
use dogether_contracts.Token.Supply.Reach as CoinsReach

module _ (std : Std) (codec : StakeMsg.Codec) (pool_addr token_addr staking_addr : Addr) where
  -- The chain after the deployment and any transactions. The pool is instantiated by anybody, and
  -- its replies tell the addresses of the other two, which it instantiates; no initial account of
  -- the token is the staking contract's.
  pub data Reaches : Chain → Type 0 where
    deployed :
        {d0 d1 d2 : PoolState.Storage} {t : CoinsState.Storage} {k : StakeState.Storage}
        {r0 r1 r2 : Response PoolMsg.Payload} {r3 : Response CoinsMsg.Payload}
        {r4 : Response StakeMsg.Payload} (querier : Querier) (market : PoolMsg.Market)
        (env env' env'' : Env) (info : MessageInfo) (msg : PoolMsg.InstantiateMsg)
        (made_token made_staking : List PoolMsg.Event) (raw_token raw_staking : CanonicalAddr)
        (token_msg : CoinsMsg.InstantiateMsg) (staking_msg : StakeMsg.InstantiateMsg)
        → Pool.instantiate std (record { config = none; state = none }) env info msg ≡ ok (d0, r0)
        → Coins.instantiate std CoinsReach.fresh (by pool_addr) token_msg ≡ ok (t, r3)
        → All (λ row. row.address ≢ staking_addr) token_msg.initial_balances
        → contract_address made_token ≡ some token_addr
        → std.addr_canonicalize token_addr ≡ ok raw_token
        → reply std querier market d0 env' 0 (PoolMsg.ContractResult.success made_token)
          ≡ ok (d1, r1)
        → Stake.instantiate std StakeReach.fresh (by pool_addr) staking_msg ≡ ok (k, r4)
        → contract_address made_staking ≡ some staking_addr
        → std.addr_canonicalize staking_addr ≡ ok raw_staking
        → reply std querier market d1 env'' 1 (PoolMsg.ContractResult.success made_staking)
          ≡ ok (d2, r2)
        → Reaches (record { dogether = d2; token = t; staking = k })
    stepped :
        {c c' : Chain}
        → Reaches c
        → Step std codec pool_addr token_addr staking_addr c c'
        → Reaches c'

module _ (std : Std) (doc : IsDocumented std) (staking_addr : Addr) where
  -- An account that is not listed is not credited.
  create_accounts-or_zero :
      (balances : Map Addr Uint128) (t : Uint128) (rows : List CoinsMsg.Cw20Coin)
      {balances' : Map Addr Uint128} {t' : Uint128}
      → All (λ row. row.address ≢ staking_addr) rows
      → create_accounts std balances t rows ≡ ok (balances', t')
      → or_zero (may_load staking_addr balances') ≡ or_zero (may_load staking_addr balances)
  unfolding create_accounts
  create_accounts-or_zero balances t [] others e = ground arith
  create_accounts-or_zero balances t (row ∷ rows) {balances'} {t'} others e =
      elim (Outcome-cases (std.addr_validate row.address)) [
        | inr fails ↦ absurd (ground arith)
        | inl (a, valid) ↦ ground (
          arith,
          others.0,
          doc.addr_validate_value row.address valid,
          doc.add_lem t row.amount,
          string_eq.beq_iff a staking_addr,
          may_load-save a staking_addr row.amount balances,
          create_accounts-or_zero (save a row.amount balances) (t + row.amount) rows
              {balances' = balances'} {t' = t'} others.1,
        )
      ]

  instantiate-owned :
      {t : CoinsState.Storage} {r : Response CoinsMsg.Payload} (info : MessageInfo)
      (msg : CoinsMsg.InstantiateMsg)
      → All (λ row. row.address ≢ staking_addr) msg.initial_balances
      → Coins.instantiate std CoinsReach.fresh info msg ≡ ok (t, r)
      → owned staking_addr t ≡ 0
  unfolding Coins.instantiate may_load
  instantiate-owned info msg others e =
      elim (Outcome-cases (create_accounts std [] 0 msg.initial_balances)) [
        | inr fails ↦ absurd (ground arith)
        | inl ((balances, total), c) ↦
            ground (arith, create_accounts-or_zero [] 0 msg.initial_balances others c)
      ]

  instantiate-held :
      {k : StakeState.Storage} {r : Response StakeMsg.Payload} (info : MessageInfo)
      (msg : StakeMsg.InstantiateMsg)
      → Stake.instantiate std StakeReach.fresh info msg ≡ ok (k, r)
      → held k ≡ 0
  unfolding Stake.instantiate
  instantiate-held info msg e = ground arith

module _ (std : Std) (doc : IsDocumented std) (codec : StakeMsg.Codec)
    (pool_addr token_addr staking_addr : Addr) where
  -- In every state that the three contracts reach together, from a deployment in which no initial
  -- account of the token is the staking contract's, by transactions (pooling, unpooling, claiming
  -- with the burn and the reply, redeeming, buying tickets, and burning by others) that succeed in
  -- every contract they reach, the pool of the dogether contract is the stake and the claims that
  -- the staking contract holds, and the token balance of the staking contract is the same amount.
  pub Reaches-IsMatched :
      {c : Chain} → Reaches std codec pool_addr token_addr staking_addr c → IsMatched staking_addr c
  Reaches-IsMatched
        (deployed {d0} {d1} {d2} {r0} {r1} {r2} querier market env env' env'' info msg made_token
          made_staking raw_token raw_staking token_msg staking_msg e0 e3 others a1 c1 e1 e4 a2 c2
          e2) =
      let (_, after) =
        setup_lem std querier market (record { config = none; state = none }) d0 d1 d2 {r0 = r0}
          {r1 = r1} {r2 = r2} env env' env'' info msg made_token made_staking token_addr
          staking_addr raw_token raw_staking e0 a1 c1 e1 a2 c2 e2 in
      let nothing_held = instantiate-held std doc staking_addr (by pool_addr) staking_msg e4 in
      let nothing_owned =
        instantiate-owned std doc staking_addr (by pool_addr) token_msg others e3 in
      record {
        pooled = rw (after, nothing_held) refl;
        minted = omega (arith, nothing_held, nothing_owned);
      }
  Reaches-IsMatched (stepped reached step) =
      Step-IsMatched std doc codec pool_addr token_addr staking_addr step
        (Reaches-IsMatched reached)
