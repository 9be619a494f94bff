-- ===== src/System/Lockstep.antt =====
-- The pool, the stake and the tokens under one transaction across the three contracts.
use dogether_contracts.Prelude.{◌≡◌, refl, none, arith, string_eq}
use dogether_contracts.Platform.Types.{Addr, MessageInfo}
use dogether_contracts.Platform.Std.{Std}
use dogether_contracts.Platform.Laws.{IsDocumented}
use dogether_contracts.Dogether.Contract as Pool
use dogether_contracts.Dogether.Reply.{reply}
use dogether_contracts.Staking.Contract as Stake
use dogether_contracts.Staking.Custody.Conservation.{execute-held}
use dogether_contracts.Staking.Custody.Held.{held, burned}
use dogether_contracts.Staking.Msg as StakeMsg
use dogether_contracts.Token.Contract as Coins
use dogether_contracts.System.{Chain, Step, by, pools, un_pools, claims, redeems, buys, burns}
use dogether_contracts.System.Burns.{
  handle_receive-burned, handle_unbound-burned, handle_update_global_index-burned,
  handle_get_ticket-burned, handle_withdraw_stake-reports,
}
use dogether_contracts.System.Moves.{
  pool_of, owned, try_pool-pool_of, try_redeem_earning-pool_of, execute_bond-owned,
  execute_burn-owned, withdraw_reply-pool_of, try_un_pool-asks, try_claim_un_pool-asks,
  find_value-withdraw,
}

-- The pool is what the staking contract holds for its stakers, and so are its tokens.
pub record IsMatched (staking_addr : Addr) (c : Chain) : Type 0 where
  pub pooled : pool_of c.dogether.state ≡ held c.staking
  pub minted : owned staking_addr c.token ≡ held c.staking

module _ (std : Std) (doc : IsDocumented std) (codec : StakeMsg.Codec)
    (pool_addr token_addr staking_addr : Addr) where
  -- Every transaction keeps the match.
  pub Step-IsMatched :
      {c c' : Chain}
      → Step std codec pool_addr token_addr staking_addr c c'
      → IsMatched staking_addr c
      → IsMatched staking_addr c'
  unfolding Pool.execute Stake.execute Coins.execute reply
  Step-IsMatched {c}
        (pools querier querier' market lottery env env' info mm deposit contract amount msg
          recipient hook e sends e2 sends2 e3)
        m =
      let pool =
        try_pool-pool_of std doc c.dogether querier env info codec mm token_addr deposit contract
          amount msg recipient e sends in
      let (tokens, same) =
        execute_bond-owned std doc c.token (by pool_addr) staking_addr amount contract msg recipient
          hook e2 sends2 in
      let stake =
        execute-held std doc codec querier' lottery c.staking env' (by token_addr)
          (StakeMsg.ExecuteMsg.receive hook) e3 in
      let none_burned = handle_receive-burned std c.staking codec (by token_addr) hook e3 in
      record {
        pooled = omega (arith, pool, same, stake, none_burned, m.pooled);
        minted = omega (arith, tokens, same, stake, none_burned, m.minted);
      }
  Step-IsMatched {c} (un_pools querier querier' market lottery env env' info wanted msg e sends e2)
        m =
      let (kept, asked) = try_un_pool-asks std c.dogether info staking_addr msg wanted e sends in
      let runs = rw asked at e2 in
      let stake =
        execute-held std doc codec querier' lottery c.staking env' (by pool_addr)
          (StakeMsg.ExecuteMsg.unbond_stake wanted info.sender) runs in
      let none_burned =
        handle_unbound-burned std c.staking env' (by pool_addr) wanted info.sender runs in
      record {
        pooled = rw kept (omega (arith, stake, none_burned, m.pooled));
        minted = omega (arith, stake, none_burned, m.minted);
      }
  Step-IsMatched {c}
        (claims {d} {r2} querier querier' querier'' market market' lottery env env' env'' info msg
          amount events event e sends e2 sends2 e3 found told e4)
        m =
      let (kept, asked) = try_claim_un_pool-asks std c.dogether info staking_addr msg e sends in
      let runs = rw asked at e2 in
      let stake =
        execute-held std doc codec querier' lottery c.staking env' (by pool_addr)
          (StakeMsg.ExecuteMsg.withdraw_stake none info.sender) runs in
      let (small, says) =
        handle_withdraw_stake-reports std doc env'.block none c.staking env' (by pool_addr)
          info.sender refl runs in
      let (covered, paid) =
        withdraw_reply-pool_of std doc querier'' market' d events event (burned r2.messages) e4
          found (find_value-withdraw std event r2 staking_addr info.sender _ told says) small in
      let burnt : burned r2.messages ≡ amount = rw sends2 (omega arith) in
      let before : pool_of d.state ≡ pool_of c.dogether.state = rw kept refl in
      let (spent, _) =
        execute_burn-owned std doc c.token (by staking_addr) staking_addr amount e3 in
      let (enough, left) = spent refl in
      record {
        pooled = omega (arith, paid, covered, before, stake, m.pooled);
        minted = omega (arith, left, enough, burnt, stake, m.minted);
      }
  Step-IsMatched {c} (redeems querier querier' market lottery env env' info earning e e2) m =
      let pool = try_redeem_earning-pool_of std doc c.dogether querier env info market e in
      let to_staking : MessageInfo = record { sender = pool_addr; funds = earning } in
      let stake =
        execute-held std doc codec querier' lottery c.staking env' to_staking
          StakeMsg.ExecuteMsg.update_global_index e2 in
      let none_burned =
        handle_update_global_index-burned std c.staking querier' env' to_staking e2 in
      record {
        pooled = omega (arith, pool, stake, none_burned, m.pooled);
        minted = omega (arith, stake, none_burned, m.minted);
      }
  Step-IsMatched {c} (buys querier lottery env info recipient combination e) m =
      let stake =
        execute-held std doc codec querier lottery c.staking env info
          (StakeMsg.ExecuteMsg.get_ticket recipient combination) e in
      let none_burned =
        handle_get_ticket-burned std c.staking querier lottery recipient combination e in
      record {
        pooled = omega (arith, stake, none_burned, m.pooled);
        minted = omega (arith, stake, none_burned, m.minted);
      }
  Step-IsMatched {c} (burns info amount other e) m =
      let (_, kept) = execute_burn-owned std doc c.token info staking_addr amount e in
      record { pooled = m.pooled; minted = omega (arith, kept other, m.minted) }
