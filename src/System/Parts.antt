-- ===== src/System/Parts.antt =====
-- What the three contracts reach together, each of them reaches alone.
use dogether_contracts.Prelude.{refl, List}
use dogether_contracts.Platform.Std.{Std}
use dogether_contracts.Platform.Types.{Addr}
use dogether_contracts.Staking.Msg as StakeMsg
use dogether_contracts.Staking.Solvency.Reach as StakeReach
use dogether_contracts.System.{Chain, Step, by, pools, un_pools, claims, redeems, buys, burns}
use dogether_contracts.System.Reach.{Reaches, deployed, stepped}
use dogether_contracts.Token.Msg as CoinsMsg
use dogether_contracts.Token.Supply.Reach as CoinsReach

module _ (std : Std) (codec : StakeMsg.Codec) (pool_addr token_addr staking_addr : Addr) where
  Step-staking :
      {c c' : Chain}
      → Step std codec pool_addr token_addr staking_addr c c'
      → StakeReach.Reaches std codec c.staking
      → StakeReach.Reaches std codec c'.staking
  Step-staking
        (pools querier querier' market lottery env env' info mm deposit contract amount msg
          recipient hook e sends e2 sends2 e3)
        reached =
      StakeReach.Reaches.executed querier' lottery env' (by token_addr)
        (StakeMsg.ExecuteMsg.receive hook) reached e3
  Step-staking (un_pools querier querier' market lottery env env' info wanted msg e sends e2)
        reached =
      StakeReach.Reaches.executed querier' lottery env' (by pool_addr) msg reached e2
  Step-staking
        (claims querier querier' querier'' market market' lottery env env' env'' info msg amount
          events event e sends e2 sends2 e3 found told e4)
        reached =
      StakeReach.Reaches.executed querier' lottery env' (by pool_addr) msg reached e2
  Step-staking (redeems querier querier' market lottery env env' info earning e e2) reached =
      StakeReach.Reaches.executed querier' lottery env'
        (record { sender = pool_addr; funds = earning }) StakeMsg.ExecuteMsg.update_global_index
        reached e2
  Step-staking (buys querier lottery env info recipient combination e) reached =
      StakeReach.Reaches.executed querier lottery env info
        (StakeMsg.ExecuteMsg.get_ticket recipient combination) reached e
  Step-staking (burns info amount other e) reached = reached

  Step-token :
      (rows : List CoinsMsg.Cw20Coin) {c c' : Chain}
      → Step std codec pool_addr token_addr staking_addr c c'
      → CoinsReach.Reaches std pool_addr rows c.token
      → CoinsReach.Reaches std pool_addr rows c'.token
  Step-token rows
        (pools querier querier' market lottery env env' info mm deposit contract amount msg
          recipient hook e sends e2 sends2 e3)
        reached =
      CoinsReach.Reaches.executed (by pool_addr)
        (CoinsMsg.ExecuteMsg.bond contract amount msg recipient) reached e2
  Step-token rows (un_pools querier querier' market lottery env env' info wanted msg e sends e2)
        reached =
      reached
  Step-token rows
        (claims querier querier' querier'' market market' lottery env env' env'' info msg amount
          events event e sends e2 sends2 e3 found told e4)
        reached =
      CoinsReach.Reaches.executed (by staking_addr) (CoinsMsg.ExecuteMsg.burn amount) reached e3
  Step-token rows (redeems querier querier' market lottery env env' info earning e e2) reached =
      reached
  Step-token rows (buys querier lottery env info recipient combination e) reached = reached
  Step-token rows (burns info amount other e) reached =
      CoinsReach.Reaches.executed info (CoinsMsg.ExecuteMsg.burn amount) reached e

  pub Reaches-staking :
      {c : Chain}
      → Reaches std codec pool_addr token_addr staking_addr c
      → StakeReach.Reaches std codec c.staking
  Reaches-staking
        (deployed querier market env env' env'' info msg made_token made_staking raw_token
          raw_staking token_msg staking_msg e0 e3 others a1 c1 e1 e4 a2 c2 e2) =
      StakeReach.Reaches.instantiated (by pool_addr) staking_msg e4
  Reaches-staking (stepped reached step) = Step-staking step (Reaches-staking reached)

  pub Reaches-token :
      {c : Chain}
      → Reaches std codec pool_addr token_addr staking_addr c
      → (rows : List CoinsMsg.Cw20Coin) × CoinsReach.Reaches std pool_addr rows c.token
  Reaches-token
        (deployed querier market env env' env'' info msg made_token made_staking raw_token
          raw_staking token_msg staking_msg e0 e3 others a1 c1 e1 e4 a2 c2 e2) =
      (
        token_msg.initial_balances,
        CoinsReach.Reaches.instantiated (by pool_addr) token_msg refl refl e3,
      )
  Reaches-token (stepped reached step) =
      let (rows, alone) = Reaches-token reached in (rows, Step-token rows step alone)
