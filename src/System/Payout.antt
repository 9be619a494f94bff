-- ===== src/System/Payout.antt =====
-- A user is paid: the withdrawal, the burn and the reply across the three contracts succeed.
mod Calls
use dogether_contracts.Prelude.{list_eq, nat_eq, string_eq}
use dogether_contracts.Platform.Std.{Std}
use dogether_contracts.Dogether.Contract as Pool
use dogether_contracts.Dogether.Msg as PoolMsg
use dogether_contracts.Dogether.State as PoolState
use dogether_contracts.Staking.Contract as Stake
use dogether_contracts.Staking.Msg as StakeMsg
use dogether_contracts.Staking.State as StakeState
use dogether_contracts.Token.Contract as Coins
use dogether_contracts.Token.Msg as CoinsMsg
use dogether_contracts.Token.State as CoinsState
use dogether_contracts.Token.Supply.Reach as CoinsReach
