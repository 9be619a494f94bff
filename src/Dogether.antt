-- ===== src/Dogether.antt =====
-- The pool contract, contracts/dogether.
pub mod Math
pub mod Msg
pub mod State
pub mod Pool
pub mod Redeem
pub mod Refusals
pub mod Reply
pub mod Contract
pub mod Dispatch
mod Examples
mod Tests
