-- ===== src/Token.antt =====
-- The token contract, contracts/cw20-contract-dogether.
pub mod Msg
pub mod Description
pub mod State
pub mod Listing
pub mod Contract
pub mod Dispatch
pub mod Supply
mod Examples
mod Tests
