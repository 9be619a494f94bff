-- ===== src/Staking.antt =====
-- The staking contract, contracts/loterra-staking-contract-dogether.
pub mod Math
pub mod Msg
pub mod State
pub mod Claim
pub mod Global
pub mod Rewards
pub mod Ticket
pub mod Stake
pub mod Query
pub mod Listing
pub mod Frame
pub mod Fits
pub mod Contract
pub mod Dispatch
pub mod Access
pub mod Solvency
pub mod Custody
mod Examples
mod Tests
