-- ===== src/Staking/Solvency.antt =====
-- The accounts of the staking contract: the stake against the balances, and the rewards that are
-- owed against the reward balance.
pub mod Invariant
pub mod Operations
pub mod Payouts
pub mod Purchase
pub mod Bonding
pub mod Reach
