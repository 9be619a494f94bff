-- ===== src/Staking/Custody.antt =====
-- The tokens that the staking contract holds for its stakers: src/user.rs and src/claim.rs.
pub mod Held
pub mod Conservation
pub mod Unbonding
