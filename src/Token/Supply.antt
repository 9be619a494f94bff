-- ===== src/Token/Supply.antt =====
-- The recorded total supply against the balances: src/contract.rs of the token contract.
pub mod Effects
pub mod Exact
pub mod Reach
pub mod Branches
