-- ===== src/Platform.antt =====
-- What the contracts use of the platform: its data, its services as parameters with the
-- documented behaviour that the code relies on, and the stored maps.
pub mod Types
pub mod Std
pub mod Laws
pub mod Storage
pub mod Numerals
pub mod Range
pub mod Sample
