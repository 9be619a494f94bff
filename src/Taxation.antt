-- ===== src/Taxation.antt =====
-- The stability tax, src/taxation.rs. The dogether contract and the staking contract hold the
-- same file.
pub mod Bounds
mod Examples
use dogether_contracts.Prelude.{ℕ, ◌>>=◌, ltb, if◌then◌else◌, unwrap_option, ok}
use dogether_contracts.Platform.Types.{Uint128, Coin, decimal_one}
use dogether_contracts.Platform.Std.{Std, StdResult, Querier}

abbrev pub decimal_fraction : Uint128
decimal_fraction = decimal_one

-- `std::cmp::min`
abbrev pub min : ℕ → ℕ → ℕ
min a b = if ltb b a then b else a

module _ (std : Std) (querier : Querier) where
  unfoldable pub compute_tax : Coin → StdResult Uint128
  compute_tax coin = do
    tax_rate ← querier.tax_rate
    tax_cap ← querier.tax_cap coin.denom
    scaled ← unwrap_option (std.mul_decimal tax_rate decimal_fraction)
    denominator ← unwrap_option (std.add scaled decimal_fraction)
    untaxed ← unwrap_option (std.multiply_ratio coin.amount decimal_fraction denominator)
    tax ← std.checked_sub coin.amount untaxed
    ok (min tax tax_cap)

  unfoldable pub deduct_tax : Coin → StdResult Coin
  unfolding compute_tax
  deduct_tax coin = do
    tax_amount ← compute_tax coin
    amount ← std.checked_sub coin.amount tax_amount
    ok (record { denom = coin.denom; amount = amount })
