-- ===== src/Dogether/Math.antt =====
-- Decimal arithmetic through 256 bits: src/math.rs of the dogether contract.
use dogether_contracts.Prelude.{Outcome, ◌>>=◌, unwrap_option}
use dogether_contracts.Platform.Types.{Decimal}
use dogether_contracts.Platform.Std.{Std}

module _ (std : Std) where
  -- return a * b
  unfoldable pub decimal_multiplication_in_256 :
      {E : Type 0} → Decimal → Decimal → Outcome E Decimal
  decimal_multiplication_in_256 a b = do
    let a_u256 = std.to_decimal256 a
    let b_u256 = std.to_decimal256 b
    c_u256 ← unwrap_option (std.mul_256 b_u256 a_u256)
    unwrap_option (std.to_decimal c_u256)

  -- return a - b
  unfoldable pub decimal_subtraction_in_256 : {E : Type 0} → Decimal → Decimal → Outcome E Decimal
  decimal_subtraction_in_256 a b = do
    let a_u256 = std.to_decimal256 a
    let b_u256 = std.to_decimal256 b
    c_u256 ← unwrap_option (std.sub_256 a_u256 b_u256)
    unwrap_option (std.to_decimal c_u256)
