-- ===== src/Staking/Math.antt =====
-- Decimal arithmetic through 256 bits: src/math.rs of the staking contract.
use dogether_contracts.Prelude.{
  ◌+◌, ◌-◌, ◌*◌, ◌/◌, ◌≡◌, Outcome, ok, panic, arith, ltb, if◌then◌else◌, ◌>>=◌, unwrap_option,
}
use dogether_contracts.Platform.Types.{Decimal, u128_bound, u256_bound, decimal_one}
use dogether_contracts.Platform.Std.{Std}
use dogether_contracts.Platform.Laws.{IsDocumented}

module _ (std : Std) where
  -- return a * b
  unfoldable pub decimal_multiplication_in_256 :
      {E : Type 0} → Decimal → Decimal → Outcome E Decimal
  decimal_multiplication_in_256 a b = do
    let a_u256 = std.to_decimal256 a
    let b_u256 = std.to_decimal256 b
    c_u256 ← unwrap_option (std.mul_256 b_u256 a_u256)
    unwrap_option (std.to_decimal c_u256)

  -- return a + b
  unfoldable pub decimal_summation_in_256 : {E : Type 0} → Decimal → Decimal → Outcome E Decimal
  decimal_summation_in_256 a b = do
    let a_u256 = std.to_decimal256 a
    let b_u256 = std.to_decimal256 b
    c_u256 ← unwrap_option (std.add_256 b_u256 a_u256)
    unwrap_option (std.to_decimal c_u256)

  -- return a - b
  unfoldable pub decimal_subtraction_in_256 : {E : Type 0} → Decimal → Decimal → Outcome E Decimal
  decimal_subtraction_in_256 a b = do
    let a_u256 = std.to_decimal256 a
    let b_u256 = std.to_decimal256 b
    c_u256 ← unwrap_option (std.sub_256 a_u256 b_u256)
    unwrap_option (std.to_decimal c_u256)

module _ (std : Std) (doc : IsDocumented std) {E : Type 0} (a b : Decimal) where
  -- The product is cut to 18 digits, and panics where it overflows 256 bits or a `Decimal`.
  pub multiplication_lem : decimal_multiplication_in_256 std {E = E} a b ≡ (
      if ltb (b * a) u256_bound
      then (if ltb (b * a / decimal_one) u128_bound then ok (b * a / decimal_one) else panic)
      else panic)
  unfolding decimal_multiplication_in_256
  multiplication_lem = ground (
    arith,
    doc.to_decimal256_lem a,
    doc.to_decimal256_lem b,
    doc.mul_256_lem b a,
    doc.to_decimal_lem (b * a / decimal_one),
  )

  -- The sum panics where a `Decimal` cannot hold it.
  pub summation_lem :
      decimal_summation_in_256 std {E = E} a b
      ≡ (if ltb (a + b) u128_bound then ok (a + b) else panic)
  unfolding decimal_summation_in_256
  summation_lem = ground (
    arith,
    doc.to_decimal256_lem a,
    doc.to_decimal256_lem b,
    doc.add_256_lem b a,
    doc.to_decimal_lem (b + a),
  )

  -- The difference panics where it would be negative.
  pub subtraction_lem :
      decimal_subtraction_in_256 std {E = E} a b
      ≡ (if ltb a b then panic else if ltb (a - b) u128_bound then ok (a - b) else panic)
  unfolding decimal_subtraction_in_256
  subtraction_lem = ground (
    arith,
    doc.to_decimal256_lem a,
    doc.to_decimal256_lem b,
    doc.sub_256_lem a b,
    doc.to_decimal_lem (a - b),
  )
