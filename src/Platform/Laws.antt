-- ===== src/Platform/Laws.antt =====
-- The documented behaviour of the services that the proofs rely on. A partial operation has a
-- law for its result where it gives one and a law that it gives one where nothing overflows.
use native.Mathlib.Nat.{mul-le-mul}
use dogether_contracts.Prelude.{
  ℕ, ◌+◌, ◌-◌, ◌*◌, ◌/◌, ◌<◌, ◌≤◌, ◌≡◌, arith, none, some, String, ok, err, ltb, leb, if◌then◌else◌,
  parse_u128,
}
use dogether_contracts.Platform.Types.{
  u128_bound, u256_bound, decimal_one, Addr, overflow, BlockInfo, at_height,
}
use dogether_contracts.Platform.Std.{Std}

-- The product of two numbers of 128 bits never overflows 256 bits.
pub product_fits : (d e : ℕ) → d < u128_bound → e < u128_bound → d * e < u256_bound
product_fits d e p q =
    let largest : ℕ = u128_bound - 1 in
    let low : d * e ≤ largest * largest =
      mul-le-mul {n₂ = largest} {m₂ = largest} (omega arith) (omega arith) in
    omega arith

pub record IsDocumented (std : Std) : Type 0 where
  pub addr_validate_value : (s : String) {a : Addr} → std.addr_validate s ≡ ok a → a ≡ s
  pub checked_add_lem :
      (a b : ℕ)
      → std.checked_add a b ≡ (if ltb (a + b) u128_bound then ok (a + b) else err overflow)
  pub checked_sub_lem :
      (a b : ℕ) → std.checked_sub a b ≡ (if ltb a b then err overflow else ok (a - b))
  pub add_lem : (a b : ℕ) → std.add a b ≡ (if ltb (a + b) u128_bound then some (a + b) else none)
  pub multiply_ratio_value :
      (a n d : ℕ) {r : ℕ} → std.multiply_ratio a n d ≡ some r → (r ≡ a * n / d) × (0 < d)
  pub multiply_ratio_total :
      (a n d : ℕ) → 0 < d → a * n < u128_bound → std.multiply_ratio a n d ≡ some (a * n / d)
  pub from_ratio_value :
      (n d : ℕ) {r : ℕ} → std.from_ratio n d ≡ some r → (r ≡ n * decimal_one / d) × (0 < d)
  pub from_ratio_total :
      (n d : ℕ)
      → 0 < d
      → n * decimal_one < u128_bound
      → std.from_ratio n d ≡ some (n * decimal_one / d)
  pub mul_decimal_value : (x n : ℕ) {r : ℕ} → std.mul_decimal x n ≡ some r → r ≡ x * n / decimal_one
  pub mul_decimal_total :
      (x n : ℕ) → x * n < u128_bound → std.mul_decimal x n ≡ some (x * n / decimal_one)
  pub to_decimal256_lem : (x : ℕ) → std.to_decimal256 x ≡ x
  pub to_decimal_lem : (x : ℕ) → std.to_decimal x ≡ (if ltb x u128_bound then some x else none)
  pub add_256_lem :
      (x y : ℕ) → std.add_256 x y ≡ (if ltb (x + y) u256_bound then some (x + y) else none)
  pub sub_256_lem : (x y : ℕ) → std.sub_256 x y ≡ (if ltb x y then none else some (x - y))
  pub mul_256_lem :
      (x y : ℕ)
      → std.mul_256 x y ≡ (if ltb (x * y) u256_bound then some (x * y / decimal_one) else none)
  pub from_ratio_256_value :
      (n d : ℕ) {r : ℕ} → std.from_ratio_256 n d ≡ some r → (r ≡ n * decimal_one / d) × (0 < d)
  pub from_ratio_256_total :
      (n d : ℕ)
      → 0 < d
      → n * decimal_one < u256_bound
      → std.from_ratio_256 n d ≡ some (n * decimal_one / d)
  pub is_expired_at_height :
      (h : ℕ) (block : BlockInfo) → std.is_expired (at_height h) block ≡ leb h block.height
  pub to_string_lem : (n : ℕ) → n < u128_bound → parse_u128 (std.to_string n) ≡ some n
