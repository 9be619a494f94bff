-- ===== src/Platform/Std.antt =====
-- The services of cosmwasm_std, cosmwasm_bignumber, terra_cosmwasm and cw20 that the contracts
-- call. They are parameters: the repository does not hold their code. `none` stands for a panic.
use dogether_contracts.Prelude.{
  ℕ, String, Bool, Option, none, some, Outcome, ok, err, panic, ◌+◌, ◌*◌, ltb, if◌then◌else◌,
}
use dogether_contracts.Platform.Types.{
  Uint128, Decimal, Decimal256, Addr, CanonicalAddr, StdError, not_found, Coin, BlockInfo,
  Expiration, u64_bound, u128_bound,
}

abbrev pub StdResult : Type 0 → Type 0
StdResult A = Outcome StdError A

pub record Std : Type 0 where
  -- `Api`
  pub addr_canonicalize : String → StdResult CanonicalAddr
  pub addr_humanize : CanonicalAddr → StdResult Addr
  pub addr_validate : String → StdResult Addr
  -- `Uint128`: the checked operations, the operator `+`, `multiply_ratio`, the text form
  pub checked_add : Uint128 → Uint128 → StdResult Uint128
  pub checked_sub : Uint128 → Uint128 → StdResult Uint128
  pub add : Uint128 → Uint128 → Option Uint128
  pub multiply_ratio : Uint128 → Uint128 → Uint128 → Option Uint128
  pub to_string : ℕ → String
  -- `Decimal`: `from_ratio`, and the operator `*` of a decimal and a `Uint128`
  pub from_ratio : Uint128 → Uint128 → Option Decimal
  pub mul_decimal : Decimal → Uint128 → Option Uint128
  -- `Decimal256`: the conversions, the operators, `from_ratio`
  pub to_decimal256 : Decimal → Decimal256
  pub to_decimal : Decimal256 → Option Decimal
  pub add_256 : Decimal256 → Decimal256 → Option Decimal256
  pub sub_256 : Decimal256 → Decimal256 → Option Decimal256
  pub mul_256 : Decimal256 → Decimal256 → Option Decimal256
  pub from_ratio_256 : ℕ → ℕ → Option Decimal256
  -- `Expiration::is_expired`
  pub is_expired : Expiration → BlockInfo → Bool

-- What the chain and the other contracts answer during one call.
pub record Querier : Type 0 where
  pub tax_rate : StdResult Decimal
  pub tax_cap : String → StdResult Uint128
  pub balance : Addr → String → StdResult Coin

-- `Item::load`
abbrev pub load : {A : Type 0} → Option A → StdResult A
load none = err (not_found "item")
load (some a) = ok a

-- The operators `+` of a `u64` and `*` of a `u128`, under `overflow-checks`.
unfoldable pub add_u64 : {E : Type 0} → ℕ → ℕ → Outcome E ℕ
add_u64 a b = if ltb (a + b) u64_bound then ok (a + b) else panic

unfoldable pub mul_u128 : {E : Type 0} → ℕ → ℕ → Outcome E ℕ
mul_u128 a b = if ltb (a * b) u128_bound then ok (a * b) else panic
