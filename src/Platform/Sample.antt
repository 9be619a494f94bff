-- ===== src/Platform/Sample.antt =====
-- A concrete platform, which shows that the documented behaviour can be met. Addresses are
-- canonicalised to their characters, and every address is valid.
use Prim.Native.Char.{code}
use Prim.Native.String.{String}
use native.Mathlib.Nat.{div-le_self}
use dogether_contracts.Prelude.{
  ℕ, ◌+◌, ◌-◌, ◌*◌, ◌/◌, ◌<◌, ◌≡◌, refl, Bool, false, Option, none, some, List, [], ◌∷◌, arith, ltb,
  leb, if◌then◌else◌, ok, err, zero, suc, list_beq, nat_eq,
}
use dogether_contracts.Platform.Types.{
  CanonicalAddr, u128_bound, u256_bound, decimal_one, overflow, BlockInfo, Expiration, at_height,
  at_time, never, other_error,
}
use dogether_contracts.Platform.Std.{Std, StdResult, Querier}
use dogether_contracts.Platform.Numerals.{print, parse_u128-print}
use dogether_contracts.Platform.Laws.{IsDocumented}

abbrev bounded : ℕ → ℕ → Option ℕ
bounded bound x = if ltb x bound then some x else none

abbrev divided : ℕ → ℕ → ℕ → Option ℕ
divided bound x zero = none
divided bound x (suc d) = bounded bound (x / suc d)

abbrev codes : String → List ℕ
codes String.[] = []
codes (String.◌∷◌ c s) = code c ∷ codes s

-- The human addresses of the sample chain.
abbrev directory : List String
directory =
    "admin" ∷ "alice" ∷ "bob" ∷ "token" ∷ "staking" ∷ "loterra" ∷ "money" ∷ "aust" ∷ "pool" ∷ "cw20"
    ∷ []

abbrev humanize : CanonicalAddr → List String → StdResult String
humanize raw [] = err (other_error "unknown address")
humanize raw (name ∷ names) = if list_beq (codes name) raw then ok name else humanize raw names

abbrev expired : Expiration → BlockInfo → Bool
expired (at_height h) block = leb h block.height
expired (at_time t) block = leb t block.time
expired never block = false

abbrev pub sample_std : Std
sample_std = record {
  addr_canonicalize = λ s. ok (codes s);
  addr_humanize = λ raw. humanize raw directory;
  addr_validate = λ s. ok s;
  checked_add = λ a b. if ltb (a + b) u128_bound then ok (a + b) else err overflow;
  checked_sub = λ a b. if ltb a b then err overflow else ok (a - b);
  add = λ a b. bounded u128_bound (a + b);
  multiply_ratio = λ a n d. divided u128_bound (a * n) d;
  to_string = print;
  from_ratio = λ n d. divided u128_bound (n * decimal_one) d;
  mul_decimal = λ x n. divided u128_bound (x * n) decimal_one;
  to_decimal256 = λ x. x;
  to_decimal = bounded u128_bound;
  add_256 = λ x y. bounded u256_bound (x + y);
  sub_256 = λ x y. if ltb x y then none else some (x - y);
  mul_256 = λ x y. if ltb (x * y) u256_bound then some (x * y / decimal_one) else none;
  from_ratio_256 = λ n d. divided u256_bound (n * decimal_one) d;
  is_expired = expired;
}

divided_value : (bound x d : ℕ) {r : ℕ} → divided bound x d ≡ some r → (r ≡ x / d) × (0 < d)
divided_value bound x zero h = absurd (cc)
divided_value bound x (suc d) h = ground arith

divided_total : (bound x d : ℕ) → 0 < d → x < bound → divided bound x d ≡ some (x / d)
divided_total bound x zero p h = elim p [ ]
divided_total bound x (suc d) p h = ground (arith, div-le_self x (suc d))

ok_injective : {a b : String} → ◌≡◌ {A = StdResult String} (ok a) (ok b) → b ≡ a
ok_injective e = ground arith

pub sample-IsDocumented : IsDocumented sample_std
sample-IsDocumented = record {
  addr_validate_value = λ s e. ok_injective e;
  checked_add_lem = λ a b. refl;
  checked_sub_lem = λ a b. refl;
  add_lem = λ a b. refl;
  multiply_ratio_value = λ a n d h. divided_value u128_bound (a * n) d h;
  multiply_ratio_total = λ a n d p h. divided_total u128_bound (a * n) d p h;
  from_ratio_value = λ n d h. divided_value u128_bound (n * decimal_one) d h;
  from_ratio_total = λ n d p h. divided_total u128_bound (n * decimal_one) d p h;
  mul_decimal_value = λ x n h. (divided_value u128_bound (x * n) decimal_one h).0;
  mul_decimal_total = λ x n h. divided_total u128_bound (x * n) decimal_one (omega arith) h;
  to_decimal256_lem = λ x. refl;
  to_decimal_lem = λ x. refl;
  add_256_lem = λ x y. refl;
  sub_256_lem = λ x y. refl;
  mul_256_lem = λ x y. refl;
  from_ratio_256_value = λ n d h. divided_value u256_bound (n * decimal_one) d h;
  from_ratio_256_total = λ n d p h. divided_total u256_bound (n * decimal_one) d p h;
  is_expired_at_height = λ h block. refl;
  to_string_lem = parse_u128-print;
}

-- A stability tax of 0.1 percent, at most 1,000,000 of any coin.
abbrev pub sample_querier : Querier
sample_querier = record {
  tax_rate = ok 1_000_000_000_000_000;
  tax_cap = λ denom. ok 1_000_000;
  balance = λ addr denom. ok (record { denom = denom; amount = 5_000 });
}
