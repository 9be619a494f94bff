-- ===== src/Taxation/Bounds.antt =====
-- `compute_tax` and `deduct_tax` of src/taxation.rs in numbers.
use native.Mathlib.Nat.{div-mul-le_self, div-le_of_le-mul}
use dogether_contracts.Prelude.{
  ℕ, ◌+◌, ◌-◌, ◌*◌, ◌/◌, ◌≤◌, ◌<◌, ◌≡◌, ok, arith, ltb, Outcome-cases, Option-cases, Bool-cases,
  inl, inr,
}
use dogether_contracts.Platform.Types.{Coin, Uint128, Decimal, decimal_one, u128_bound}
use dogether_contracts.Platform.Std.{Std, Querier}
use dogether_contracts.Platform.Laws.{IsDocumented}
use dogether_contracts.Taxation.{min, compute_tax, deduct_tax}

-- What is left of an amount at a rate without a cap, and the tax with the cap.
abbrev pub untaxed : Uint128 → Decimal → Uint128
untaxed amount rate = amount * decimal_one / (rate + decimal_one)

abbrev pub tax : Uint128 → Decimal → Uint128 → Uint128
tax amount rate limit = min (amount - untaxed amount rate) limit

untaxed-cover :
    (amount rate : ℕ)
    → untaxed amount rate * rate + untaxed amount rate * decimal_one ≤ amount * decimal_one
untaxed-cover amount rate =
    omega (arith, div-mul-le_self (amount * decimal_one) (rate + decimal_one))

pub untaxed-le : (amount rate : ℕ) → untaxed amount rate ≤ amount
untaxed-le amount rate = omega (arith, untaxed-cover amount rate)

-- Where `u` is left without a cap, the capped tax on what is left fits into what was taken.
afford :
    (amount rate limit u : ℕ)
    → u * rate + u * decimal_one ≤ amount * decimal_one
    → let left = amount - min (amount - u) limit in
      left + min (left * rate / decimal_one) limit ≤ amount
afford amount rate limit u h = elim (Bool-cases (ltb limit (amount - u))) [
  | inl binds ↦ rw (binds, min) (ground arith)
  | inr free ↦
      let share : u * rate / decimal_one ≤ amount - u =
        div-le_of_le-mul decimal_one (omega arith) in
      let all : amount - (amount - u) ≡ u = omega arith in rw (free, all) (ground arith)
]

module _ (std : Std) (doc : IsDocumented std) (querier : Querier) (coin : Coin) (rate : Decimal)
    (limit : Uint128) (rated : querier.tax_rate ≡ ok rate)
    (capped : querier.tax_cap coin.denom ≡ ok limit) where
  -- The answer, where there is one, is the capped tax.
  compute_tax_value :
      {t : Uint128} → compute_tax std querier coin ≡ ok t → t ≡ tax coin.amount rate limit
  unfolding compute_tax
  compute_tax_value {t} e = elim (Option-cases (std.mul_decimal rate decimal_one)) [
    | inl fails ↦ absurd (ground arith)
    | inr (scaled, c) ↦
        elim (Option-cases (std.multiply_ratio coin.amount decimal_one (scaled + decimal_one))) [
          | inl fails ↦ absurd (ground (arith, doc.add_lem scaled decimal_one))
          | inr (left, d) ↦
              let same : scaled ≡ rate = omega (arith, doc.mul_decimal_value rate decimal_one c) in
              let value : left ≡ untaxed coin.amount rate =
                rw (← same)
                  (doc.multiply_ratio_value coin.amount decimal_one (scaled + decimal_one) d).0 in
              ground (arith, doc.add_lem scaled decimal_one, doc.checked_sub_lem coin.amount left)
        ]
  ]

  -- What is left is the amount less the capped tax, in the same denomination.
  pub deduct_tax_value :
      {left : Coin}
      → deduct_tax std querier coin ≡ ok left
      → (left.denom ≡ coin.denom) × (left.amount + tax coin.amount rate limit ≡ coin.amount)
  unfolding deduct_tax
  deduct_tax_value e = elim (Outcome-cases (compute_tax std querier coin)) [
    | inr fails ↦ absurd (ground arith)
    | inl (t, c) ↦ ground (arith, compute_tax_value c, doc.checked_sub_lem coin.amount t)
  ]

  -- Where the amount and the rate fit 18 decimals in 128 bits, the deduction of the tax succeeds
  -- and takes the tax off: the part of the amount above its untaxed value, at most the limit.
  pub deduct_tax_total :
      coin.amount * decimal_one < u128_bound
      → rate * decimal_one < u128_bound
      → rate + decimal_one < u128_bound
      → deduct_tax std querier coin
        ≡ ok (record { denom = coin.denom; amount = coin.amount - tax coin.amount rate limit })
  unfolding deduct_tax compute_tax
  deduct_tax_total fits fits_rate fits_sum =
      let same : rate * decimal_one / decimal_one ≡ rate = omega arith in
      ground (
        arith,
        same,
        doc.mul_decimal_total rate decimal_one fits_rate,
        doc.add_lem rate decimal_one,
        doc.multiply_ratio_total coin.amount decimal_one (rate + decimal_one) (omega arith) fits,
        doc.checked_sub_lem coin.amount (untaxed coin.amount rate),
        doc.checked_sub_lem coin.amount (tax coin.amount rate limit),
        untaxed-le coin.amount rate,
      )

  -- What the deduction of the tax leaves of a coin, together with the tax on sending it (the rate's
  -- share, at most the limit), is at most the coin.
  pub deduct_tax_affordable :
      {left : Coin}
      → deduct_tax std querier coin ≡ ok left
      → left.amount + min (left.amount * rate / decimal_one) limit ≤ coin.amount
  deduct_tax_affordable {left} e =
      let (_, sum) = deduct_tax_value e in
      let exact : left.amount ≡ coin.amount - tax coin.amount rate limit = omega (arith, sum) in
      rw exact
        (afford coin.amount rate limit (untaxed coin.amount rate) (untaxed-cover coin.amount rate))
