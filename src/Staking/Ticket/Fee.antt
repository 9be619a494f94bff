-- ===== src/Staking/Ticket/Fee.antt =====
-- What a purchase of tickets puts aside for the tax: `handle_get_ticket` of src/user.rs.
use native.Mathlib.Nat.{lt_of_mul-lt-mul_right, lt-mul-div-succ}
use dogether_contracts.Prelude.{
  ℕ, ◌+◌, ◌-◌, ◌*◌, ◌/◌, ◌≤◌, ◌<◌, ◌≡◌, String, ok, arith, Outcome-cases, inl, inr,
}
use dogether_contracts.Platform.Laws.{IsDocumented}
use dogether_contracts.Platform.Std.{Std, Querier, mul_u128}
use dogether_contracts.Platform.Types.{Coin, Decimal, Uint128, decimal_one}
use dogether_contracts.Staking.Msg.{LotteryConfig}
use dogether_contracts.Staking.Ticket.{ticket_cost}
use dogether_contracts.Taxation.{min, deduct_tax}
use dogether_contracts.Taxation.Bounds.{tax, untaxed, untaxed-le, deduct_tax_value}

-- The untaxed part is rounded down by less than one.
untaxed_above :
    (amount rate : ℕ)
    → amount * decimal_one
      < untaxed amount rate * rate + untaxed amount rate * decimal_one + (rate + decimal_one)
untaxed_above amount rate =
    omega (arith, lt-mul-div-succ (amount * decimal_one) {b = rate + decimal_one} (omega arith))

-- What is taken from `x + u` to leave `u` is less than the share of the rate.
taken_short :
    (x u rate : ℕ)
    → (x + u) * decimal_one < u * rate + u * decimal_one + (rate + decimal_one)
    → 2 * decimal_one * (rate + decimal_one) ≤ (x + u) * rate * rate
    → x < (x + u) * rate / decimal_one
taken_short x u rate above large =
    let d = rate + decimal_one in
    let over : x * d < (x + u) * rate + d = omega (arith, above) in
    let scaled : (x + 1) * decimal_one * d < (x + u) * rate * d = omega (arith, over, large) in
    omega (arith, lt_of_mul-lt-mul_right d scaled)

share_short :
    (cost rate : ℕ)
    → 2 * decimal_one * (rate + decimal_one) ≤ cost * rate * rate
    → cost - untaxed cost rate < cost * rate / decimal_one
share_short cost rate large =
    let u = untaxed cost rate in
    let parts : cost - u + u ≡ cost = omega (arith, untaxed-le cost rate) in
    let short : cost - u < (cost - u + u) * rate / decimal_one =
      taken_short (cost - u) u rate (rw parts (untaxed_above cost rate)) (rw parts large) in
    rw parts at short

-- Where the tax on sending the price of the tickets is below the limit, and the price is large
-- against the rate (the price times the square of the rate is at least twice the rate and one),
-- what a purchase puts aside for the tax is less than that tax.
pub ticket_cost_short :
    (std : Std) (doc : IsDocumented std) (querier : Querier) (denom : String)
    (lottery : LotteryConfig) (count : ℕ) (rate : Decimal) (limit cost fee : Uint128)
    → querier.tax_rate ≡ ok rate
    → querier.tax_cap denom ≡ ok limit
    → ticket_cost std querier denom lottery count ≡ ok (cost, fee)
    → 2 * decimal_one * (rate + decimal_one) ≤ cost * rate * rate
    → cost * rate / decimal_one ≤ limit
    → fee < min (cost * rate / decimal_one) limit
unfolding ticket_cost mul_u128
ticket_cost_short std doc querier denom lottery count rate limit cost fee rated capped e large
      uncapped =
    let total = lottery.price_per_ticket_to_register * count in
    let coin : Coin = record { denom = denom; amount = total } in
    elim (Outcome-cases (deduct_tax std querier coin)) [
      | inr fails ↦ absurd (ground arith)
      | inl (left, c) ↦
          let (_, sum) = deduct_tax_value std doc querier coin rate limit rated capped c in
          let whole : cost ≡ total = ground arith in
          let taken : fee ≡ tax total rate limit =
            ground (arith, sum, doc.checked_sub_lem total left.amount) in
          let below : tax total rate limit ≤ total - untaxed total rate = ground arith in
          let large' : 2 * decimal_one * (rate + decimal_one) ≤ total * rate * rate =
            rw whole at large in
          let short : fee < cost * rate / decimal_one =
            rw whole (omega (arith, taken, below, share_short total rate large')) in
          ground (arith, short, uncapped)
    ]
