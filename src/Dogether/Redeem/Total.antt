-- ===== src/Dogether/Redeem/Total.antt =====
-- When `try_redeem_earning` of src/contract.rs succeeds.
use native.Mathlib.Nat.{div-le_of_le-mul}
use dogether_contracts.Prelude.{
  ℕ, ◌+◌, ◌-◌, ◌*◌, ◌/◌, ◌≤◌, ◌<◌, ◌≡◌, some, [], ok, arith, Outcome-cases, inl, inr,
}
use dogether_contracts.Platform.Laws.{IsDocumented, product_fits}
use dogether_contracts.Platform.Std.{Std, Querier, add_u64}
use dogether_contracts.Platform.Types.{
  Addr, Coin, Decimal, Env, MessageInfo, Response, Uint128, decimal_one, u64_bound, u128_bound,
}
use dogether_contracts.Dogether.Math.{decimal_multiplication_in_256, decimal_subtraction_in_256}
use dogether_contracts.Dogether.Msg.{EpochStateResponse, Market, Payload}
use dogether_contracts.Dogether.Redeem.{or_else, interest_accrued, to_aust, try_redeem_earning}
use dogether_contracts.Dogether.Redeem.Interest.{scaled_worth}
use dogether_contracts.Dogether.State.{Config, State, Storage}
use dogether_contracts.Taxation.Bounds.{tax, deduct_tax_total}

module _ (std : Std) (doc : IsDocumented std) where
  interest_accrued_total :
      (pool held rate : ℕ)
      → pool * decimal_one ≤ held * rate
      → held * rate < u128_bound
      → held * decimal_one < u128_bound
      → rate < u128_bound
      → interest_accrued std pool held rate ≡ ok (held * rate - pool * decimal_one)
  unfolding interest_accrued decimal_multiplication_in_256 decimal_subtraction_in_256
  interest_accrued_total pool held rate covered worth small_held small_rate =
      let unit_pool : pool * decimal_one / 1 ≡ pool * decimal_one = omega arith in
      let unit_held : held * decimal_one / 1 ≡ held * decimal_one = omega arith in
      ground (
        arith,
        unit_pool,
        doc.from_ratio_total pool 1 (omega arith) (omega arith),
        doc.from_ratio_total held 1 (omega arith) small_held,
        doc.to_decimal_lem rate,
        doc.to_decimal256_lem rate,
        doc.to_decimal256_lem (held * decimal_one / 1),
        doc.mul_256_lem rate (held * decimal_one / 1),
        product_fits rate (held * decimal_one / 1) small_rate (rw unit_held small_held),
        scaled_worth held rate,
        doc.to_decimal_lem (held * rate),
        doc.to_decimal256_lem (held * rate),
        doc.to_decimal256_lem (pool * decimal_one),
        doc.sub_256_lem (held * rate) (pool * decimal_one),
        doc.to_decimal_lem (held * rate - pool * decimal_one),
      )

  pub to_aust_total :
      (ust rate : ℕ)
      → 0 < rate
      → ust < u128_bound
      → ust * decimal_one / rate < u128_bound
      → to_aust std ust rate ≡ ok (ust * decimal_one / rate * 1 / decimal_one)
  unfolding to_aust
  to_aust_total ust rate positive small_ust small_aust = ground (
    arith,
    doc.to_decimal256_lem ust,
    doc.from_ratio_256_total ust rate positive (omega arith),
    doc.to_decimal_lem (ust * decimal_one / rate),
    doc.mul_decimal_total (ust * decimal_one / rate) 1 (omega arith),
  )

module _ (std : Std) (doc : IsDocumented std) (querier : Querier) (market : Market)
    (storage : Storage) (s : State) (config : Config) (env : Env) (info : MessageInfo)
    (loaded : storage.state ≡ some s) (configured : storage.config ≡ some config) where
  -- A redemption of the earnings succeeds where no coins are sent, the draw is due, the addresses
  -- have a human form, the market, the bank and the tax are answered, the rate is positive, the
  -- aUST balance is worth at least the pool, and the numbers fit their integers.
  pub try_redeem_earning_total :
      (money_market aust staking : Addr) (res : EpochStateResponse) (held : Uint128) (coin : Coin)
      (tax_rate : Decimal) (limit : Uint128)
      → info.funds ≡ []
      → s.next_draw ≤ env.block.time
      → s.next_draw + s.draw_period < u64_bound
      → std.addr_humanize config.money_market_address ≡ ok money_market
      → std.addr_humanize config.anchor_aust_address ≡ ok aust
      → std.addr_humanize s.staking_address ≡ ok staking
      → market.epoch money_market ≡ ok res
      → market.aust_balance aust env.contract_address ≡ ok held
      → querier.balance env.contract_address config.denom ≡ ok coin
      → querier.tax_rate ≡ ok tax_rate
      → querier.tax_cap config.denom ≡ ok limit
      → 0 < res.exchange_rate
      → res.exchange_rate < u128_bound
      → tax_rate * decimal_one < u128_bound
      → tax_rate + decimal_one < u128_bound
      → s.total_ust_pool * decimal_one ≤ held * res.exchange_rate
      → held * decimal_one < u128_bound
      → held * res.exchange_rate + coin.amount * decimal_one < u128_bound
      → (storage' : Storage) × (r : Response Payload) × (try_redeem_earning std querier market
            storage env info
          ≡ ok (storage', r))
  unfolding try_redeem_earning add_u64
  try_redeem_earning_total money_market aust staking res held coin tax_rate limit unfunded due
        period human_market human_aust human_staking epoch balance_aust balance rated capped
        positive small_rate small_tax small_sum covered small_held small_worth =
      let rate = res.exchange_rate in
      let i = held * rate - s.total_ust_pool * decimal_one in
      let small_i : i < u128_bound = omega arith in
      let accrued =
        interest_accrued_total std doc s.total_ust_pool held rate covered (omega arith) small_held
          small_rate in
      let aust_fits : i * decimal_one / rate ≤ held * decimal_one =
        div-le_of_le-mul rate (omega arith) in
      let sent_back = to_aust_total std doc i rate positive small_i (omega (arith, aust_fits)) in
      let whole = i * 1 / decimal_one in
      let whole_fits : whole * decimal_one ≤ i = omega arith in
      let net = whole - tax whole tax_rate limit in
      let first =
        deduct_tax_total std doc querier (record { denom = config.denom; amount = whole }) tax_rate
          limit rated capped (omega (arith, whole_fits)) small_tax small_sum in
      let sum : or_else (std.checked_add net coin.amount) net ≡ net + coin.amount =
        rw (doc.checked_add_lem net coin.amount) (ground (arith, whole_fits)) in
      let second =
        deduct_tax_total std doc querier
          (record { denom = config.denom; amount = net + coin.amount }) tax_rate limit rated capped
          (omega (arith, whole_fits)) small_tax small_sum in
      elim (Outcome-cases (try_redeem_earning std querier market storage env info)) [
        | inl ((storage', r), e) ↦ (storage', r, e)
        | inr fails ↦
            absurd
              (ground (arith, accrued, sent_back, doc.mul_decimal_total i 1, first, sum, second))
      ]
