-- ===== src/Dogether/Reply/Total.antt =====
-- When `withdraw_reply` of src/contract.rs succeeds.
use dogether_contracts.Prelude.{
  ◌+◌, ◌-◌, ◌*◌, ◌/◌, ◌≤◌, ◌<◌, ◌≡◌, String, some, List, ok, arith, parse_u128, Outcome-cases, inl,
  inr,
}
use dogether_contracts.Platform.Laws.{IsDocumented}
use dogether_contracts.Platform.Std.{Std, Querier}
use dogether_contracts.Platform.Types.{Addr, Decimal, Response, Uint128, decimal_one, u128_bound}
use dogether_contracts.Dogether.Msg.{EpochStateResponse, Event, Market, Payload, success}
use dogether_contracts.Dogether.Redeem.Total.{to_aust_total}
use dogether_contracts.Dogether.Reply.{find_event, find_value, withdraw_reply}
use dogether_contracts.Dogether.State.{Config, State, Storage}
use dogether_contracts.Taxation.Bounds.{tax, deduct_tax_total}

module _ (std : Std) (doc : IsDocumented std) (querier : Querier) (market : Market)
    (storage : Storage) (s : State) (config : Config) (loaded : storage.state ≡ some s)
    (configured : storage.config ≡ some config) where
  pub withdraw_reply_total :
      (events : List Event) (event : Event) (text to : String) (amount : Uint128)
      (money_market aust : Addr) (res : EpochStateResponse) (tax_rate : Decimal) (limit : Uint128)
      → find_event "wasm" events ≡ some event
      → find_value "withdraw" event.attributes ≡ some text
      → find_value "recipient" event.attributes ≡ some to
      → parse_u128 text ≡ some amount
      → std.addr_humanize config.money_market_address ≡ ok money_market
      → std.addr_humanize config.anchor_aust_address ≡ ok aust
      → market.epoch money_market ≡ ok res
      → querier.tax_rate ≡ ok tax_rate
      → querier.tax_cap config.denom ≡ ok limit
      → 0 < res.exchange_rate
      → amount * decimal_one < u128_bound
      → amount * decimal_one * decimal_one / res.exchange_rate < u128_bound
      → tax_rate * decimal_one < u128_bound
      → tax_rate + decimal_one < u128_bound
      → amount ≤ s.total_ust_pool
      → (storage' : Storage) × (r : Response Payload) × (withdraw_reply std querier market storage
            (success events)
          ≡ ok (storage', r))
  unfolding withdraw_reply
  withdraw_reply_total events event text to amount money_market aust res tax_rate limit found says
        names parsed human_market human_aust epoch rated capped positive small small_aust small_tax
        small_sum covered =
      let unit : amount * decimal_one / 1 ≡ amount * decimal_one = omega arith in
      let sent_back =
        to_aust_total std doc (amount * decimal_one) res.exchange_rate positive small small_aust in
      let first =
        deduct_tax_total std doc querier (record { denom = config.denom; amount = amount }) tax_rate
          limit rated capped small small_tax small_sum in
      let grown = amount - tax amount tax_rate limit in
      let second =
        deduct_tax_total std doc querier (record { denom = config.denom; amount = grown }) tax_rate
          limit rated capped (omega (arith, small)) small_tax small_sum in
      elim (Outcome-cases (withdraw_reply std querier market storage (success events))) [
        | inl ((storage', r), e) ↦ (storage', r, e)
        | inr fails ↦ absurd (
            ground (
              arith,
              unit,
              doc.from_ratio_total amount 1,
              sent_back,
              doc.checked_sub_lem s.total_ust_pool amount,
              first,
              second,
            ))
      ]
