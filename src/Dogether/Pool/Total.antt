-- ===== src/Dogether/Pool/Total.antt =====
-- When `try_pool` of src/contract.rs succeeds, and with what.
use dogether_contracts.Prelude.{
  ◌+◌, ◌-◌, ◌*◌, ◌<◌, ◌≡◌, some, [], ◌∷◌, ok, arith, string_eq, beq_self,
}
use dogether_contracts.Platform.Laws.{IsDocumented}
use dogether_contracts.Platform.Std.{Std, Querier}
use dogether_contracts.Platform.Types.{
  Addr, Binary, Coin, Decimal, MessageInfo, Uint128, decimal_one, message, u128_bound, wasm_execute,
}
use dogether_contracts.Dogether.Msg.{anchor, bond, deposit_stable}
use dogether_contracts.Dogether.Pool.{sent_funds, try_pool}
use dogether_contracts.Dogether.State.{Config, State, Storage, store_state}
use dogether_contracts.Staking.Msg.{Codec, bond_stake}
use dogether_contracts.Taxation.Bounds.{tax, deduct_tax_total}

module _ (std : Std) (doc : IsDocumented std) (querier : Querier) (codec : Codec)
    (storage : Storage) (s : State) (config : Config) (loaded : storage.state ≡ some s)
    (configured : storage.config ≡ some config) where
  pub try_pool_total :
      (info : MessageInfo) (amount : Uint128) (money_market cw20 staking : Addr) (msg : Binary)
      (tax_rate : Decimal) (limit : Uint128)
      → info.funds ≡ record { denom = config.denom; amount = amount } ∷ []
      → std.addr_humanize config.money_market_address ≡ ok money_market
      → std.addr_humanize s.staking_address ≡ ok staking
      → std.addr_humanize s.cw20_address ≡ ok cw20
      → codec.to_binary bond_stake ≡ ok msg
      → querier.tax_rate ≡ ok tax_rate
      → querier.tax_cap config.denom ≡ ok limit
      → amount * decimal_one < u128_bound
      → tax_rate * decimal_one < u128_bound
      → tax_rate + decimal_one < u128_bound
      → s.total_ust_pool + amount < u128_bound
      → let net = amount - tax amount tax_rate limit in
        try_pool std querier codec storage info
        ≡ ok (
          store_state storage (record s { total_ust_pool = s.total_ust_pool + net }),
          record {
            messages =
                message (
                  wasm_execute money_market
                    (anchor deposit_stable)
                    (record { denom = config.denom; amount = net } ∷ []))
                ∷ message (wasm_execute cw20 (bond staking net msg info.sender) [])
                ∷ [];
            attributes = [];
          },
        )
  unfolding try_pool sent_funds
  try_pool_total info amount money_market cw20 staking msg tax_rate limit funds human_market
        human_staking human_cw20 encoded rated capped small small_tax small_sum room =
      let coin : Coin = record { denom = config.denom; amount = amount } in
      let deducted =
        deduct_tax_total std doc querier coin tax_rate limit rated capped small small_tax
          small_sum in
      let net = amount - tax amount tax_rate limit in
      ground (arith, deducted, beq_self config.denom, doc.checked_add_lem s.total_ust_pool net)
