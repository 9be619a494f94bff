-- ===== src/Dogether/Redeem/Interest.antt =====
-- The arithmetic of `try_redeem_earning` of src/contract.rs: the interest, the aUST that are sent
-- back, and what is left.
use native.Mathlib.Nat.{div-mul-le_self, mul-div_cancel, mul-le-mul_right}
use dogether_contracts.Prelude.{
  ℕ, ◌+◌, ◌-◌, ◌*◌, ◌/◌, ◌≤◌, ◌≡◌, refl, some, [], ◌∷◌, List, sum_by, length, ◌==◌, true, ok, arith,
  Outcome-cases, Option-cases, inl, inr,
}
use dogether_contracts.Platform.Types.{
  Addr, Uint128, Decimal256, Coin, Env, MessageInfo, Response, CosmosMsg, SubMsg, wasm_instantiate,
  bank_send, wasm_execute, decimal_one,
}
use dogether_contracts.Platform.Std.{Std, Querier, add_u64}
use dogether_contracts.Platform.Laws.{IsDocumented}
use dogether_contracts.Dogether.Math.{decimal_multiplication_in_256, decimal_subtraction_in_256}
use dogether_contracts.Dogether.Msg.{Payload, send, staking, Market, EpochStateResponse}
use dogether_contracts.Dogether.Redeem.{interest_accrued, to_aust, try_redeem_earning}
use dogether_contracts.Dogether.State.{Config, State, Storage}

pub scaled_worth : (aust rate : ℕ) → rate * (aust * decimal_one / 1) / decimal_one ≡ aust * rate
scaled_worth aust rate =
    let unit : rate * (aust * decimal_one / 1) ≡ aust * rate * decimal_one =
      let one : aust * decimal_one / 1 ≡ aust * decimal_one = omega arith in rw one (omega arith) in
    rw unit (mul-div_cancel (aust * rate) (omega arith))

-- The whole aUST of an amount are worth at most the amount.
whole_worth : (ust rate : ℕ) → ust * decimal_one / rate * 1 / decimal_one * rate ≤ ust
whole_worth ust rate =
    let q = ust * decimal_one / rate in
    let w = q * 1 / decimal_one in
    let whole : w * decimal_one ≤ q = omega arith in
    omega (arith, mul-le-mul_right rate whole, div-mul-le_self (ust * decimal_one) rate)

module _ (std : Std) (doc : IsDocumented std) where
  pub interest_accrued_value :
      (pool aust rate : ℕ) {i : ℕ}
      → interest_accrued std pool aust rate ≡ ok i
      → i + pool * decimal_one ≡ aust * rate
  unfolding interest_accrued decimal_multiplication_in_256 decimal_subtraction_in_256
  interest_accrued_value pool aust rate e = elim (Option-cases (std.from_ratio pool 1)) [
    | inl fails ↦ absurd (ground arith)
    | inr (p, c) ↦ elim (Option-cases (std.from_ratio aust 1)) [
      | inl fails ↦ absurd (ground arith)
      | inr (a, d) ↦
          let pv : p ≡ pool * decimal_one = omega (arith, doc.from_ratio_value pool 1 c) in
          let av : a ≡ aust * decimal_one / 1 = omega (arith, doc.from_ratio_value aust 1 d) in
          ground (
            arith,
            pv,
            av,
            doc.to_decimal_lem rate,
            doc.to_decimal256_lem rate,
            doc.to_decimal256_lem a,
            doc.mul_256_lem rate a,
            scaled_worth aust rate,
            doc.to_decimal_lem (aust * rate),
            doc.to_decimal256_lem (aust * rate),
            doc.to_decimal256_lem p,
            doc.sub_256_lem (aust * rate) p,
            doc.to_decimal_lem (aust * rate - p),
          )
    ]
  ]

  pub to_aust_worth : (ust rate : ℕ) {w : ℕ} → to_aust std ust rate ≡ ok w → w * rate ≤ ust
  unfolding to_aust
  to_aust_worth ust rate {w} e =
      elim (Option-cases (std.from_ratio_256 (std.to_decimal256 ust) rate)) [
        | inl fails ↦ absurd (ground arith)
        | inr (a, c) ↦ elim (Option-cases (std.mul_decimal a 1)) [
          | inl fails ↦ absurd (ground (arith, doc.to_decimal_lem a))
          | inr (b, d) ↦
              let av : a ≡ ust * decimal_one / rate = ground (
                arith,
                doc.to_decimal256_lem ust,
                doc.from_ratio_256_value (std.to_decimal256 ust) rate c,
              ) in
              let wv : w ≡ a * 1 / decimal_one =
                ground (arith, doc.to_decimal_lem a, doc.mul_decimal_value a 1 d) in
              rw (wv, av) (whole_worth ust rate)
        ]
      ]

-- The aUST that the messages of a call send back to the money market.
abbrev pub redeemed_by_payload : Payload → ℕ
redeemed_by_payload (send contract amount msg) = amount
redeemed_by_payload (Payload.anchor msg) = 0
redeemed_by_payload (Payload.bond contract amount msg recipient) = 0
redeemed_by_payload (staking msg) = 0
redeemed_by_payload (Payload.instantiate_cw20 msg) = 0
redeemed_by_payload (Payload.instantiate_staking msg) = 0

abbrev pub redeemed_by : CosmosMsg Payload → ℕ
redeemed_by (wasm_execute contract payload funds) = redeemed_by_payload payload
redeemed_by (wasm_instantiate admin code payload funds label) = 0
redeemed_by (bank_send to amount) = 0

abbrev pub redeemed : List (SubMsg Payload) → ℕ
redeemed = sum_by (λ m. redeemed_by m.msg)

-- A redemption at the rate of the epoch, with `aust_balance` aUST at hand: nothing was sent with
-- the call, the draw is due, the next draw moves by the period and nothing else is written. The
-- aUST that are sent back are worth no more than the interest, so that what remains covers the
-- pool.
pub record HasRedeemed (storage : Storage) (s : State) (env : Env) (info : MessageInfo)
    (aust_balance : Uint128) (rate : Decimal256) (storage' : Storage) (r : Response Payload)
    : Type 0 where
  pub unfunded : info.funds ≡ []
  pub due : s.next_draw ≤ env.block.time
  pub after :
      storage'
      ≡ record storage { state = some (record s { next_draw = s.next_draw + s.draw_period }) }
  pub covered : redeemed r.messages * rate + s.total_ust_pool * decimal_one ≤ aust_balance * rate

no_funds : (funds : List Coin) → (length funds == 0) ≡ true → funds ≡ []
no_funds [] e = refl
no_funds (c ∷ cs) e = absurd (ground arith)

module _ (std : Std) (doc : IsDocumented std) (querier : Querier) (market : Market)
    (storage : Storage) (s : State) (config : Config) (env : Env) (info : MessageInfo)
    (loaded : storage.state ≡ some s) (configured : storage.config ≡ some config) where
  -- Where a redemption of the earnings succeeds on a stored state and configuration, no coins were
  -- sent, the draw is due, the next draw moves by the draw period and nothing else is written, and
  -- the aUST that are sent back at the queried exchange rate are worth no more than what the aUST
  -- balance is worth above the pool.
  pub try_redeem_earning-HasRedeemed :
      {storage' : Storage} {r : Response Payload}
      → try_redeem_earning std querier market storage env info ≡ ok (storage', r)
      → (money_market : Addr) × (aust : Addr) × (res : EpochStateResponse)
        × (aust_balance : Uint128) × (std.addr_humanize config.money_market_address
            ≡ ok money_market)
        × (std.addr_humanize config.anchor_aust_address ≡ ok aust)
        × (market.epoch money_market ≡ ok res)
        × (market.aust_balance aust env.contract_address ≡ ok aust_balance)
        × HasRedeemed storage s env info aust_balance res.exchange_rate storage' r
  unfolding try_redeem_earning add_u64
  try_redeem_earning-HasRedeemed {storage'} {r} e =
      elim (Outcome-cases (std.addr_humanize config.money_market_address)) [
        | inr fails ↦ absurd (ground arith)
        | inl (money_market, c1) ↦ elim (Outcome-cases (market.epoch money_market)) [
          | inr fails ↦ absurd (ground arith)
          | inl (res, c2) ↦ elim (Outcome-cases (std.addr_humanize config.anchor_aust_address)) [
            | inr fails ↦ absurd (ground arith)
            | inl (aust, c3) ↦
                elim (Outcome-cases (market.aust_balance aust env.contract_address)) [
                  | inr fails ↦ absurd (ground arith)
                  | inl (held, c4) ↦
                      elim (Outcome-cases
                        (interest_accrued std s.total_ust_pool held res.exchange_rate)) [
                          | inr fails ↦ absurd (ground arith)
                          | inl (i, c5) ↦ elim (Outcome-cases (to_aust std i res.exchange_rate)) [
                            | inr fails ↦ absurd (ground arith)
                            | inl (w, c6) ↦
                                let sends : redeemed r.messages ≡ w = ground arith in
                                (
                                  money_market,
                                  aust,
                                  res,
                                  held,
                                  c1,
                                  c3,
                                  c2,
                                  c4,
                                  record {
                                    unfunded = no_funds info.funds (ground arith);
                                    due = ground arith;
                                    after = ground arith;
                                    covered = rw sends (
                                        omega (
                                          arith,
                                          interest_accrued_value std doc s.total_ust_pool held
                                              res.exchange_rate c5,
                                          to_aust_worth std doc i res.exchange_rate c6,
                                        ));
                                  },
                                )
                          ]
                        ]
                ]
          ]
        ]
      ]
