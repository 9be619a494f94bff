-- ===== src/Dogether/Reply/Withdraw.antt =====
-- `withdraw_reply` of src/contract.rs: what the events report, and what is paid.
use dogether_contracts.Prelude.{
  ◌-◌, ◌*◌, ◌≤◌, ◌≡◌, String, some, List, [], ◌∷◌, ok, arith, parse_u128, Outcome-cases,
  Option-cases, inl, inr,
}
use dogether_contracts.Platform.Types.{
  Addr, Uint128, Coin, Response, message, wasm_execute, bank_send, decimal_one,
}
use dogether_contracts.Platform.Std.{Std, Querier}
use dogether_contracts.Platform.Laws.{IsDocumented}
use dogether_contracts.Taxation.{deduct_tax}
use dogether_contracts.Dogether.Msg.{
  Payload, send, redeem_stable, Market, EpochStateResponse, Event, success,
}
use dogether_contracts.Dogether.Redeem.{to_aust}
use dogether_contracts.Dogether.Redeem.Interest.{to_aust_worth}
use dogether_contracts.Dogether.Reply.{find_event, find_value, withdraw_reply}
use dogether_contracts.Dogether.State.{Config, State, Storage}

-- What the staking contract reports of a withdrawal: the amount and who receives it.
pub record Reports (events : List Event) (amount : Uint128) (recipient : String) : Type 0 where
  pub event : Event
  pub first : find_event "wasm" events ≡ some event
  pub text : String
  pub withdraw : find_value "withdraw" event.attributes ≡ some text
  pub parsed : parse_u128 text ≡ some amount
  pub to : find_value "recipient" event.attributes ≡ some recipient

module _ (std : Std) (querier : Querier) (market : Market) (storage : Storage) (s : State)
    (config : Config) where
  -- The reported amount leaves the pool. aUST worth at most the amount are redeemed, and the
  -- recipient is paid the amount less the tax, taken twice.
  pub record HasPaid (amount : Uint128) (recipient : String) (storage' : Storage)
      (r : Response Payload) : Type 0 where
    pub pooled : amount ≤ s.total_ust_pool
    pub after :
        storage'
        ≡ record storage { state = some (record s { total_ust_pool = s.total_ust_pool - amount }) }
    pub money_market : Addr
    pub market_of : std.addr_humanize config.money_market_address ≡ ok money_market
    pub res : EpochStateResponse
    pub epoch : market.epoch money_market ≡ ok res
    pub withdrawn : Uint128
    pub worth : withdrawn * res.exchange_rate ≤ amount * decimal_one
    pub grown : Coin
    pub once : deduct_tax std querier (record { denom = config.denom; amount = amount }) ≡ ok grown
    pub net : Coin
    pub twice :
        deduct_tax std querier (record { denom = config.denom; amount = grown.amount }) ≡ ok net
    pub aust : Addr
    pub aust_of : std.addr_humanize config.anchor_aust_address ≡ ok aust
    pub messages :
        r.messages
        ≡ message (wasm_execute aust (send money_market withdrawn redeem_stable) [])
          ∷ message (bank_send recipient (net ∷ []))
          ∷ []

module _ (std : Std) (doc : IsDocumented std) (querier : Querier) (market : Market)
    (storage : Storage) (s : State) (config : Config) (loaded : storage.state ≡ some s)
    (configured : storage.config ≡ some config) (events : List Event) {storage' : Storage}
    {r : Response Payload} where
  withdraw_reply-Reports :
      withdraw_reply std querier market storage (success events) ≡ ok (storage', r)
      → (amount : Uint128) × (recipient : String) × Reports events amount recipient
  unfolding withdraw_reply
  withdraw_reply-Reports e = elim (Option-cases (find_event "wasm" events)) [
    | inl missing ↦ absurd (ground arith)
    | inr (event, c1) ↦ elim (Option-cases (find_value "withdraw" event.attributes)) [
      | inl missing ↦ absurd (ground arith)
      | inr (text, c2) ↦ elim (Option-cases (parse_u128 text)) [
        | inl missing ↦ absurd (ground arith)
        | inr (amount, c3) ↦ elim (Option-cases (find_value "recipient" event.attributes)) [
          | inl missing ↦ absurd (ground arith)
          | inr (recipient, c4) ↦ (
            amount,
            recipient,
            record { event = event; first = c1; text = text; withdraw = c2; parsed = c3; to = c4 },
          )
        ]
      ]
    ]
  ]

  withdraw_reply-HasPaid :
      (amount : Uint128) (recipient : String)
      → Reports events amount recipient
      → withdraw_reply std querier market storage (success events) ≡ ok (storage', r)
      → HasPaid std querier market storage s config amount recipient storage' r
  unfolding withdraw_reply
  withdraw_reply-HasPaid amount recipient rep e =
      elim (Outcome-cases (std.addr_humanize config.money_market_address)) [
        | inr fails ↦ absurd (ground arith)
        | inl (money_market, c1) ↦ elim (Outcome-cases (market.epoch money_market)) [
          | inr fails ↦ absurd (ground arith)
          | inl (res, c2) ↦ elim (Option-cases (std.from_ratio amount 1)) [
            | inl fails ↦ absurd (ground arith)
            | inr (ust, c3) ↦ elim (Outcome-cases (to_aust std ust res.exchange_rate)) [
              | inr fails ↦ absurd (ground arith)
              | inl (withdrawn, c4) ↦
                  elim (Outcome-cases (std.addr_humanize config.anchor_aust_address)) [
                    | inr fails ↦ absurd (ground arith)
                    | inl (aust, c5) ↦
                        elim (Outcome-cases (
                          deduct_tax std querier
                            (record { denom = config.denom; amount = amount }))) [
                              | inr fails ↦
                                  absurd
                                    (ground (arith, doc.checked_sub_lem s.total_ust_pool amount))
                              | inl (grown, c6) ↦
                                  elim (Outcome-cases (
                                    deduct_tax std querier
                                      (record { denom = config.denom; amount = grown.amount }))) [
                                        | inr fails ↦ absurd (
                                            ground
                                              (arith, doc.checked_sub_lem s.total_ust_pool amount))
                                        | inl (net, c7) ↦ record {
                                          pooled =
                                              ground (
                                                arith,
                                                doc.checked_sub_lem s.total_ust_pool amount,
                                              );
                                          after =
                                              ground (
                                                arith,
                                                doc.checked_sub_lem s.total_ust_pool amount,
                                              );
                                          money_market = money_market;
                                          market_of = c1;
                                          res = res;
                                          epoch = c2;
                                          withdrawn = withdrawn;
                                          worth = omega (
                                            arith,
                                            doc.from_ratio_value amount 1 c3,
                                            to_aust_worth std doc ust res.exchange_rate c4,
                                          );
                                          grown = grown;
                                          once = c6;
                                          net = net;
                                          twice = c7;
                                          aust = aust;
                                          aust_of = c5;
                                          messages =
                                              ground (
                                                arith,
                                                doc.checked_sub_lem s.total_ust_pool amount,
                                              );
                                        }
                                      ]
                            ]
                  ]
            ]
          ]
        ]
      ]

  -- Where the reply of a successful withdrawal succeeds, the first wasm event names an amount and a
  -- recipient; the amount is in the pool and leaves it, aUST worth at most the amount are sent back
  -- to the money market, and the recipient is sent the amount less the tax taken twice.
  pub withdraw_reply_lem :
      withdraw_reply std querier market storage (success events) ≡ ok (storage', r)
      → (amount : Uint128) × (recipient : String) × Reports events amount recipient
        × HasPaid std querier market storage s config amount recipient storage' r
  withdraw_reply_lem e =
      let (amount, recipient, rep) = withdraw_reply-Reports e in
      (amount, recipient, rep, withdraw_reply-HasPaid amount recipient rep e)
