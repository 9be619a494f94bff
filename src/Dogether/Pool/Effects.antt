-- ===== src/Dogether/Pool/Effects.antt =====
-- What `try_pool` of src/contract.rs has done where it succeeds.
use dogether_contracts.Prelude.{
  ◌+◌, ◌<◌, ◌≡◌, refl, some, List, [], ◌∷◌, ok, arith, string_eq, Outcome-cases, inl, inr,
}
use dogether_contracts.Platform.Types.{
  Addr, Uint128, Coin, MessageInfo, Response, Binary, message, wasm_execute, u128_bound,
}
use dogether_contracts.Platform.Std.{Std, Querier}
use dogether_contracts.Platform.Laws.{IsDocumented}
use dogether_contracts.Taxation.{deduct_tax}
use dogether_contracts.Dogether.Msg.{Payload, anchor, bond, deposit_stable}
use dogether_contracts.Dogether.Pool.{sent_funds, try_pool}
use dogether_contracts.Dogether.State.{Config, State, Storage}
use dogether_contracts.Staking.Msg.{Codec, bond_stake}

module _ (std : Std) (querier : Querier) (codec : Codec) (storage : Storage) (s : State)
    (config : Config) (info : MessageInfo) where
  -- One coin of the right denomination was sent, and one and the same amount, the coin less the
  -- tax, is deposited, bonded for the sender and added to the pool.
  pub record HasPooled (storage' : Storage) (coin left : Coin) : Type 0 where
    pub sent : info.funds ≡ coin ∷ []
    pub denom : coin.denom ≡ config.denom
    pub taxed : deduct_tax std querier coin ≡ ok left
    pub pool : storage' ≡ record storage {
      state = some (record s { total_ust_pool = s.total_ust_pool + left.amount });
    }
    pub fits : s.total_ust_pool + left.amount < u128_bound

  -- The messages of the pooling.
  pub record Deposits (r : Response Payload) (left : Coin) (money_market cw20 staking : Addr)
      (msg : Binary) : Type 0 where
    pub market : std.addr_humanize config.money_market_address ≡ ok money_market
    pub token : std.addr_humanize s.cw20_address ≡ ok cw20
    pub stakes : std.addr_humanize s.staking_address ≡ ok staking
    pub coded : codec.to_binary bond_stake ≡ ok msg
    pub messages :
        r.messages
        ≡ message (wasm_execute money_market (anchor deposit_stable) (left ∷ []))
          ∷ message (wasm_execute cw20 (bond staking left.amount msg info.sender) [])
          ∷ []

module _ (std : Std) (doc : IsDocumented std) (querier : Querier) (codec : Codec)
    (storage : Storage) (s : State) (config : Config) (loaded : storage.state ≡ some s)
    (configured : storage.config ≡ some config) (info : MessageInfo) where
  sent_funds_value :
      (funds : List Coin) {amount : Uint128}
      → sent_funds config.denom funds ≡ ok amount
      → (coin : Coin) × (funds ≡ coin ∷ []) × (coin.denom ≡ config.denom) × (coin.amount ≡ amount)
  unfolding sent_funds
  sent_funds_value [] e = absurd (cc)
  sent_funds_value (coin ∷ []) e =
      (coin, refl, ground (arith, string_eq.beq_iff coin.denom config.denom), ground arith)
  sent_funds_value (coin ∷ other ∷ coins) e = absurd (cc)

  try_pool-HasPooled :
      {storage' : Storage} {r : Response Payload}
      → try_pool std querier codec storage info ≡ ok (storage', r)
      → (coin : Coin) × (left : Coin) × HasPooled std querier codec storage s config info storage'
          coin left
  unfolding try_pool
  try_pool-HasPooled e = elim (Outcome-cases (sent_funds config.denom info.funds)) [
    | inr fails ↦ absurd (ground arith)
    | inl (amount, c) ↦
        let (coin, sent, denom, same) = sent_funds_value info.funds c in
        elim (Outcome-cases
          (deduct_tax std querier (record { denom = config.denom; amount = amount }))) [
            | inr fails ↦ absurd (ground arith)
            | inl (left, d) ↦ (
              coin,
              left,
              record {
                sent = sent;
                denom = denom;
                taxed = rw (← same, ← denom) at d;
                pool = ground (arith, doc.checked_add_lem s.total_ust_pool left.amount);
                fits = ground (arith, doc.checked_add_lem s.total_ust_pool left.amount);
              },
            )
          ]
  ]

  try_pool-Deposits :
      {storage' : Storage} {r : Response Payload} {coin left : Coin}
      → try_pool std querier codec storage info ≡ ok (storage', r)
      → HasPooled std querier codec storage s config info storage' coin left
      → (money_market : Addr) × (cw20 : Addr) × (staking : Addr) × (msg : Binary) × Deposits std
          querier codec storage s config info r left money_market cw20 staking msg
  unfolding try_pool sent_funds
  try_pool-Deposits {coin} {left} e p =
      elim (Outcome-cases (std.addr_humanize config.money_market_address)) [
        | inr fails ↦ absurd (ground arith)
        | inl (money_market, c1) ↦ elim (Outcome-cases (std.addr_humanize s.cw20_address)) [
          | inr fails ↦ absurd (ground arith)
          | inl (cw20, c2) ↦ elim (Outcome-cases (std.addr_humanize s.staking_address)) [
            | inr fails ↦ absurd (ground arith)
            | inl (staking, c3) ↦ elim (Outcome-cases (codec.to_binary bond_stake)) [
              | inr fails ↦ absurd (ground arith)
              | inl (msg, c4) ↦
                  let taxed : deduct_tax std querier
                        (record { denom = config.denom; amount = coin.amount })
                      ≡ ok left =
                    rw p.denom at p.taxed in
                  (
                    money_market,
                    cw20,
                    staking,
                    msg,
                    record {
                      market = c1;
                      token = c2;
                      stakes = c3;
                      coded = c4;
                      messages = ground (arith, taxed);
                    },
                  )
            ]
          ]
        ]
      ]

  -- Where pooling succeeds on a stored state and configuration, exactly one coin was sent, of the
  -- configured denomination, and one amount, the coin less the tax, is deposited into the money
  -- market, bonded at the token contract for the sender and added to the pool; nothing else is
  -- written.
  pub try_pool_lem :
      {storage' : Storage} {r : Response Payload}
      → try_pool std querier codec storage info ≡ ok (storage', r)
      → (coin : Coin) × (left : Coin) × HasPooled std querier codec storage s config info storage'
          coin left
        × (money_market : Addr) × (cw20 : Addr) × (staking : Addr) × (msg : Binary) × Deposits std
            querier codec storage s config info r left money_market cw20 staking msg
  try_pool_lem e =
      let (coin, left, p) = try_pool-HasPooled e in
      let (money_market, cw20, staking, msg, d) = try_pool-Deposits e p in
      (coin, left, p, money_market, cw20, staking, msg, d)
