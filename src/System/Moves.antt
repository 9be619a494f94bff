-- ===== src/System/Moves.antt =====
-- What one call does to the pool and to the tokens of an account.
use dogether_contracts.Prelude.{
  ℕ, ◌+◌, ◌-◌, ◌≤◌, ◌<◌, ◌≡◌, ◌≢◌, refl, String, Option, some, none, List, [], ◌∷◌, ok, arith,
  string_eq, list_eq, nat_eq, Option-cases, inl, inr, parse_u128,
}
use dogether_contracts.Platform.Types.{
  Addr, Binary, Uint128, Coin, Env, MessageInfo, Response, Cw20ReceiveMsg, attribute, message,
  wasm_execute, reply_on_success, u128_bound,
}
use dogether_contracts.Platform.Std.{Std, Querier}
use dogether_contracts.Platform.Laws.{IsDocumented}
use dogether_contracts.Platform.Storage.{may_load, may_load-save}
use dogether_contracts.Dogether.Msg as PoolMsg
use dogether_contracts.Dogether.Pool.{try_pool, try_un_pool, try_claim_un_pool}
use dogether_contracts.Dogether.Pool.Effects.{try_pool_lem}
use dogether_contracts.Dogether.Redeem.{try_redeem_earning}
use dogether_contracts.Dogether.Redeem.Interest.{try_redeem_earning-HasRedeemed}
use dogether_contracts.Dogether.Reply.{find_event, find_value, withdraw_reply}
use dogether_contracts.Dogether.Reply.Withdraw.{withdraw_reply_lem}
use dogether_contracts.Dogether.State as PoolState
use dogether_contracts.Staking.Msg as StakeMsg
use dogether_contracts.Token.Contract as Coins
use dogether_contracts.Token.Contract.{or_zero}
use dogether_contracts.Token.Msg as CoinsMsg
use dogether_contracts.Token.State as CoinsState
use dogether_contracts.Token.Supply.Effects.{execute_bond-HasMinted, execute_burn-HasBurned}

abbrev pub pool_of : Option PoolState.State → ℕ
pool_of none = 0
pool_of (some s) = s.total_ust_pool

-- The tokens of an account.
abbrev pub owned : Addr → CoinsState.Storage → ℕ
owned who storage = or_zero (may_load who storage.balances)

module _ (std : Std) (doc : IsDocumented std) (d : PoolState.Storage) {d' : PoolState.Storage}
    {r : Response PoolMsg.Payload} (querier : Querier) (env : Env) (info : MessageInfo) where
  -- What each call does to the pool.
  pub try_pool-pool_of :
      (codec : StakeMsg.Codec) (money_market token_addr : Addr) (deposit : List Coin)
      (contract : String) (amount : Uint128) (msg : Binary) (recipient : String)
      → try_pool std querier codec d info ≡ ok (d', r)
      → r.messages
        ≡ message (
            wasm_execute money_market
              (PoolMsg.Payload.anchor PoolMsg.Anchor.deposit_stable)
              deposit)
          ∷ message
              (wasm_execute token_addr (PoolMsg.Payload.bond contract amount msg recipient) [])
          ∷ []
      → pool_of d'.state ≡ pool_of d.state + amount
  unfolding try_pool
  try_pool-pool_of codec money_market token_addr deposit contract amount msg recipient e sends =
      elim (Option-cases d.state) [
        | inl missing ↦ absurd (ground arith)
        | inr (s, loaded) ↦ elim (Option-cases d.config) [
          | inl missing ↦ absurd (ground arith)
          | inr (config, configured) ↦
              let (coin, left, p, mm, cw20, staking, m, dep) =
                try_pool_lem std doc querier codec d s config loaded configured info e in
              let same : left.amount ≡ amount = ground (arith, dep.messages) in
              rw (p.pool, loaded, same) refl
        ]
      ]

  pub try_redeem_earning-pool_of :
      (market : PoolMsg.Market)
      → try_redeem_earning std querier market d env info ≡ ok (d', r)
      → pool_of d'.state ≡ pool_of d.state
  unfolding try_redeem_earning
  try_redeem_earning-pool_of market e = elim (Option-cases d.state) [
    | inl missing ↦ absurd (ground arith)
    | inr (s, loaded) ↦ elim (Option-cases d.config) [
      | inl missing ↦ absurd (ground arith)
      | inr (config, configured) ↦
          let (_, _, _, _, _, _, _, _, h) =
            try_redeem_earning-HasRedeemed std doc querier market d s config env info loaded
              configured e in
          rw (h.after, loaded) refl
    ]
  ]

module _ (std : Std) (doc : IsDocumented std) (t : CoinsState.Storage) {t' : CoinsState.Storage}
    {r : Response CoinsMsg.Payload} (info : MessageInfo) (who : Addr) (amount : Uint128) where
  -- What each call does to the tokens of an account.
  pub execute_bond-owned :
      (contract : String) (msg : Binary) (recipient : String) (hook : Cw20ReceiveMsg)
      → Coins.execute_bond std t info contract amount msg recipient ≡ ok (t', r)
      → r.messages ≡ message (wasm_execute who (CoinsMsg.Payload.receive hook) []) ∷ []
      → (owned who t' ≡ owned who t + amount) × (hook.amount ≡ amount)
  unfolding Coins.execute_bond
  execute_bond-owned contract msg recipient hook e sends = elim (Option-cases t.token_info) [
    | inl missing ↦ absurd (ground arith)
    | inr (token, loaded) ↦
        let (w, valid, m, sent) =
          execute_bond-HasMinted std doc t token loaded info amount contract msg recipient e in
        let named : contract ≡ who = ground (arith, sent) in
        let same : w ≡ who = ground (arith, doc.addr_validate_value contract valid, named) in
        let new = or_zero (may_load w t.balances) + amount in
        (
          rw (m.balances, may_load-save w who new t.balances)
              (ground (arith, same, string_eq.beq_iff w who)),
          ground (arith, sent),
        )
  ]

  pub execute_burn-owned :
      Coins.execute_burn std t info amount ≡ ok (t', r)
      → (info.sender ≡ who → (amount ≤ owned who t) × (owned who t' ≡ owned who t - amount))
        × (info.sender ≢ who → owned who t' ≡ owned who t)
  unfolding Coins.execute_burn
  execute_burn-owned e = elim (Option-cases t.token_info) [
    | inl missing ↦
        absurd
          (ground (arith, doc.checked_sub_lem (or_zero (may_load info.sender t.balances)) amount))
    | inr (token, loaded) ↦
        let (m, _) = execute_burn-HasBurned std doc t token loaded info amount e in
        let left = or_zero (may_load info.sender t.balances) - amount in
        let after = may_load-save info.sender who left t.balances in
        (
          λ self. (
            ground (arith, m.owned, self),
            rw (m.balances, after) (ground (arith, self, string_eq.beq_iff info.sender who)),
          ),
          λ other.
              rw (m.balances, after) (ground (arith, other, string_eq.beq_iff info.sender who)),
        )
  ]

module _ (std : Std) (d : PoolState.Storage) {d' : PoolState.Storage} {r : Response PoolMsg.Payload}
    (info : MessageInfo) (staking_addr : Addr) (msg : StakeMsg.ExecuteMsg) where
  -- What unpooling and claiming ask the staking contract for.
  pub try_un_pool-asks :
      (amount : Uint128)
      → try_un_pool std d info amount ≡ ok (d', r)
      → r.messages ≡ message (wasm_execute staking_addr (PoolMsg.Payload.staking msg) []) ∷ []
      → (d' ≡ d) × (msg ≡ StakeMsg.ExecuteMsg.unbond_stake amount info.sender)
  unfolding try_un_pool
  try_un_pool-asks amount e sends = (ground arith, ground arith)

  pub try_claim_un_pool-asks :
      try_claim_un_pool std d info ≡ ok (d', r)
      → r.messages
        ≡ record {
          msg = wasm_execute staking_addr (PoolMsg.Payload.staking msg) [];
          reply_on = reply_on_success 2;
        }
          ∷ []
      → (d' ≡ d) × (msg ≡ StakeMsg.ExecuteMsg.withdraw_stake none info.sender)
  unfolding try_claim_un_pool
  try_claim_un_pool-asks e sends = (ground arith, ground arith)

-- The wasm event of a withdrawal names the amount that its messages burn.
pub find_value-withdraw :
    (std : Std) (event : PoolMsg.Event) (r : Response StakeMsg.Payload)
    (staking_addr address : Addr) (amount : Uint128)
    → event.attributes ≡ attribute "_contract_address" staking_addr ∷ r.attributes
    → r.attributes
      ≡ attribute "action" "withdraw_stake"
        ∷ attribute "recipient" address
        ∷ attribute "withdraw" (std.to_string amount)
        ∷ []
    → find_value "withdraw" event.attributes ≡ some (std.to_string amount)
unfolding find_value
find_value-withdraw std event r staking_addr address amount told says = rw (told, says) refl

module _ (std : Std) (doc : IsDocumented std) (querier : Querier) (market : PoolMsg.Market)
    (d : PoolState.Storage) {d' : PoolState.Storage} {r : Response PoolMsg.Payload}
    (events : List PoolMsg.Event) (event : PoolMsg.Event) (amount : Uint128) where
  -- The reply takes off the pool what the wasm event says was withdrawn.
  pub withdraw_reply-pool_of :
      withdraw_reply std querier market d (PoolMsg.ContractResult.success events) ≡ ok (d', r)
      → find_event "wasm" events ≡ some event
      → find_value "withdraw" event.attributes ≡ some (std.to_string amount)
      → amount < u128_bound
      → (amount ≤ pool_of d.state) × (pool_of d'.state ≡ pool_of d.state - amount)
  unfolding withdraw_reply
  withdraw_reply-pool_of e found told small = elim (Option-cases d.state) [
    | inl missing ↦ absurd (ground arith)
    | inr (s, loaded) ↦ elim (Option-cases d.config) [
      | inl missing ↦ absurd (ground arith)
      | inr (config, configured) ↦
          let (a, to, rep, paid) =
            withdraw_reply_lem std doc querier market d s config loaded configured events e in
          let event_is : rep.event ≡ event = ground (arith, rep.first) in
          let withdrawn : find_value "withdraw" event.attributes ≡ some rep.text =
            rw event_is at rep.withdraw in
          let text_is : rep.text ≡ std.to_string amount = ground arith in
          let read : parse_u128 (std.to_string amount) ≡ some a = rw text_is at rep.parsed in
          let same : a ≡ amount = ground (arith, doc.to_string_lem amount small) in
          (rw loaded (omega (arith, paid.pooled, same)), rw (paid.after, loaded, same) refl)
    ]
  ]
