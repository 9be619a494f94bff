-- ===== src/System/Burns.antt =====
-- Which messages of the staking contract burn tokens, and what a withdrawal burns and reports.
use dogether_contracts.Prelude.{
  ℕ, ◌<◌, ◌≡◌, String, Option, List, [], ◌∷◌, ok, arith, list_eq, nat_eq, string_eq, Outcome-cases,
  inl, inr,
}
use dogether_contracts.Platform.Types.{
  Uint128, Env, MessageInfo, Response, Cw20ReceiveMsg, BlockInfo, attribute, u128_bound,
}
use dogether_contracts.Platform.Std.{Std, StdResult, Querier}
use dogether_contracts.Platform.Laws.{IsDocumented}
use dogether_contracts.Platform.Storage.{may_load}
use dogether_contracts.Staking.Claim.{or_empty, send_claim, partition_claims, claim_tokens}
use dogether_contracts.Staking.Custody.Held.{burned}
use dogether_contracts.Staking.Global.{handle_update_global_index}
use dogether_contracts.Staking.Msg.{Payload, Codec, LotteryConfig}
use dogether_contracts.Staking.Stake.{
  handle_bond, handle_receive, handle_unbound, handle_withdraw_stake,
}
use dogether_contracts.Staking.State.{Storage, Claim}
use dogether_contracts.Staking.Ticket.{handle_get_ticket}

module _ (std : Std) (storage : Storage) {storage' : Storage} {r : Response Payload} where
  pub handle_receive-burned :
      (codec : Codec) (info : MessageInfo) (wrapper : Cw20ReceiveMsg)
      → handle_receive std codec storage info wrapper ≡ ok (storage', r)
      → burned r.messages ≡ 0
  unfolding handle_receive handle_bond
  handle_receive-burned codec info wrapper e = ground arith

  pub handle_unbound-burned :
      (env : Env) (info : MessageInfo) (amount : Uint128) (address : String)
      → handle_unbound std storage env info amount address ≡ ok (storage', r)
      → burned r.messages ≡ 0
  unfolding handle_unbound
  handle_unbound-burned env info amount address e = ground arith

  pub handle_update_global_index-burned :
      (querier : Querier) (env : Env) (info : MessageInfo)
      → handle_update_global_index std querier storage env info ≡ ok (storage', r)
      → burned r.messages ≡ 0
  unfolding handle_update_global_index
  handle_update_global_index-burned querier env info e = ground arith

  pub handle_get_ticket-burned :
      (querier : Querier) (lottery : String → StdResult LotteryConfig) (recipient : String)
      (combination : List String)
      → handle_get_ticket std querier lottery storage recipient combination ≡ ok (storage', r)
      → burned r.messages ≡ 0
  unfolding handle_get_ticket
  handle_get_ticket-burned querier lottery recipient combination e = ground arith

module _ (std : Std) (doc : IsDocumented std) (block : BlockInfo) (cap : Option Uint128) where
  -- The total is a `Uint128`.
  partition_claims-bounded :
      (t : ℕ) (claims : List Claim) {total : ℕ} {waiting : List Claim}
      → partition_claims std block cap t claims ≡ ok (total, waiting)
      → t < u128_bound
      → total < u128_bound
  unfolding partition_claims send_claim
  partition_claims-bounded t [] e h = ground arith
  partition_claims-bounded t (c ∷ claims) e h =
      elim (Outcome-cases (send_claim std block cap t c)) [
        | inr fails ↦ absurd (ground arith)
        | inl ((t', sent), e1) ↦ elim (Outcome-cases (partition_claims std block cap t' claims)) [
          | inr fails ↦ absurd (ground arith)
          | inl ((total', waiting'), e2) ↦
              let step : t' < u128_bound = ground (arith, doc.add_lem t c.amount) in
              ground (arith, partition_claims-bounded t' claims e2 step)
        ]
      ]

  pub handle_withdraw_stake-reports :
      (storage : Storage) {storage' : Storage} {r : Response Payload} (env : Env)
      (info : MessageInfo) (address : String)
      → env.block ≡ block
      → handle_withdraw_stake std storage env info cap address ≡ ok (storage', r)
      → (burned r.messages < u128_bound)
        × (r.attributes
            ≡ attribute "action" "withdraw_stake"
              ∷ attribute "recipient" address
              ∷ attribute "withdraw" (std.to_string (burned r.messages))
              ∷ [])
  unfolding handle_withdraw_stake claim_tokens
  handle_withdraw_stake-reports storage {storage'} {r} env info address here e =
      elim (Outcome-cases (std.addr_canonicalize address)) [
        | inr fails ↦ absurd (ground arith)
        | inl (raw, canonical) ↦
            elim (Outcome-cases
              (partition_claims std env.block cap 0 (or_empty (may_load raw storage.claims)))) [
                | inr fails ↦ absurd (ground arith)
                | inl ((total, waiting), released) ↦
                    let bounded =
                      partition_claims-bounded 0 (or_empty (may_load raw storage.claims))
                        (rw here at released) (omega arith) in
                    let same : burned r.messages ≡ total = ground arith in
                    (rw same bounded, rw same (ground arith))
              ]
      ]
