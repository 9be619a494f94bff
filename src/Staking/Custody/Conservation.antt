-- ===== src/Staking/Custody/Conservation.antt =====
-- The tokens held before and after each handler of src/user.rs and src/global.rs.
use dogether_contracts.Prelude.{
  ℕ, ◌+◌, ◌≡◌, refl, String, List, [], ◌∷◌, ◌++◌, Option, some, none, ok, arith, list_eq, nat_eq,
  string_eq, Outcome-cases, Option-cases, inl, inr,
}
use dogether_contracts.Platform.Types.{
  Env, MessageInfo, Response, Uint128, Cw20ReceiveMsg, CanonicalAddr, at_height,
}
use dogether_contracts.Platform.Std.{Std, StdResult, Querier}
use dogether_contracts.Platform.Storage.{values, may_load, save, values-save, part}
use dogether_contracts.Platform.Laws.{IsDocumented}
use dogether_contracts.Staking.Claim.{claim_tokens, partition_claims, or_empty}
use dogether_contracts.Staking.Claim.Sums.{partition_claims_sum}
use dogether_contracts.Staking.Contract.{execute}
use dogether_contracts.Staking.Custody.Held.{held, burned, sum_amounts, sum_amounts-append}
use dogether_contracts.Staking.Global.{handle_update_global_index}
use dogether_contracts.Staking.Global.Effects.{handle_update_global_index-HasRaised}
use dogether_contracts.Staking.Ticket.{handle_get_ticket}
use dogether_contracts.Staking.Ticket.Effects.{handle_get_ticket-HasBought}
use dogether_contracts.Staking.Msg.{Payload, ExecuteMsg, Codec, LotteryConfig}
use dogether_contracts.Staking.Stake.{
  handle_bond, handle_receive, handle_unbound, handle_withdraw_stake,
}
use dogether_contracts.Staking.Stake.Effects.{handle_bond-HasBonded, handle_unbound-HasUnbonded}
use dogether_contracts.Staking.State.{Storage, Claim}

part-or_empty : (o : Option (List Claim)) → part sum_amounts o ≡ sum_amounts (or_empty o)
part-or_empty none = refl
part-or_empty (some claims) = refl

-- A claim that is appended adds its amount.
append_claim :
    (raw : CanonicalAddr) (c : Claim) (storage : Storage)
    → values sum_amounts
        (save raw (or_empty (may_load raw storage.claims) ++ c ∷ []) storage.claims)
      ≡ values sum_amounts storage.claims + c.amount
append_claim raw c storage =
    let old = or_empty (may_load raw storage.claims) in
    omega (
      arith,
      values-save sum_amounts raw (old ++ c ∷ []) storage.claims,
      part-or_empty (may_load raw storage.claims),
      sum_amounts-append old (c ∷ []),
    )

module _ (std : Std) (doc : IsDocumented std) (storage : Storage) {storage' : Storage}
    {r : Response Payload} where
  handle_bond-held :
      (info : MessageInfo) (holder_addr : String) (amount : Uint128)
      → handle_bond std storage info holder_addr amount ≡ ok (storage', r)
      → held storage' + burned r.messages ≡ held storage + amount
  unfolding handle_bond
  handle_bond-held info holder_addr amount e =
      elim (Outcome-cases (std.addr_canonicalize holder_addr)) [
        | inr fails ↦ absurd (ground arith)
        | inl (raw, canonical) ↦ elim (Option-cases storage.state) [
          | inl missing ↦ absurd (ground arith)
          | inr (s, loaded) ↦
              let b =
                handle_bond-HasBonded std doc storage raw s loaded info holder_addr amount canonical
                  e in
              rw (b.state, b.claims, b.burns, loaded) (omega arith)
        ]
      ]

  handle_unbound-held :
      (env : Env) (info : MessageInfo) (amount : Uint128) (address : String)
      → handle_unbound std storage env info amount address ≡ ok (storage', r)
      → held storage' + burned r.messages ≡ held storage
  unfolding handle_unbound
  handle_unbound-held env info amount address e =
      elim (Outcome-cases (std.addr_canonicalize address)) [
        | inr fails ↦ absurd (ground arith)
        | inl (raw, canonical) ↦ elim (Option-cases storage.state) [
          | inl missing ↦ absurd (ground arith)
          | inr (s, loaded) ↦ elim (Option-cases storage.config) [
            | inl missing ↦ absurd (ground arith)
            | inr (config, configured) ↦
                let b =
                  handle_unbound-HasUnbonded std doc storage raw s loaded env info amount address
                    config configured canonical e in
                let claim : Claim = record {
                  amount = amount;
                  release_at = at_height (env.block.height + config.unbonding_period);
                } in
                rw (b.state, b.claims, b.burns, loaded)
                  (omega (arith, b.in_total, append_claim raw claim storage))
          ]
        ]
      ]

  handle_withdraw_stake-held :
      (env : Env) (info : MessageInfo) (limit : Option Uint128) (address : String)
      → handle_withdraw_stake std storage env info limit address ≡ ok (storage', r)
      → held storage' + burned r.messages ≡ held storage
  unfolding handle_withdraw_stake claim_tokens
  handle_withdraw_stake-held env info limit address e =
      elim (Outcome-cases (std.addr_canonicalize address)) [
        | inr fails ↦ absurd (ground arith)
        | inl (raw, canonical) ↦
            let claims = or_empty (may_load raw storage.claims) in
            elim (Outcome-cases (partition_claims std env.block limit 0 claims)) [
              | inr fails ↦ absurd (ground arith)
              | inl ((total, waiting), released) ↦
                  let after : (storage'.state ≡ storage.state)
                      × (storage'.claims ≡ save raw waiting storage.claims)
                      × (burned r.messages ≡ total) =
                    ground arith in
                  rw (after.0, after.1, after.2)
                    (omega (
                      arith,
                      partition_claims_sum std doc env.block limit 0 claims released,
                      values-save sum_amounts raw waiting storage.claims,
                      part-or_empty (may_load raw storage.claims),
                    ))
            ]
      ]

  handle_update_global_index-held :
      (querier : Querier) (env : Env) (info : MessageInfo)
      → handle_update_global_index std querier storage env info ≡ ok (storage', r)
      → held storage' + burned r.messages ≡ held storage
  unfolding handle_update_global_index
  handle_update_global_index-held querier env info e = elim (Option-cases storage.state) [
    | inl missing ↦ absurd (ground arith)
    | inr (s, loaded) ↦ elim (Option-cases storage.config) [
      | inl missing ↦ absurd (ground arith)
      | inr (config, configured) ↦
          let (t, coin, claimed, _, after, raised, silent) =
            handle_update_global_index-HasRaised std doc querier storage env info s config loaded
              configured e in
          rw (after, silent, loaded) (omega (arith, raised.total))
    ]
  ]

  handle_get_ticket-held :
      (querier : Querier) (lottery : String → StdResult LotteryConfig) (recipient : String)
      (combination : List String)
      → handle_get_ticket std querier lottery storage recipient combination ≡ ok (storage', r)
      → held storage' + burned r.messages ≡ held storage
  unfolding handle_get_ticket
  handle_get_ticket-held querier lottery recipient combination e =
      elim (Outcome-cases (std.addr_canonicalize recipient)) [
        | inr fails ↦ absurd (ground arith)
        | inl (raw, canonical) ↦ elim (Option-cases storage.state) [
          | inl missing ↦ absurd (ground arith)
          | inr (s, loaded) ↦ elim (Option-cases storage.config) [
            | inl missing ↦ absurd (ground arith)
            | inr (config, configured) ↦
                let (paid, b) =
                  handle_get_ticket-HasBought std doc querier lottery storage raw s loaded config
                    configured recipient combination canonical e in
                rw (b.state, b.claims, b.burns, loaded) (omega arith)
          ]
        ]
      ]

-- What a message brings in.
abbrev pub received : ExecuteMsg → ℕ
received (ExecuteMsg.receive wrapper) = wrapper.amount
received (ExecuteMsg.get_ticket recipient combination) = 0
received ExecuteMsg.update_global_index = 0
received (ExecuteMsg.unbond_stake amount address) = 0
received (ExecuteMsg.withdraw_stake limit address) = 0

module _ (std : Std) (doc : IsDocumented std) (codec : Codec) (querier : Querier)
    (lottery : String → StdResult LotteryConfig) (storage : Storage) {storage' : Storage}
    {r : Response Payload} (env : Env) (info : MessageInfo) where
  handle_receive-held :
      (wrapper : Cw20ReceiveMsg)
      → handle_receive std codec storage info wrapper ≡ ok (storage', r)
      → held storage' + burned r.messages ≡ held storage + wrapper.amount
  unfolding handle_receive
  handle_receive-held wrapper e =
      handle_bond-held std doc storage {storage' = storage'} {r = r} info wrapper.sender
        wrapper.amount (ground arith)

  -- Where a message of the staking contract succeeds, the tokens held after it (the total stake and
  -- all claims) and the tokens that its messages burn are together the tokens held before it and
  -- those it brings in.
  pub execute-held :
      (msg : ExecuteMsg)
      → execute std codec querier lottery storage env info msg ≡ ok (storage', r)
      → held storage' + burned r.messages ≡ held storage + received msg
  unfolding execute
  execute-held (ExecuteMsg.get_ticket recipient combination) e =
      omega (arith, handle_get_ticket-held std doc storage querier lottery recipient combination e)
  execute-held ExecuteMsg.update_global_index e =
      omega (arith, handle_update_global_index-held std doc storage querier env info e)
  execute-held (ExecuteMsg.unbond_stake amount address) e =
      omega (arith, handle_unbound-held std doc storage env info amount address e)
  execute-held (ExecuteMsg.withdraw_stake limit address) e =
      omega (arith, handle_withdraw_stake-held std doc storage env info limit address e)
  execute-held (ExecuteMsg.receive msg) e = handle_receive-held msg e
