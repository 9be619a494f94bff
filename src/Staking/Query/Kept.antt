-- ===== src/Staking/Query/Kept.antt =====
-- `query_accrued_rewards` before and after `handle_bond`, `handle_unbound` and
-- `handle_withdraw_stake` of src/user.rs.
use dogether_contracts.Prelude.{
  ◌+◌, ◌-◌, ◌≡◌, refl, String, ok, arith, Outcome-cases, Option-cases, inl, inr,
}
use dogether_contracts.Platform.Types.{Env, MessageInfo, Response, Uint128}
use dogether_contracts.Platform.Std.{Std}
use dogether_contracts.Platform.Laws.{IsDocumented}
use dogether_contracts.Staking.Claim.{claim_tokens}
use dogether_contracts.Prelude.{Option, refl}
use dogether_contracts.Staking.Msg.{Payload, AccruedRewardsResponse}
use dogether_contracts.Staking.Query.{query_accrued_rewards}
use dogether_contracts.Staking.Query.Accrued.{settled_accrued}
use dogether_contracts.Staking.Stake.{handle_bond, handle_unbound, handle_withdraw_stake}
use dogether_contracts.Staking.Stake.Effects.{
  owed-settled_holder, handle_bond-HasBonded, handle_unbound-HasUnbonded,
}
use dogether_contracts.Staking.State.{Storage, read_holder}

module _ (std : Std) (doc : IsDocumented std) (storage : Storage) {storage' : Storage}
    {r : Response Payload} (address : String) {before after : AccruedRewardsResponse}
    (asked : query_accrued_rewards std storage address ≡ ok before)
    (asked' : query_accrued_rewards std storage' address ≡ ok after) where
  -- Where a bonding succeeds, the rewards that any address can query are the same before and after
  -- it.
  pub handle_bond-accrued :
      (info : MessageInfo) (holder_addr : String) (amount : Uint128)
      → handle_bond std storage info holder_addr amount ≡ ok (storage', r)
      → after.rewards ≡ before.rewards
  unfolding handle_bond
  handle_bond-accrued info holder_addr amount e =
      elim (Outcome-cases (std.addr_canonicalize holder_addr)) [
        | inr fails ↦ absurd (ground arith)
        | inl (raw, canonical) ↦ elim (Option-cases storage.state) [
          | inl missing ↦ absurd (ground arith)
          | inr (s, loaded) ↦
              let b =
                handle_bond-HasBonded std doc storage raw s loaded info holder_addr amount canonical
                  e in
              let old = read_holder storage raw in
              settled_accrued std doc storage storage' address asked asked' raw s _ _ loaded b.state
                refl b.holders (owed-settled_holder s old (old.balance + amount))
        ]
      ]

  -- Where an unbonding succeeds, the rewards that any address can query are the same before and
  -- after it.
  pub handle_unbound-accrued :
      (env : Env) (info : MessageInfo) (amount : Uint128) (holder_addr : String)
      → handle_unbound std storage env info amount holder_addr ≡ ok (storage', r)
      → after.rewards ≡ before.rewards
  unfolding handle_unbound
  handle_unbound-accrued env info amount holder_addr e =
      elim (Outcome-cases (std.addr_canonicalize holder_addr)) [
        | inr fails ↦ absurd (ground arith)
        | inl (raw, canonical) ↦ elim (Option-cases storage.state) [
          | inl missing ↦ absurd (ground arith)
          | inr (s, loaded) ↦ elim (Option-cases storage.config) [
            | inl missing ↦ absurd (ground arith)
            | inr (config, configured) ↦
                let b =
                  handle_unbound-HasUnbonded std doc storage raw s loaded env info amount
                    holder_addr config configured canonical e in
                let old = read_holder storage raw in
                settled_accrued std doc storage storage' address asked asked' raw s _ _ loaded
                  b.state refl b.holders (owed-settled_holder s old (old.balance - amount))
          ]
        ]
      ]

-- Where a withdrawal succeeds, the query of the rewards of any address ends the same way before and
-- after it.
handle_withdraw_stake-accrued :
    (std : Std) (storage : Storage) {storage' : Storage} {r : Response Payload} (env : Env)
    (info : MessageInfo) (cap : Option Uint128) (holder_addr address : String)
    → handle_withdraw_stake std storage env info cap holder_addr ≡ ok (storage', r)
    → query_accrued_rewards std storage' address ≡ query_accrued_rewards std storage address
unfolding handle_withdraw_stake claim_tokens query_accrued_rewards read_holder
handle_withdraw_stake-accrued std storage {storage'} env info cap holder_addr address e =
    let same : (storage'.state ≡ storage.state) × (storage'.holders ≡ storage.holders) =
      (ground arith, ground arith) in
    rw (same.0, same.1) refl
