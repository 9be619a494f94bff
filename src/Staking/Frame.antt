-- ===== src/Staking/Frame.antt =====
-- Which holder and whose claims a message of the staking contract writes.
pub mod Kept
use dogether_contracts.Prelude.{
  ℕ, ◌≡◌, ◌≢◌, refl, String, Option, some, none, List, ok, arith, list_eq, nat_eq, ◌⊎◌, inl, inr,
  Outcome-cases, Option-cases, Bool-cases,
}
use dogether_contracts.Platform.Laws.{IsDocumented}
use dogether_contracts.Platform.Range.{IsUnique}
use dogether_contracts.Platform.Range.Content.{save-IsUnique}
use dogether_contracts.Platform.Std.{Std, StdResult, Querier}
use dogether_contracts.Platform.Storage.{may_load, save, may_load-save}
use dogether_contracts.Platform.Types.{
  CanonicalAddr, Env, MessageInfo, Response, Uint128, Cw20ReceiveMsg,
}
use dogether_contracts.Staking.Claim.{or_empty, claim_tokens, partition_claims}
use dogether_contracts.Staking.Contract.{instantiate, execute}
use dogether_contracts.Staking.Global.{handle_update_global_index}
use dogether_contracts.Staking.Global.Effects.{handle_update_global_index-HasRaised}
use dogether_contracts.Staking.Msg.{Payload, InstantiateMsg, ExecuteMsg, Codec, LotteryConfig}
use dogether_contracts.Staking.Solvency.Reach.{fresh, Reaches, instantiated, executed}
use dogether_contracts.Staking.Stake.{
  handle_bond, handle_receive, handle_unbound, handle_withdraw_stake,
}
use dogether_contracts.Staking.Stake.Effects.{handle_bond-HasBonded, handle_unbound-HasUnbonded}
use dogether_contracts.Staking.State.{Holder, Claim, Storage, read_holder}
use dogether_contracts.Staking.Ticket.{handle_get_ticket}
use dogether_contracts.Staking.Ticket.Effects.{handle_get_ticket-HasBought}

-- The holder whom a message is about.
abbrev pub subject : ExecuteMsg → Option String
subject ExecuteMsg.update_global_index = none
subject (ExecuteMsg.unbond_stake amount address) = some address
subject (ExecuteMsg.withdraw_stake cap address) = some address
subject (ExecuteMsg.receive wrapper) = some wrapper.sender
subject (ExecuteMsg.get_ticket recipient combination) = some recipient

-- A call leaves the holders and the claims, or writes those of one holder.
pub data Touches (std : Std) (who : Option String) (storage storage' : Storage) : Type 0 where
  nobody :
      storage'.holders ≡ storage.holders
      → storage'.claims ≡ storage.claims
      → Touches std who storage storage'
  one :
      (address : String) (raw : CanonicalAddr)
      → who ≡ some address
      → std.addr_canonicalize address ≡ ok raw
      → (storage'.holders ≡ storage.holders)
        ⊎ ((v : Holder) × (storage'.holders ≡ save raw v storage.holders))
      → (storage'.claims ≡ storage.claims)
        ⊎ ((v : List Claim) × (storage'.claims ≡ save raw v storage.claims))
      → Touches std who storage storage'

module _ (std : Std) (doc : IsDocumented std) (storage : Storage) {storage' : Storage}
    {r : Response Payload} where
  handle_receive-Touches :
      (codec : Codec) (info : MessageInfo) (w : Cw20ReceiveMsg)
      → handle_receive std codec storage info w ≡ ok (storage', r)
      → Touches std (some w.sender) storage storage'
  unfolding handle_receive handle_bond
  handle_receive-Touches codec info w e = elim (Outcome-cases (std.addr_canonicalize w.sender)) [
    | inr fails ↦ absurd (ground arith)
    | inl (raw, canonical) ↦ elim (Option-cases storage.state) [
      | inl missing ↦ absurd (ground arith)
      | inr (s, loaded) ↦
          let runs : handle_bond std storage info w.sender w.amount ≡ ok (storage', r) =
            ground arith in
          let b =
            handle_bond-HasBonded std doc storage raw s loaded info w.sender w.amount canonical
              runs in
          one w.sender raw refl canonical (inr (_, b.holders)) (inl b.claims)
    ]
  ]

  handle_unbound-Touches :
      (env : Env) (info : MessageInfo) (amount : Uint128) (address : String)
      → handle_unbound std storage env info amount address ≡ ok (storage', r)
      → Touches std (some address) storage storage'
  unfolding handle_unbound
  handle_unbound-Touches env info amount address e =
      elim (Outcome-cases (std.addr_canonicalize address)) [
        | inr fails ↦ absurd (ground arith)
        | inl (raw, canonical) ↦ elim (Option-cases storage.state) [
          | inl missing ↦ absurd (ground arith)
          | inr (s, loaded) ↦ elim (Option-cases storage.config) [
            | inl missing ↦ absurd (ground arith)
            | inr (config, configured) ↦
                let b =
                  handle_unbound-HasUnbonded std doc storage raw s loaded env info amount address
                    config configured canonical e in
                one address raw refl canonical (inr (_, b.holders)) (inr (_, b.claims))
          ]
        ]
      ]

  handle_withdraw_stake-Touches :
      (env : Env) (info : MessageInfo) (cap : Option Uint128) (address : String)
      → handle_withdraw_stake std storage env info cap address ≡ ok (storage', r)
      → Touches std (some address) storage storage'
  unfolding handle_withdraw_stake claim_tokens
  handle_withdraw_stake-Touches env info cap address e =
      elim (Outcome-cases (std.addr_canonicalize address)) [
        | inr fails ↦ absurd (ground arith)
        | inl (raw, canonical) ↦
            elim (Outcome-cases
              (partition_claims std env.block cap 0 (or_empty (may_load raw storage.claims)))) [
                | inr fails ↦ absurd (ground arith)
                | inl ((total, waiting), released) ↦
                    one address raw refl canonical (inl (ground arith))
                      (inr (waiting, ground arith))
              ]
      ]

  handle_get_ticket-Touches :
      (querier : Querier) (lottery : String → StdResult LotteryConfig) (recipient : String)
      (combination : List String)
      → handle_get_ticket std querier lottery storage recipient combination ≡ ok (storage', r)
      → Touches std (some recipient) storage storage'
  unfolding handle_get_ticket
  handle_get_ticket-Touches querier lottery recipient combination e =
      elim (Outcome-cases (std.addr_canonicalize recipient)) [
        | inr fails ↦ absurd (ground arith)
        | inl (raw, canonical) ↦ elim (Option-cases storage.state) [
          | inl missing ↦ absurd (ground arith)
          | inr (s, loaded) ↦ elim (Option-cases storage.config) [
            | inl missing ↦ absurd (ground arith)
            | inr (config, configured) ↦
                let (paid, b) =
                  handle_get_ticket-HasBought std doc querier lottery storage raw s loaded config
                    configured recipient combination canonical e in
                one recipient raw refl canonical (inr (_, b.holders)) (inl b.claims)
          ]
        ]
      ]

  handle_update_global_index-Touches :
      (querier : Querier) (env : Env) (info : MessageInfo)
      → handle_update_global_index std querier storage env info ≡ ok (storage', r)
      → Touches std none storage storage'
  unfolding handle_update_global_index
  handle_update_global_index-Touches querier env info e = nobody (ground arith) (ground arith)

  pub execute-Touches :
      (codec : Codec) (querier : Querier) (lottery : String → StdResult LotteryConfig) (env : Env)
      (info : MessageInfo) (msg : ExecuteMsg)
      → execute std codec querier lottery storage env info msg ≡ ok (storage', r)
      → Touches std (subject msg) storage storage'
  unfolding execute
  execute-Touches codec querier lottery env info ExecuteMsg.update_global_index e =
      handle_update_global_index-Touches querier env info e
  execute-Touches codec querier lottery env info (ExecuteMsg.unbond_stake amount address) e =
      handle_unbound-Touches env info amount address e
  execute-Touches codec querier lottery env info (ExecuteMsg.withdraw_stake cap address) e =
      handle_withdraw_stake-Touches env info cap address e
  execute-Touches codec querier lottery env info (ExecuteMsg.receive w) e =
      handle_receive-Touches codec info w e
  execute-Touches codec querier lottery env info (ExecuteMsg.get_ticket recipient combos) e =
      handle_get_ticket-Touches querier lottery recipient combos e
