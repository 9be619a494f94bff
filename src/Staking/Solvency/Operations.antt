-- ===== src/Staking/Solvency/Operations.antt =====
-- The accounts under `handle_bond`, `handle_unbound` and `handle_withdraw_stake` of src/user.rs.
use dogether_contracts.Prelude.{
  ◌+◌, ◌-◌, ◌≡◌, refl, String, Option, ok, arith, list_eq, nat_eq, string_eq, Outcome-cases,
  Option-cases, inl, inr,
}
use dogether_contracts.Platform.Types.{Env, MessageInfo, Uint128, Response, Cw20ReceiveMsg}
use dogether_contracts.Platform.Std.{Std}
use dogether_contracts.Platform.Laws.{IsDocumented}
use dogether_contracts.Staking.Claim.{claim_tokens}
use dogether_contracts.Staking.Msg.{Payload, Codec}
use dogether_contracts.Staking.Stake.{
  handle_bond, handle_receive, handle_unbound, handle_withdraw_stake,
}
use dogether_contracts.Staking.Stake.Effects.{
  owed-settled_holder, handle_bond-HasBonded, handle_unbound-HasUnbonded,
}
use dogether_contracts.Staking.Solvency.Invariant.{IsBacked, save-IsSolvent}
use dogether_contracts.Staking.State.{Storage, read_holder}

module _ (std : Std) (doc : IsDocumented std) (storage : Storage) {storage' : Storage}
    {r : Response Payload} where
  -- Bonding.
  pub handle_bond-IsBacked :
      (info : MessageInfo) (holder_addr : String) (amount : Uint128)
      → IsBacked storage
      → handle_bond std storage info holder_addr amount ≡ ok (storage', r)
      → IsBacked storage'
  unfolding handle_bond read_holder
  handle_bond-IsBacked info holder_addr amount inv e =
      elim (Outcome-cases (std.addr_canonicalize holder_addr)) [
        | inr fails ↦ absurd (ground arith)
        | inl (raw, canonical) ↦ elim (Option-cases storage.state) [
          | inl missing ↦ absurd (ground arith)
          | inr (s, loaded) ↦
              let b =
                handle_bond-HasBonded std doc storage raw s loaded info holder_addr amount canonical
                  e in
              rw (b.state, b.holders)
                (save-IsSolvent s _ storage.holders raw _ (rw loaded at inv) refl (omega arith)
                  (omega arith)
                  (omega (
                    arith,
                    owed-settled_holder s (read_holder storage raw)
                        ((read_holder storage raw).balance + amount),
                  )))
        ]
      ]

  -- A message of the token contract.
  pub handle_receive-IsBacked :
      (codec : Codec) (info : MessageInfo) (wrapper : Cw20ReceiveMsg)
      → IsBacked storage
      → handle_receive std codec storage info wrapper ≡ ok (storage', r)
      → IsBacked storage'
  unfolding handle_receive
  handle_receive-IsBacked codec info wrapper inv e =
      handle_bond-IsBacked info wrapper.sender wrapper.amount inv (ground arith)

  -- Unbonding.
  pub handle_unbound-IsBacked :
      (env : Env) (info : MessageInfo) (amount : Uint128) (address : String)
      → IsBacked storage
      → handle_unbound std storage env info amount address ≡ ok (storage', r)
      → IsBacked storage'
  unfolding handle_unbound read_holder
  handle_unbound-IsBacked env info amount address inv e =
      elim (Outcome-cases (std.addr_canonicalize address)) [
        | inr fails ↦ absurd (ground arith)
        | inl (raw, canonical) ↦ elim (Option-cases storage.state) [
          | inl missing ↦ absurd (ground arith)
          | inr (s, loaded) ↦ elim (Option-cases storage.config) [
            | inl missing ↦ absurd (ground arith)
            | inr (config, configured) ↦
                let b =
                  handle_unbound-HasUnbonded std doc storage raw s loaded env info amount address
                    config configured canonical e in
                rw (b.state, b.holders)
                  (save-IsSolvent s _ storage.holders raw _ (rw loaded at inv) refl (omega arith)
                    (omega (arith, b.covered, b.in_total))
                    (omega (
                      arith,
                      owed-settled_holder s (read_holder storage raw)
                          ((read_holder storage raw).balance - amount),
                    )))
          ]
        ]
      ]

  -- Withdrawing touches neither the stake nor the rewards.
  pub handle_withdraw_stake-IsBacked :
      (env : Env) (info : MessageInfo) (cap : Option Uint128) (address : String)
      → IsBacked storage
      → handle_withdraw_stake std storage env info cap address ≡ ok (storage', r)
      → IsBacked storage'
  unfolding handle_withdraw_stake claim_tokens
  handle_withdraw_stake-IsBacked env info cap address inv e =
      let frame : (storage'.state ≡ storage.state) × (storage'.holders ≡ storage.holders) =
        ground arith in
      rw (frame.0, frame.1) inv
