-- ===== src/Staking/Solvency/Payouts.antt =====
-- The accounts under `handle_update_global_index` of src/global.rs and `handle_get_ticket` of
-- src/user.rs.
use dogether_contracts.Prelude.{
  ℕ, ◌+◌, ◌-◌, ◌*◌, ◌/◌, ◌≤◌, ◌≡◌, refl, String, List, ok, arith, list_eq, nat_eq, Outcome-cases,
  Option-cases, inl, inr,
}
use dogether_contracts.Platform.Types.{Env, MessageInfo, Response, decimal_one}
use dogether_contracts.Platform.Std.{Std, StdResult, Querier}
use dogether_contracts.Platform.Laws.{IsDocumented}
use dogether_contracts.Staking.Global.{handle_update_global_index}
use dogether_contracts.Staking.Global.Effects.{handle_update_global_index-HasRaised, raise_covered}
use dogether_contracts.Staking.Msg.{Payload, LotteryConfig}
use dogether_contracts.Staking.Rewards.Owed.{owed}
use dogether_contracts.Staking.Ticket.{handle_get_ticket}
use dogether_contracts.Staking.Ticket.Effects.{handle_get_ticket-HasBought}
use dogether_contracts.Staking.Solvency.Invariant.{IsBacked, save-IsSolvent, raise-IsSolvent}
use dogether_contracts.Staking.State.{Holder, Storage, read_holder}

-- What a purchase leaves of the rewards is at most what was owed, less what was paid.
left_le :
    (g paid : ℕ) (h : Holder)
    → paid ≤ owed g h / decimal_one
    → owed g
          (record h { pending_rewards = (owed g h / decimal_one - paid) * decimal_one; index = g })
        + paid * decimal_one
      ≤ owed g h
left_le g paid h afford = let nothing : g - g ≡ 0 = omega arith in rw nothing (omega arith)

module _ (std : Std) (doc : IsDocumented std) (querier : Querier) (storage : Storage)
    {storage' : Storage} {r : Response Payload} where
  -- Updating the index.
  pub handle_update_global_index-IsBacked :
      (env : Env) (info : MessageInfo)
      → IsBacked storage
      → handle_update_global_index std querier storage env info ≡ ok (storage', r)
      → IsBacked storage'
  unfolding handle_update_global_index
  handle_update_global_index-IsBacked env info inv e = elim (Option-cases storage.state) [
    | inl missing ↦ absurd (ground arith)
    | inr (s, loaded) ↦ elim (Option-cases storage.config) [
      | inl missing ↦ absurd (ground arith)
      | inr (config, configured) ↦
          let (t, coin, claimed, _, after, raised, _) =
            handle_update_global_index-HasRaised std doc querier storage env info s config loaded
              configured e in
          rw after (
            raise-IsSolvent s t storage.holders (rw loaded at inv) raised.total
              (omega (arith, raised.index)) (raise_covered raised))
    ]
  ]

  -- Buying tickets.
  pub handle_get_ticket-IsBacked :
      (lottery : String → StdResult LotteryConfig) (recipient : String) (combination : List String)
      → IsBacked storage
      → handle_get_ticket std querier lottery storage recipient combination ≡ ok (storage', r)
      → IsBacked storage'
  unfolding handle_get_ticket read_holder
  handle_get_ticket-IsBacked lottery recipient combination inv e =
      elim (Outcome-cases (std.addr_canonicalize recipient)) [
        | inr fails ↦ absurd (ground arith)
        | inl (raw, canonical) ↦ elim (Option-cases storage.state) [
          | inl missing ↦ absurd (ground arith)
          | inr (s, loaded) ↦ elim (Option-cases storage.config) [
            | inl missing ↦ absurd (ground arith)
            | inr (config, configured) ↦
                let (paid, b) =
                  handle_get_ticket-HasBought std doc querier lottery storage raw s loaded config
                    configured recipient combination canonical e in
                rw (b.state, b.holders)
                  (save-IsSolvent s _ storage.holders raw _ (rw loaded at inv) refl (omega arith)
                    (omega arith)
                    (omega (
                      arith,
                      b.in_balance,
                      left_le s.global_index paid (read_holder storage raw) b.affordable,
                    )))
          ]
        ]
      ]
