-- ===== src/Staking/Access.antt =====
-- Who may send which message: the guards of `handle_update_global_index` of
-- src/global.rs and of the handlers of src/user.rs.
use dogether_contracts.Prelude.{
  ◌≡◌, String, some, ok, arith, string_eq, list_eq, nat_eq, Outcome-cases, Option-cases, inl, inr,
  ℕ,
}
use dogether_contracts.Platform.Types.{Env, MessageInfo, Response}
use dogether_contracts.Platform.Std.{Std, StdResult, Querier}
use dogether_contracts.Staking.Contract.{execute}
use dogether_contracts.Staking.Global.{handle_update_global_index}
use dogether_contracts.Staking.Msg.{Payload, ExecuteMsg, Codec, LotteryConfig}
use dogether_contracts.Staking.Stake.{handle_receive, handle_unbound, handle_withdraw_stake}
use dogether_contracts.Staking.State.{Config, Storage}

-- Whether a sender may send a message: the hook of the token contract is for the token contract,
-- the index and the stake of a holder are in the hands of the admin, and a purchase of tickets is
-- open to all.
abbrev pub IsAllowed : Std → Config → MessageInfo → ExecuteMsg → Type 0
IsAllowed std config info (ExecuteMsg.receive wrapper) =
    std.addr_humanize config.cw20_token_addr ≡ ok info.sender
IsAllowed std config info (ExecuteMsg.unbond_stake amount address) =
    std.addr_canonicalize info.sender ≡ ok config.admin
IsAllowed std config info (ExecuteMsg.withdraw_stake cap address) =
    std.addr_canonicalize info.sender ≡ ok config.admin
IsAllowed std config info ExecuteMsg.update_global_index =
    std.addr_canonicalize info.sender ≡ ok config.admin
IsAllowed std config info (ExecuteMsg.get_ticket recipient combination) = Unit

module _ (std : Std) (codec : Codec) (querier : Querier)
    (lottery : String → StdResult LotteryConfig) (storage : Storage) (config : Config)
    (configured : storage.config ≡ some config) {storage' : Storage} {r : Response Payload}
    (env : Env) (info : MessageInfo) where
  -- A message of the staking contract succeeds only if it is a purchase of tickets, or is the hook
  -- of the token contract and comes from it, or is an update of the index, an unbonding or a
  -- withdrawal and comes from the admin.
  pub execute-IsAllowed :
      (msg : ExecuteMsg)
      → execute std codec querier lottery storage env info msg ≡ ok (storage', r)
      → IsAllowed std config info msg
  unfolding execute handle_update_global_index handle_receive handle_unbound handle_withdraw_stake
  execute-IsAllowed (ExecuteMsg.get_ticket recipient combination) e = tt
  execute-IsAllowed ExecuteMsg.update_global_index e = elim (Option-cases storage.state) [
    | inl missing ↦ absurd (ground arith)
    | inr (s, loaded) ↦ elim (Outcome-cases (std.addr_canonicalize info.sender)) [
      | inr fails ↦ absurd (ground arith)
      | inl (sender, c) ↦ ground (arith, (list_eq {A = ℕ}).beq_iff config.admin sender)
    ]
  ]
  execute-IsAllowed (ExecuteMsg.unbond_stake amount address) e =
      elim (Outcome-cases (std.addr_canonicalize info.sender)) [
        | inr fails ↦ absurd (ground arith)
        | inl (sender, c) ↦ ground (arith, (list_eq {A = ℕ}).beq_iff config.admin sender)
      ]
  execute-IsAllowed (ExecuteMsg.withdraw_stake cap address) e =
      elim (Outcome-cases (std.addr_canonicalize info.sender)) [
        | inr fails ↦ absurd (ground arith)
        | inl (sender, c) ↦ ground (arith, (list_eq {A = ℕ}).beq_iff config.admin sender)
      ]
  execute-IsAllowed (ExecuteMsg.receive wrapper) e =
      elim (Outcome-cases (std.addr_humanize config.cw20_token_addr)) [
        | inr fails ↦ absurd (ground arith)
        | inl (token, c) ↦ ground (arith, string_eq.beq_iff info.sender token)
      ]
