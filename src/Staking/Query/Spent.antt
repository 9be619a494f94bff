-- ===== src/Staking/Query/Spent.antt =====
-- `query_accrued_rewards` before and after `handle_get_ticket` of src/user.rs.
use native.Mathlib.Nat.{mul-div_cancel}
use dogether_contracts.Prelude.{
  ℕ, ◌+◌, ◌-◌, ◌*◌, ◌/◌, ◌≤◌, ◌≡◌, String, List, some, ok, arith, list_eq, nat_eq, Option-cases,
  Bool-cases, if◌then◌else◌, inl, inr,
}
use dogether_contracts.Platform.Types.{Response, CanonicalAddr, decimal_one}
use dogether_contracts.Platform.Std.{Std, StdResult, Querier}
use dogether_contracts.Platform.Laws.{IsDocumented}
use dogether_contracts.Staking.Custody.Held.{paid_out}
use dogether_contracts.Staking.Msg.{Payload, LotteryConfig, AccruedRewardsResponse}
use dogether_contracts.Staking.Query.{query_accrued_rewards}
use dogether_contracts.Staking.Query.Accrued.{query_accrued_rewards_value, read_holder-save}
use dogether_contracts.Staking.Rewards.Owed.{owed}
use dogether_contracts.Staking.Ticket.{handle_get_ticket}
use dogether_contracts.Staking.Ticket.Effects.{HasBought, handle_get_ticket-HasBought}
use dogether_contracts.Staking.State.{State, Holder, Storage, read_holder}

-- What a buyer is owed after paying.
owed_after :
    (g rewards paid : ℕ) (h : Holder)
    → owed g (record h { pending_rewards = (rewards - paid) * decimal_one; index = g })
        / decimal_one
      ≡ rewards - paid
owed_after g rewards paid h =
    let nothing : g - g ≡ 0 = omega arith in
    rw nothing (omega (arith, mul-div_cancel (rewards - paid) {n = decimal_one} (omega arith)))

module _ (std : Std) (doc : IsDocumented std) (querier : Querier)
    (lottery : String → StdResult LotteryConfig) (storage : Storage) {storage' : Storage}
    {r : Response Payload} (address : String) {before after : AccruedRewardsResponse}
    (asked : query_accrued_rewards std storage address ≡ ok before)
    (asked' : query_accrued_rewards std storage' address ≡ ok after) (recipient : String)
    (combination : List String)
    (e : handle_get_ticket std querier lottery storage recipient combination
      ≡ ok (storage', r)) where
  bought :
      (raw j : CanonicalAddr) (s : State) (paid : ℕ)
      → std.addr_canonicalize address ≡ ok j
      → storage.state ≡ some s
      → HasBought storage raw s storage' r paid
      → after.rewards + (if (list_eq {A = ℕ}).beq raw j then paid else 0) ≡ before.rewards
  bought raw j s paid found loaded b =
      let old = read_holder storage raw in
      let rewards = owed s.global_index old / decimal_one in
      let was = query_accrued_rewards_value std doc storage address j s found loaded asked in
      let is = query_accrued_rewards_value std doc storage' address j _ found b.state asked' in
      elim (Bool-cases ((list_eq {A = ℕ}).beq raw j)) [
        | inl self ↦
            let e : raw ≡ j = ((list_eq {A = ℕ}).beq_iff raw j).0 self in
            rw (self, was, is, read_holder-save storage storage' raw j _ b.holders, self, ← e)
              (omega (arith, owed_after s.global_index rewards paid old, b.affordable))
        | inr other ↦
            rw (other, was, is, read_holder-save storage storage' raw j _ b.holders, other)
              (omega arith)
      ]

  -- Where a purchase of tickets succeeds, there is an amount that covers the coins its messages
  -- send, by which the rewards that the buyer can query go down, and the rewards of every other
  -- address that has an answer before and after stay the same.
  pub handle_get_ticket-accrued :
      (raw j : CanonicalAddr)
      → std.addr_canonicalize recipient ≡ ok raw
      → std.addr_canonicalize address ≡ ok j
      → (paid : ℕ) × (paid_out r.messages ≤ paid)
        × (after.rewards + (if (list_eq {A = ℕ}).beq raw j then paid else 0) ≡ before.rewards)
  unfolding handle_get_ticket
  handle_get_ticket-accrued raw j canonical found = elim (Option-cases storage.state) [
    | inl missing ↦ absurd (ground arith)
    | inr (s, loaded) ↦ elim (Option-cases storage.config) [
      | inl missing ↦ absurd (ground arith)
      | inr (config, configured) ↦
          let (paid, b) =
            handle_get_ticket-HasBought std doc querier lottery storage raw s loaded config
              configured recipient combination canonical e in
          (paid, b.covers, bought raw j s paid found loaded b)
    ]
  ]
