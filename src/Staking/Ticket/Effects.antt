-- ===== src/Staking/Ticket/Effects.antt =====
-- What `handle_get_ticket` of src/user.rs has done where it succeeds.
use dogether_contracts.Prelude.{
  ℕ, ◌+◌, ◌-◌, ◌*◌, ◌/◌, ◌≤◌, ◌≡◌, String, List, length, some, ok, arith, list_eq, nat_eq,
  Outcome-cases, Option-cases, inl, inr,
}
use dogether_contracts.Platform.Types.{CanonicalAddr, Response, decimal_one}
use dogether_contracts.Platform.Std.{Std, StdResult, Querier}
use dogether_contracts.Platform.Storage.{save}
use dogether_contracts.Platform.Laws.{IsDocumented}
use dogether_contracts.Staking.Custody.Held.{burned, paid_out}
use dogether_contracts.Staking.Msg.{Payload, LotteryConfig}
use dogether_contracts.Staking.Rewards.{all_rewards}
use dogether_contracts.Staking.Rewards.Owed.{owed, all_rewards_value}
use dogether_contracts.Staking.Ticket.{ticket_cost, handle_get_ticket}
use dogether_contracts.Staking.State.{State, Storage, Config, read_holder, store_holder}

module _ (storage : Storage) (raw : CanonicalAddr) (s : State) where
  -- The cost with fees is paid from the whole units of the rewards and from the reward balance,
  -- what is left of the rewards becomes the pending ones, and no more than the cost is sent.
  pub record HasBought (storage' : Storage) (r : Response Payload) (paid : ℕ) : Type 0 where
    pub below : (read_holder storage raw).index ≤ s.global_index
    pub affordable : paid ≤ owed s.global_index (read_holder storage raw) / decimal_one
    pub in_balance : paid ≤ s.prev_reward_balance
    pub holders :
        storage'.holders
        ≡ save raw
            (record (read_holder storage raw) {
              pending_rewards =
                  (owed s.global_index (read_holder storage raw) / decimal_one - paid)
                  * decimal_one;
              index = s.global_index;
            })
            storage.holders
    pub state :
        storage'.state ≡ some (record s { prev_reward_balance = s.prev_reward_balance - paid })
    pub claims : storage'.claims ≡ storage.claims
    pub burns : burned r.messages ≡ 0
    pub covers : paid_out r.messages ≤ paid

module _ (std : Std) (doc : IsDocumented std) (querier : Querier)
    (lottery : String → StdResult LotteryConfig) (storage : Storage) (raw : CanonicalAddr)
    (s : State) (loaded : storage.state ≡ some s) (config : Config)
    (configured : storage.config ≡ some config) where
  pub handle_get_ticket-HasBought :
      (recipient : String) (combination : List String) {storage' : Storage} {r : Response Payload}
      → std.addr_canonicalize recipient ≡ ok raw
      → handle_get_ticket std querier lottery storage recipient combination ≡ ok (storage', r)
      → (paid : ℕ) × HasBought storage raw s storage' r paid
  unfolding handle_get_ticket store_holder
  handle_get_ticket-HasBought recipient combination canonical e =
      elim (Outcome-cases (all_rewards std s (read_holder storage raw))) [
        | inr fails ↦ absurd (ground arith)
        | inl (p, c1) ↦ elim (Option-cases (std.mul_decimal p 1)) [
          | inl fails ↦ absurd (ground arith)
          | inr (rewards, c2) ↦ elim (Outcome-cases (std.addr_humanize config.loterra_addr)) [
            | inr fails ↦ absurd (ground arith)
            | inl (human, c3) ↦ elim (Outcome-cases (lottery human)) [
              | inr fails ↦ absurd (ground arith)
              | inl (answer, c4) ↦
                  elim (Outcome-cases
                    (ticket_cost std querier config.reward_denom answer (length combination))) [
                      | inr fails ↦ absurd (ground arith)
                      | inl ((cost, fee), c5) ↦
                          elim (Option-cases (std.from_ratio (rewards - (cost + fee)) 1)) [
                            | inl fails ↦ absurd (
                                ground (
                                  arith,
                                  doc.checked_add_lem cost fee,
                                  doc.checked_sub_lem rewards (cost + fee),
                                ))
                            | inr (left, c6) ↦ (
                              cost + fee,
                              ground (
                                arith,
                                all_rewards_value std doc s (read_holder storage raw) c1,
                                doc.mul_decimal_value p 1 c2,
                                doc.from_ratio_value (rewards - (cost + fee)) 1 c6,
                                doc.checked_add_lem cost fee,
                                doc.checked_sub_lem s.prev_reward_balance (cost + fee),
                                doc.checked_sub_lem rewards (cost + fee),
                              ),
                            )
                          ]
                    ]
            ]
          ]
        ]
      ]
