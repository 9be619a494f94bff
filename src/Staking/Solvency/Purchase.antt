-- ===== src/Staking/Solvency/Purchase.antt =====
-- When `handle_get_ticket` of src/user.rs succeeds.
use dogether_contracts.Prelude.{
  ◌+◌, ◌-◌, ◌*◌, ◌/◌, ◌≤◌, ◌<◌, ◌≡◌, ◌≢◌, refl, String, some, List, [], ◌∷◌, ok, arith, list_eq,
  nat_eq, length, Outcome-cases, inl, inr,
}
use dogether_contracts.Platform.Types.{
  Addr, CanonicalAddr, Response, Uint128, decimal_one, u128_bound,
}
use dogether_contracts.Platform.Std.{Std, StdResult, Querier}
use dogether_contracts.Platform.Laws.{IsDocumented}
use dogether_contracts.Platform.Storage.{Map}
use dogether_contracts.Staking.Msg.{Payload, LotteryConfig}
use dogether_contracts.Staking.Rewards.Owed.{owed, all_rewards_total}
use dogether_contracts.Staking.Solvency.Invariant.{
  IsBacked, IsSolvent, read_holder-settled, read_holder-funded,
}
use dogether_contracts.Staking.Ticket.{ticket_cost, store_combinations, handle_get_ticket}
use dogether_contracts.Staking.State.{Config, State, Storage, CombinationKey, read_holder}

module _ (std : Std) (doc : IsDocumented std) (querier : Querier)
    (lottery : String → StdResult LotteryConfig) (storage : Storage) (s : State) (config : Config)
    (loaded : storage.state ≡ some s) (configured : storage.config ≡ some config) where
  -- In a backed contract a purchase of at least one combination succeeds where the buyer's whole
  -- rewards are positive and cover the price and the tax, the combinations can be stored, the
  -- addresses are valid, the lottery answers and the numbers fit 128 bits: the recorded reward
  -- balance is then never too small.
  pub handle_get_ticket_total :
      (recipient : String) (combination : List String) (raw : CanonicalAddr) (human address : Addr)
      (answer : LotteryConfig) (cost fee : Uint128) {combinations : Map CombinationKey String}
      → IsBacked storage
      → combination ≢ []
      → std.addr_canonicalize recipient ≡ ok raw
      → std.addr_validate recipient ≡ ok address
      → std.addr_humanize config.loterra_addr ≡ ok human
      → lottery human ≡ ok answer
      → ticket_cost std querier config.reward_denom answer (length combination) ≡ ok (cost, fee)
      → store_combinations answer.lottery_counter raw combination storage.combinations
        ≡ ok combinations
      → s.global_index < u128_bound
      → (read_holder storage raw).balance * decimal_one < u128_bound
      → owed s.global_index (read_holder storage raw) < u128_bound
      → 0 < owed s.global_index (read_holder storage raw) / decimal_one
      → cost + fee ≤ owed s.global_index (read_holder storage raw) / decimal_one
      → (storage' : Storage) × (r : Response Payload) × (handle_get_ticket std querier lottery
            storage recipient combination
          ≡ ok (storage', r))
  unfolding handle_get_ticket
  handle_get_ticket_total recipient [] raw human address answer cost fee inv some_combo canonical
        valid humanized answered priced new small_index small_balance small_owed positive enough =
      absurd (some_combo refl)
  handle_get_ticket_total recipient (c ∷ cs) raw human address answer cost fee {combinations} inv
        some_combo canonical valid humanized answered priced new small_index small_balance
        small_owed positive enough =
      let solvent : IsSolvent s storage.holders = rw loaded at inv in
      let holder = read_holder storage raw in
      let sum =
        all_rewards_total std doc s holder (read_holder-settled s storage raw solvent) small_index
          small_balance small_owed in
      let due = owed s.global_index holder in
      elim (Outcome-cases (handle_get_ticket std querier lottery storage recipient (c ∷ cs))) [
        | inl ((storage', r), e) ↦ (storage', r, e)
        | inr fails ↦ absurd (
            ground (
              arith,
              sum,
              read_holder-funded s storage raw solvent,
              doc.mul_decimal_total due 1,
              doc.checked_add_lem cost fee,
              doc.checked_sub_lem s.prev_reward_balance (cost + fee),
              doc.checked_sub_lem (due / decimal_one) (cost + fee),
              doc.from_ratio_total (due / decimal_one - (cost + fee)) 1,
            ))
      ]
