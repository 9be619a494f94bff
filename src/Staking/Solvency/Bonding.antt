-- ===== src/Staking/Solvency/Bonding.antt =====
-- When `handle_receive` of src/user.rs succeeds.
use dogether_contracts.Prelude.{
  ◌+◌, ◌*◌, ◌≡◌, ◌<◌, String, some, [], ok, arith, list_eq, nat_eq, string_eq, beq_self,
  Outcome-cases, inl, inr,
}
use dogether_contracts.Platform.Laws.{IsDocumented}
use dogether_contracts.Platform.Std.{Std}
use dogether_contracts.Platform.Types.{
  CanonicalAddr, Cw20ReceiveMsg, MessageInfo, Response, Uint128, decimal_one, u128_bound,
}
use dogether_contracts.Staking.Msg.{Codec, Payload, bond_stake}
use dogether_contracts.Staking.Rewards.Owed.{owed, all_rewards_total}
use dogether_contracts.Staking.Solvency.Invariant.{
  IsBacked, IsSolvent, read_holder-settled, read_holder-total,
}
use dogether_contracts.Staking.Stake.{handle_bond, handle_receive}
use dogether_contracts.Staking.Stake.Effects.{HasBonded, handle_bond-HasBonded}
use dogether_contracts.Staking.State.{Config, State, Storage, read_holder}

module _ (std : Std) (doc : IsDocumented std) (codec : Codec) (storage : Storage) (s : State)
    (config : Config) (loaded : storage.state ≡ some s)
    (configured : storage.config ≡ some config) where
  handle_bond_total :
      (info : MessageInfo) (holder_addr : String) (amount : Uint128) (raw : CanonicalAddr)
      → IsBacked storage
      → info.funds ≡ []
      → 0 < amount
      → std.addr_canonicalize holder_addr ≡ ok raw
      → s.global_index < u128_bound
      → (read_holder storage raw).balance * decimal_one < u128_bound
      → owed s.global_index (read_holder storage raw) < u128_bound
      → s.total_balance + amount < u128_bound
      → (storage' : Storage) × (r : Response Payload) × (handle_bond std storage info holder_addr
            amount
          ≡ ok (storage', r))
  unfolding handle_bond
  handle_bond_total info holder_addr amount raw inv unfunded positive canonical small_index
        small_balance small_owed room =
      let solvent : IsSolvent s storage.holders = rw loaded at inv in
      let holder = read_holder storage raw in
      let sum =
        all_rewards_total std doc s holder (read_holder-settled s storage raw solvent) small_index
          small_balance small_owed in
      elim (Outcome-cases (handle_bond std storage info holder_addr amount)) [
        | inl ((storage', r), e) ↦ (storage', r, e)
        | inr fails ↦ absurd (
            ground (
              arith,
              sum,
              read_holder-total s storage raw solvent,
              doc.add_lem holder.balance amount,
              doc.add_lem s.total_balance amount,
            ))
      ]

  -- In a backed contract the hook of the token contract with a bond message and a positive amount
  -- succeeds where no coins are sent and the numbers fit their integers; the stake of the sender
  -- and the total stake grow by the amount and his rewards are settled.
  pub handle_receive_total :
      (info : MessageInfo) (wrapper : Cw20ReceiveMsg) (raw : CanonicalAddr)
      → IsBacked storage
      → std.addr_humanize config.cw20_token_addr ≡ ok info.sender
      → codec.from_binary wrapper.msg ≡ ok bond_stake
      → info.funds ≡ []
      → 0 < wrapper.amount
      → std.addr_canonicalize wrapper.sender ≡ ok raw
      → s.global_index < u128_bound
      → (read_holder storage raw).balance * decimal_one < u128_bound
      → owed s.global_index (read_holder storage raw) < u128_bound
      → s.total_balance + wrapper.amount < u128_bound
      → (storage' : Storage) × (r : Response Payload) × (handle_receive std codec storage info
            wrapper
          ≡ ok (storage', r))
        × HasBonded storage raw s wrapper.amount storage' r
  unfolding handle_receive
  handle_receive_total info wrapper raw inv humanized decoded unfunded positive canonical
        small_index small_balance small_owed room =
      let (storage', r, e) =
        handle_bond_total info wrapper.sender wrapper.amount raw inv unfunded positive canonical
          small_index small_balance small_owed room in
      (
        storage',
        r,
        ground (arith, e, humanized, decoded, beq_self info.sender),
        handle_bond-HasBonded std doc storage raw s loaded info wrapper.sender wrapper.amount
            canonical e,
      )
