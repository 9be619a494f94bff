-- ===== src/Staking/Stake/Effects.antt =====
-- What `handle_bond` and `handle_unbound` of src/user.rs have done where they succeed.
use dogether_contracts.Prelude.{
  ◌+◌, ◌-◌, ◌≤◌, ◌<◌, ◌≡◌, ◌++◌, [], ◌∷◌, String, some, ok, arith, list_eq, nat_eq, Outcome-cases,
  inl, inr,
}
use dogether_contracts.Platform.Types.{
  Env, MessageInfo, Uint128, CanonicalAddr, Response, at_height,
}
use dogether_contracts.Platform.Std.{Std, add_u64}
use dogether_contracts.Platform.Storage.{may_load, save}
use dogether_contracts.Platform.Laws.{IsDocumented}
use dogether_contracts.Staking.Claim.{create_claim, or_empty}
use dogether_contracts.Staking.Custody.Held.{burned}
use dogether_contracts.Staking.Msg.{Payload}
use dogether_contracts.Staking.Rewards.{all_rewards}
use dogether_contracts.Staking.Rewards.Owed.{owed, all_rewards_value}
use dogether_contracts.Staking.Stake.{handle_bond, handle_unbound}
use dogether_contracts.Staking.State.{Holder, State, Storage, Config, read_holder, store_holder}

-- The holder's rewards are settled at the global index, and the balance is `balance`.
abbrev pub settled_holder : State → Holder → Uint128 → Holder
settled_holder s holder balance = record {
  balance = balance;
  index = s.global_index;
  pending_rewards = owed s.global_index holder;
}

-- A settled holder is owed what the holder was owed before, whatever the new balance.
pub owed-settled_holder :
    (s : State) (h : Holder) (balance : Uint128)
    → owed s.global_index (settled_holder s h balance) ≡ owed s.global_index h
owed-settled_holder s h balance =
    let nothing : s.global_index - s.global_index ≡ 0 = omega arith in rw nothing (omega arith)

module _ (storage : Storage) (raw : CanonicalAddr) (s : State) (amount : Uint128) where
  -- A holder has `amount` more stake, and so has the contract; his rewards are settled.
  pub record HasBonded (storage' : Storage) (r : Response Payload) : Type 0 where
    pub below : (read_holder storage raw).index ≤ s.global_index
    pub holders :
        storage'.holders
        ≡ save raw
            (settled_holder s
              (read_holder storage raw)
              ((read_holder storage raw).balance + amount))
            storage.holders
    pub state : storage'.state ≡ some (record s { total_balance = s.total_balance + amount })
    pub claims : storage'.claims ≡ storage.claims
    pub positive : 0 < amount
    pub burns : burned r.messages ≡ 0

  -- A holder has `amount` less stake, which waits as a claim; his rewards are settled.
  pub record HasUnbonded (env : Env) (config : Config) (storage' : Storage) (r : Response Payload)
      : Type 0 where
    pub below : (read_holder storage raw).index ≤ s.global_index
    pub covered : amount ≤ (read_holder storage raw).balance
    pub in_total : amount ≤ s.total_balance
    pub holders :
        storage'.holders
        ≡ save raw
            (settled_holder s
              (read_holder storage raw)
              ((read_holder storage raw).balance - amount))
            storage.holders
    pub state : storage'.state ≡ some (record s { total_balance = s.total_balance - amount })
    pub claims :
        storage'.claims
        ≡ save raw
            (or_empty (may_load raw storage.claims)
              ++ record {
                amount = amount;
                release_at = at_height (env.block.height + config.unbonding_period);
              }
                ∷ [])
            storage.claims
    pub positive : 0 < amount
    pub burns : burned r.messages ≡ 0

module _ (std : Std) (doc : IsDocumented std) (storage : Storage) (raw : CanonicalAddr) (s : State)
    (loaded : storage.state ≡ some s) where
  pub handle_bond-HasBonded :
      (info : MessageInfo) (holder_addr : String) (amount : Uint128) {storage' : Storage}
      {r : Response Payload}
      → std.addr_canonicalize holder_addr ≡ ok raw
      → handle_bond std storage info holder_addr amount ≡ ok (storage', r)
      → HasBonded storage raw s amount storage' r
  unfolding handle_bond store_holder
  handle_bond-HasBonded info holder_addr amount canonical e =
      elim (Outcome-cases (all_rewards std s (read_holder storage raw))) [
        | inl (p, c) ↦ ground (
          arith,
          all_rewards_value std doc s (read_holder storage raw) c,
          doc.add_lem (read_holder storage raw).balance amount,
          doc.add_lem s.total_balance amount,
        )
        | inr fails ↦ absurd (ground arith)
      ]

  pub handle_unbound-HasUnbonded :
      (env : Env) (info : MessageInfo) (amount : Uint128) (address : String) (config : Config)
      {storage' : Storage} {r : Response Payload}
      → storage.config ≡ some config
      → std.addr_canonicalize address ≡ ok raw
      → handle_unbound std storage env info amount address ≡ ok (storage', r)
      → HasUnbonded storage raw s amount env config storage' r
  unfolding handle_unbound store_holder create_claim add_u64
  handle_unbound-HasUnbonded env info amount address config configured canonical e =
      elim (Outcome-cases (all_rewards std s (read_holder storage raw))) [
        | inl (p, c) ↦ ground (
          arith,
          all_rewards_value std doc s (read_holder storage raw) c,
          doc.checked_sub_lem (read_holder storage raw).balance amount,
          doc.checked_sub_lem s.total_balance amount,
        )
        | inr fails ↦ absurd (ground arith)
      ]
