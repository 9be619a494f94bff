-- ===== src/Staking/Query/Accrued.antt =====
-- What `query_accrued_rewards` of src/user.rs answers, and how the answer depends on the stored
-- holder.
use dogether_contracts.Prelude.{
  ℕ, ◌/◌, ◌≡◌, refl, String, some, ok, arith, list_eq, nat_eq, Outcome-cases, Option-cases,
  Bool-cases, inl, inr, if◌then◌else◌,
}
use dogether_contracts.Platform.Types.{CanonicalAddr, decimal_one}
use dogether_contracts.Platform.Std.{Std}
use dogether_contracts.Platform.Storage.{save, may_load-save}
use dogether_contracts.Platform.Laws.{IsDocumented}
use dogether_contracts.Staking.Msg.{AccruedRewardsResponse}
use dogether_contracts.Staking.Query.{query_accrued_rewards}
use dogether_contracts.Staking.Rewards.{all_rewards}
use dogether_contracts.Staking.Rewards.Owed.{owed, all_rewards_value}
use dogether_contracts.Staking.State.{State, Holder, Storage, read_holder}

module _ (std : Std) (doc : IsDocumented std) where
  -- The answer is the whole part of what is owed.
  pub query_accrued_rewards_value :
      (storage : Storage) (address : String) (raw : CanonicalAddr) (s : State)
      {a : AccruedRewardsResponse}
      → std.addr_canonicalize address ≡ ok raw
      → storage.state ≡ some s
      → query_accrued_rewards std storage address ≡ ok a
      → a.rewards ≡ owed s.global_index (read_holder storage raw) / decimal_one
  unfolding query_accrued_rewards
  query_accrued_rewards_value storage address raw s {a} canonical loaded e =
      elim (Outcome-cases (all_rewards std s (read_holder storage raw))) [
        | inr fails ↦ absurd (ground arith)
        | inl (p, c) ↦ elim (Option-cases (std.mul_decimal p 1)) [
          | inl fails ↦ absurd (ground arith)
          | inr (rewards, d) ↦ ground (
            arith,
            all_rewards_value std doc s (read_holder storage raw) c,
            doc.mul_decimal_value p 1 d,
          )
        ]
      ]

-- Reading a holder after another holder, or the same one, was written.
pub read_holder-save :
    (storage storage' : Storage) (k j : CanonicalAddr) (v : Holder)
    → storage'.holders ≡ save k v storage.holders
    → read_holder storage' j ≡ (if (list_eq {A = ℕ}).beq k j then v else read_holder storage j)
unfolding read_holder
read_holder-save storage storage' k j v e = rw (e, may_load-save) (ground arith)

-- A write that leaves its holder with the same claim leaves everybody with the same claim.
same_owed :
    (storage storage' : Storage) (g : ℕ) (k j : CanonicalAddr) (v : Holder)
    → storage'.holders ≡ save k v storage.holders
    → owed g v ≡ owed g (read_holder storage k)
    → owed g (read_holder storage' j) ≡ owed g (read_holder storage j)
same_owed storage storage' g k j v written same = elim (Bool-cases ((list_eq {A = ℕ}).beq k j)) [
  | inl here ↦
      let e : k ≡ j = ((list_eq {A = ℕ}).beq_iff k j).0 here in
      rw (read_holder-save storage storage' k j v written, here) (rw (← e) same)
  | inr there ↦ rw (read_holder-save storage storage' k j v written, there) refl
]

module _ (std : Std) (doc : IsDocumented std) (storage storage' : Storage) (address : String)
    {before after : AccruedRewardsResponse}
    (asked : query_accrued_rewards std storage address ≡ ok before)
    (asked' : query_accrued_rewards std storage' address ≡ ok after) where
  -- A settled holder is written, and the index stays.
  pub settled_accrued :
      (raw : CanonicalAddr) (s t : State) (v : Holder)
      → storage.state ≡ some s
      → storage'.state ≡ some t
      → t.global_index ≡ s.global_index
      → storage'.holders ≡ save raw v storage.holders
      → owed s.global_index v ≡ owed s.global_index (read_holder storage raw)
      → after.rewards ≡ before.rewards
  unfolding query_accrued_rewards
  settled_accrued raw s t v loaded loaded' index written same =
      elim (Outcome-cases (std.addr_canonicalize address)) [
        | inr fails ↦ absurd (ground arith)
        | inl (j, found) ↦ rw (
          query_accrued_rewards_value std doc storage address j s found loaded asked,
          query_accrued_rewards_value std doc storage' address j t found loaded' asked',
          index,
          same_owed storage storage' s.global_index raw j v written same,
        )
      ]
