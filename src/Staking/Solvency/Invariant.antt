-- ===== src/Staking/Solvency/Invariant.antt =====
-- The invariant over the stored state and the holders, and how it bears a write.
use dogether_contracts.Prelude.{
  ℕ, ◌+◌, ◌-◌, ◌*◌, ◌≤◌, ◌≡◌, refl, Option, none, some, [], ◌∷◌, arith, list_eq, nat_eq,
  Option-cases, inl, inr,
}
use dogether_contracts.Platform.Types.{CanonicalAddr, decimal_one}
use dogether_contracts.Platform.Storage.{
  Map, values, AllValues, may_load, save, part, values-save, AllValues-save, part-le-values,
  AllValues-may_load,
}
use dogether_contracts.Staking.Rewards.Owed.{owed}
use dogether_contracts.Staking.State.{State, Holder, Storage, new_holder, or_new, read_holder}

abbrev pub balance_of : Holder → ℕ
balance_of holder = holder.balance

-- The stake adds up, no holder is ahead of the global index, and the rewards that are owed are
-- covered by the reward balance that was last seen.
pub record IsSolvent (s : State) (holders : Map CanonicalAddr Holder) : Type 0 where
  pub total : s.total_balance ≡ values balance_of holders
  pub settled : AllValues (λ h. h.index ≤ s.global_index) holders
  pub funded : values (owed s.global_index) holders ≤ s.prev_reward_balance * decimal_one

-- Nothing is asked before the contract is instantiated.
abbrev pub Backs : Option State → Map CanonicalAddr Holder → Type 0
Backs none holders = Unit
Backs (some s) holders = IsSolvent s holders

abbrev pub IsBacked : Storage → Type 0
IsBacked storage = Backs storage.state storage.holders

pub part-or_new : (f : Holder → ℕ) (o : Option Holder) → f new_holder ≡ 0 → part f o ≡ f (or_new o)
part-or_new f none h = omega arith
part-or_new f (some v) h = refl

owed-new : (g : ℕ) → owed g new_holder ≡ 0
owed-new g = omega arith

-- One holder is replaced. The stake moves by what the holder's moves by, and the reward balance
-- still covers the difference in what the holder is owed.
pub save-IsSolvent :
    (s t : State) (holders : Map CanonicalAddr Holder) (k : CanonicalAddr) (v : Holder)
    → IsSolvent s holders
    → t.global_index ≡ s.global_index
    → v.index ≤ s.global_index
    → t.total_balance + balance_of (or_new (may_load k holders)) ≡ s.total_balance + balance_of v
    → owed s.global_index v + s.prev_reward_balance * decimal_one
      ≤ owed s.global_index (or_new (may_load k holders)) + t.prev_reward_balance * decimal_one
    → IsSolvent t (save k v holders)
save-IsSolvent s t holders k v inv same below stake rewards = record {
  total = omega (
    arith,
    inv.total,
    values-save balance_of k v holders,
    part-or_new balance_of (may_load k holders) refl,
  );
  settled = rw same (AllValues-save (λ h. h.index ≤ s.global_index) k v holders inv.settled below);
  funded = rw same (
      omega (
        arith,
        inv.funded,
        values-save (owed s.global_index) k v holders,
        part-or_new (owed s.global_index) (may_load k holders) (owed-new s.global_index),
      ));
}

owed_raise :
    (g g' : ℕ) (h : Holder) → h.index ≤ g → g ≤ g' → owed g' h ≡ owed g h + (g' - g) * h.balance
owed_raise g g' h below up =
    let split : g' - h.index ≡ (g - h.index) + (g' - g) = omega arith in rw split (omega arith)

-- When the index rises, every unit of stake earns the difference.
pub values-owed_raise :
    (g g' : ℕ) (holders : Map CanonicalAddr Holder)
    → AllValues (λ h. h.index ≤ g) holders
    → g ≤ g'
    → values (owed g') holders ≡ values (owed g) holders + (g' - g) * values balance_of holders
values-owed_raise g g' [] all up = omega arith
values-owed_raise g g' ((k, h) ∷ holders) all up =
    omega (arith, owed_raise g g' h all.0 up, values-owed_raise g g' holders all.1 up)

pub settled_raise :
    (g g' : ℕ) (holders : Map CanonicalAddr Holder)
    → AllValues (λ h. h.index ≤ g) holders
    → g ≤ g'
    → AllValues (λ h. h.index ≤ g') holders
settled_raise g g' [] all up = tt
settled_raise g g' ((k, h) ∷ holders) all up =
    (omega (arith, all.0), settled_raise g g' holders all.1 up)

-- A rise of the index is covered where the new balance pays it for the whole stake.
pub raise-IsSolvent :
    (s t : State) (holders : Map CanonicalAddr Holder)
    → IsSolvent s holders
    → t.total_balance ≡ s.total_balance
    → s.global_index ≤ t.global_index
    → (t.global_index - s.global_index) * s.total_balance + s.prev_reward_balance * decimal_one
      ≤ t.prev_reward_balance * decimal_one
    → IsSolvent t holders
raise-IsSolvent s t holders inv same up paid = record {
  total = omega (arith, inv.total);
  settled = settled_raise s.global_index t.global_index holders inv.settled up;
  funded =
      let stake : values balance_of holders ≡ s.total_balance = omega (arith, inv.total) in
      rw (values-owed_raise s.global_index t.global_index holders inv.settled up, stake)
        (omega (arith, inv.funded));
}

-- What the invariant says of one holder: he is not ahead of the index, what he is owed is
-- covered, and his stake is part of the whole.
pub read_holder-settled :
    (s : State) (storage : Storage) (k : CanonicalAddr)
    → IsSolvent s storage.holders
    → (read_holder storage k).index ≤ s.global_index
unfolding read_holder
read_holder-settled s storage k inv = elim (Option-cases (may_load k storage.holders)) [
  | inl none_yet ↦ rw none_yet (omega arith)
  | inr (h, found) ↦
      rw found
        (AllValues-may_load (λ h. h.index ≤ s.global_index) k storage.holders inv.settled found)
]

pub read_holder-funded :
    (s : State) (storage : Storage) (k : CanonicalAddr)
    → IsSolvent s storage.holders
    → owed s.global_index (read_holder storage k) ≤ s.prev_reward_balance * decimal_one
unfolding read_holder
read_holder-funded s storage k inv = omega (
  arith,
  inv.funded,
  part-le-values (owed s.global_index) k storage.holders,
  part-or_new (owed s.global_index) (may_load k storage.holders) (owed-new s.global_index),
)

pub read_holder-total :
    (s : State) (storage : Storage) (k : CanonicalAddr)
    → IsSolvent s storage.holders
    → (read_holder storage k).balance ≤ s.total_balance
unfolding read_holder
read_holder-total s storage k inv = omega (
  arith,
  inv.total,
  part-le-values balance_of k storage.holders,
  part-or_new balance_of (may_load k storage.holders) refl,
)
