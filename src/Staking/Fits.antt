-- ===== src/Staking/Fits.antt =====
-- The stored numbers of the staking contract against the widths of their types in src/state.rs and
-- src/claim.rs.
pub mod Operations
pub mod Messages
use dogether_contracts.Prelude.{
  ℕ, ◌<◌, ◌≡◌, Option, none, some, List, [], ◌∷◌, ◌++◌, ok, arith, All, Outcome-cases, Option-cases,
  inl, inr, list_eq, nat_eq, Bool-cases, String,
}
use dogether_contracts.Platform.Laws.{IsDocumented}
use dogether_contracts.Platform.Std.{Std, Querier}
use dogether_contracts.Platform.Storage.{Map, AllValues, may_load, AllValues-may_load}
use dogether_contracts.Platform.Types.{
  Addr, CanonicalAddr, Coin, Expiration, at_height, at_time, never, StdError, u64_bound, u128_bound,
  BlockInfo, Uint128,
}
use dogether_contracts.Staking.Claim.{or_empty, partition_claims, send_claim}
use dogether_contracts.Staking.Math.{summation_lem}
use dogether_contracts.Staking.Rewards.{calculate_decimal_rewards, all_rewards}
use dogether_contracts.Staking.Rewards.Owed.{owed, all_rewards_value}
use dogether_contracts.Staking.State.{Claim, Holder, State, Storage, read_holder, new_holder}

pub record HolderFits (h : Holder) : Type 0 where
  pub balance : h.balance < u128_bound
  pub index : h.index < u128_bound
  pub pending_rewards : h.pending_rewards < u128_bound

pub record StateFits (s : State) : Type 0 where
  pub global_index : s.global_index < u128_bound
  pub total_balance : s.total_balance < u128_bound
  pub prev_reward_balance : s.prev_reward_balance < u128_bound

abbrev pub ExpirationFits : Expiration → Type 0
ExpirationFits (at_height h) = h < u64_bound
ExpirationFits (at_time t) = t < u64_bound
ExpirationFits never = Unit

pub record ClaimFits (c : Claim) : Type 0 where
  pub amount : c.amount < u128_bound
  pub release_at : ExpirationFits c.release_at

abbrev pub ItemFits : Option State → Type 0
ItemFits none = Unit
ItemFits (some s) = StateFits s

-- Every number of the state, of the holders and of the claims is one of its type.
pub record Fits (storage : Storage) : Type 0 where
  pub state : ItemFits storage.state
  pub holders : AllValues HolderFits storage.holders
  pub claims : AllValues (All ClaimFits) storage.claims

-- The bank reports coins of 128 bits.
abbrev pub QuerierFits : Querier → Type 0
QuerierFits querier =
    (account : Addr) (denom : String) (coin : Coin)
    → querier.balance account denom ≡ ok coin
    → coin.amount < u128_bound

pub read_holder-HolderFits :
    (storage : Storage) (k : CanonicalAddr)
    → AllValues HolderFits storage.holders
    → HolderFits (read_holder storage k)
unfolding read_holder
read_holder-HolderFits storage k h = elim (Option-cases (may_load k storage.holders)) [
  | inl none_yet ↦
      rw none_yet
        (record { balance = omega arith; index = omega arith; pending_rewards = omega arith })
  | inr (v, found) ↦ rw found (AllValues-may_load HolderFits k storage.holders h found)
]

pub or_empty-ClaimFits :
    (k : CanonicalAddr) (claims : Map CanonicalAddr (List Claim))
    → AllValues (All ClaimFits) claims
    → All ClaimFits (or_empty (may_load k claims))
or_empty-ClaimFits k claims h = elim (Option-cases (may_load k claims)) [
  | inl none_yet ↦ rw none_yet tt
  | inr (v, found) ↦ rw found (AllValues-may_load (All ClaimFits) k claims h found)
]

pub All-snoc :
    {A : Type 0} (P : A → Type 0) (xs : List A) {x : A} → All P xs → P x → All P (xs ++ x ∷ [])
All-snoc P [] h p = (p, tt)
All-snoc P (y ∷ ys) h p = (h.0, All-snoc P ys h.1 p)

module _ (std : Std) (doc : IsDocumented std) where
  -- The rewards that are answered are a decimal.
  pub all_rewards-fits :
      (s : State) (h : Holder) {r : ℕ}
      → all_rewards std s h ≡ ok r
      → owed s.global_index h < u128_bound
  unfolding all_rewards
  all_rewards-fits s h e =
      elim (Outcome-cases (calculate_decimal_rewards std s.global_index h.index h.balance)) [
        | inr fails ↦ absurd (ground arith)
        | inl (c, d) ↦ ground (
          arith,
          all_rewards_value std doc s h e,
          summation_lem std doc {E = StdError} c h.pending_rewards,
        )
      ]

module _ (std : Std) (block : BlockInfo) (cap : Option Uint128) where
  -- What waits is among the claims.
  pub partition_claims-All :
      (P : Claim → Type 0) (to_send : Uint128) (claims : List Claim) {total : Uint128}
      {waiting : List Claim}
      → All P claims
      → partition_claims std block cap to_send claims ≡ ok (total, waiting)
      → All P waiting
  unfolding partition_claims
  partition_claims-All P to_send [] {total} {waiting} h e =
      let same : waiting ≡ [] = ground arith in rw same tt
  partition_claims-All P to_send (c ∷ claims) {total} {waiting} h e =
      elim (Outcome-cases (send_claim std block cap to_send c)) [
        | inr fails ↦ absurd (ground arith)
        | inl ((t, sent), d) ↦ elim (Outcome-cases (partition_claims std block cap t claims)) [
          | inr fails ↦ absurd (ground arith)
          | inl ((final, rest), f) ↦
              let tail = partition_claims-All P t claims {total = final} {waiting = rest} h.1 f in
              elim (Bool-cases sent) [
                | inl gone ↦ let same : waiting ≡ rest = ground arith in rw same tail
                | inr stays ↦ let same : waiting ≡ c ∷ rest = ground arith in rw same (h.0, tail)
              ]
        ]
      ]
