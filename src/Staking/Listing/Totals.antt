-- ===== src/Staking/Listing/Totals.antt =====
-- The listing of the holders against the total stake that the contract reports.
use dogether_contracts.Prelude.{
  ℕ, ◌<◌, ◌≡◌, sym, ◌∙◌, none, Option, List, [], ◌∷◌, ok, arith, list_eq, nat_eq, All, length,
  sum_by, Outcome-cases, Option-cases, inl, inr,
}
use dogether_contracts.Platform.Laws.{IsDocumented}
use dogether_contracts.Platform.Range.{ascending, bytes_key}
use dogether_contracts.Platform.Range.Content.{values-ascending}
use dogether_contracts.Platform.Std.{Std}
use dogether_contracts.Platform.Storage.{Map, values}
use dogether_contracts.Platform.Types.{CanonicalAddr}
use dogether_contracts.Staking.Contract.{query_state}
use dogether_contracts.Staking.Frame.Kept.{Reaches-IsUnique}
use dogether_contracts.Staking.Listing.{page_size, responses}
use dogether_contracts.Staking.Listing.Pages.{IsNamed}
use dogether_contracts.Staking.Listing.Walk.{walk, walk_lem}
use dogether_contracts.Staking.Msg.{Codec, HolderResponse, StateResponse}
use dogether_contracts.Staking.Solvency.Invariant.{balance_of, IsBacked}
use dogether_contracts.Staking.Solvency.Reach.{Reaches, Reaches-IsBacked}
use dogether_contracts.Staking.State.{Holder, Storage}

abbrev pub staked : List HolderResponse → ℕ
staked = sum_by (λ r. r.balance)

staked-responses :
    (std : Std) (m : Map CanonicalAddr Holder) {rs : List HolderResponse}
    → responses std m ≡ ok rs
    → staked rs ≡ values balance_of m
unfolding responses
staked-responses std [] e = ground arith
staked-responses std ((k, v) ∷ m) e = elim (Outcome-cases (std.addr_humanize k)) [
  | inr fails ↦ absurd (ground arith)
  | inl (name, c) ↦ elim (Outcome-cases (responses std m)) [
    | inr fails ↦ absurd (ground arith)
    | inl (rest, d) ↦ ground (arith, staked-responses std m d)
  ]
]

query_state_total :
    (std : Std) (storage : Storage) {answer : StateResponse}
    → IsBacked storage
    → query_state std storage ≡ ok answer
    → answer.total_balance ≡ values balance_of storage.holders
unfolding query_state
query_state_total std storage {answer} backed e = elim (Option-cases storage.state) [
  | inl missing ↦ absurd (ground arith)
  | inr (s, loaded) ↦
      let same : answer.total_balance ≡ s.total_balance = ground arith in
      same ∙ (rw loaded at backed).total
]

module _ (std : Std) (doc : IsDocumented std) (codec : Codec) where
  -- In every state that the staking contract can reach, where the stored keys have the length of
  -- the chain's canonical addresses and human forms that lead back to them, a client that reads the
  -- holders page after page, with a positive limit and more pages than there are holders, reads
  -- balances that add up to the total stake that the state query answers.
  pub query_state-query_holders :
      (width : ℕ) (storage : Storage) (limit : Option ℕ) (fuel : ℕ) (answer : StateResponse)
      → Reaches std codec storage
      → All (IsNamed std width) storage.holders
      → 0 < page_size limit
      → length storage.holders < fuel
      → query_state std storage ≡ ok answer
      → staked (walk std storage limit fuel none) ≡ answer.total_balance
  query_state-query_holders width storage limit fuel answer reached named p h e =
      let u = Reaches-IsUnique std doc codec reached in
      staked-responses std (ascending storage.holders)
        (walk_lem std width storage u named limit fuel p h)
      ∙ values-ascending balance_of storage.holders
      ∙ sym (query_state_total std storage (Reaches-IsBacked std codec doc reached) e)
