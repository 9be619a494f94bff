-- ===== src/Staking/Ticket/Combinations.antt =====
-- Which combinations `handle_get_ticket` of src/user.rs registers.
use dogether_contracts.Prelude.{
  ℕ, ◌≡◌, ◌≢◌, String, none, List, [], ◌∷◌, Eq, All, list_eq, nat_eq, pair_eq, string_eq,
}
use dogether_contracts.Platform.Storage.{Map, may_load}
use dogether_contracts.Platform.Types.{CanonicalAddr}
use dogether_contracts.Staking.State.{CombinationKey}

abbrev pub AreDistinct : List String → Type 0
AreDistinct [] = Unit
AreDistinct (c ∷ cs) = All (λ d. c ≢ d) cs × AreDistinct cs

-- None is stored yet.
abbrev pub AreNew : {K : Type 0} ⦃eq : Eq K⦄ → (String → K) → List String → Map K String → Type 0
AreNew key cs stored = All (λ d. may_load (key d) stored ≡ none) cs

module _ (counter : ℕ) (address : CanonicalAddr) where
  abbrev pub key_of : String → CombinationKey
  key_of combo = (counter, (address, combo))
