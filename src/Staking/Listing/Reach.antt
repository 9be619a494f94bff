-- ===== src/Staking/Listing/Reach.antt =====
-- The listing of the holders in the states that the staking contract reaches.
use dogether_contracts.Prelude.{ℕ, ◌<◌, ◌≡◌, Option, none, ok, list_eq, nat_eq, All, length}
use dogether_contracts.Platform.Laws.{IsDocumented}
use dogether_contracts.Platform.Range.{IsAscending, ascending, ascending-IsAscending, bytes_key}
use dogether_contracts.Platform.Range.Content.{may_load-ascending}
use dogether_contracts.Platform.Std.{Std}
use dogether_contracts.Platform.Storage.{Map, may_load}
use dogether_contracts.Platform.Types.{CanonicalAddr}
use dogether_contracts.Staking.Frame.Kept.{Reaches-IsUnique}
use dogether_contracts.Staking.Listing.{page_size, responses}
use dogether_contracts.Staking.Listing.Pages.{IsNamed}
use dogether_contracts.Staking.Listing.Walk.{walk, walk_lem}
use dogether_contracts.Staking.Msg.{Codec}
use dogether_contracts.Staking.Solvency.Reach.{Reaches}
use dogether_contracts.Staking.State.{Holder, Storage}

module _ (std : Std) (doc : IsDocumented std) (codec : Codec) where
  -- In every state that the staking contract can reach, where the stored keys have the length of
  -- the chain's canonical addresses and human forms that lead back to them, a client that reads the
  -- holders page after page, each page after the last address of the one before, with a positive
  -- limit and more pages than there are holders, reads the answers for an ascending list of entries
  -- from which every key reads what it reads from the stored holders: each holder once, and no
  -- other.
  pub query_holders-IsAscending :
      (width : ℕ) (storage : Storage) (limit : Option ℕ) (fuel : ℕ)
      → Reaches std codec storage
      → All (IsNamed std width) storage.holders
      → 0 < page_size limit
      → length storage.holders < fuel
      → (listing : Map CanonicalAddr Holder) × (responses std listing
          ≡ ok (walk std storage limit fuel none))
        × IsAscending listing
        × ((k : CanonicalAddr) → may_load k listing ≡ may_load k storage.holders)
  query_holders-IsAscending width storage limit fuel reached named p h =
      let u = Reaches-IsUnique std doc codec reached in
      (
        ascending storage.holders,
        walk_lem std width storage u named limit fuel p h,
        ascending-IsAscending storage.holders u,
        λ k. may_load-ascending k storage.holders u,
      )
