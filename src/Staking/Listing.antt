-- ===== src/Staking/Listing.antt =====
-- The listing of the holders: `read_holders` and `calc_range_start` of src/state.rs and
-- `query_holders` of src/user.rs.
pub mod Pages
pub mod Walk
pub mod Reach
pub mod Totals
use Prim.Native.Nat.{min}
use dogether_contracts.Prelude.{ℕ, String, Option, none, some, List, [], ◌∷◌, ◌++◌, ok, ◌>>=◌, take}
use dogether_contracts.Platform.Range.{range, bytes_key}
use dogether_contracts.Platform.Std.{Std, StdResult}
use dogether_contracts.Platform.Storage.{Map}
use dogether_contracts.Platform.Types.{Addr, CanonicalAddr}
use dogether_contracts.Staking.Msg.{HolderResponse, HoldersResponse}
use dogether_contracts.Staking.State.{Holder, Storage}

abbrev pub max_limit : ℕ
max_limit = 30

abbrev pub default_limit : ℕ
default_limit = 10

-- `limit.unwrap_or(DEFAULT_LIMIT).min(MAX_LIMIT)`
abbrev pub page_size : Option ℕ → ℕ
page_size none = min default_limit max_limit
page_size (some limit) = min limit max_limit

module _ (std : Std) where
  unfoldable pub calc_range_start : Option Addr → StdResult (Option (List ℕ))
  calc_range_start none = ok none
  calc_range_start (some human) = do v ← std.addr_canonicalize human; ok (some (v ++ 0 ∷ []))

  -- The closure over the entries, and `collect`, which stops at the first error.
  unfoldable pub responses : Map CanonicalAddr Holder → StdResult (List HolderResponse)
  responses [] = ok []
  responses ((k, v) ∷ entries) = do
    address ← std.addr_humanize k
    rest ← responses entries
    ok (
        record {
          address = address;
          balance = v.balance;
          index = v.index;
          pending_rewards = v.pending_rewards;
        }
        ∷ rest)

  unfoldable pub read_holders : Storage → Option Addr → Option ℕ → StdResult (List HolderResponse)
  unfolding calc_range_start responses
  read_holders storage start_after limit = do
    start ← calc_range_start start_after
    responses (take (page_size limit) (range start storage.holders))

  -- The check of the address to start after.
  unfoldable pub validate_start : Option String → StdResult (Option Addr)
  validate_start none = ok none
  validate_start (some start_after) = do address ← std.addr_validate start_after; ok (some address)

  unfoldable pub query_holders : Storage → Option String → Option ℕ → StdResult HoldersResponse
  unfolding read_holders validate_start
  query_holders storage start_after limit = do
    start ← validate_start start_after
    holders ← read_holders storage start limit
    ok (record { holders = holders })
