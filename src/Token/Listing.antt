-- ===== src/Token/Listing.antt =====
-- The listing of the accounts: `query_all_accounts` of src/enumerable.rs of the token contract.
pub mod Walk
pub mod Reach
use Prim.Native.Nat.{min}
use dogether_contracts.Prelude.{ℕ, String, Option, none, some, List, ok, as_bytes, take}
use dogether_contracts.Platform.Range.{range, keys, string_key}
use dogether_contracts.Platform.Std.{StdResult}
use dogether_contracts.Token.State.{Storage}

abbrev pub max_limit : ℕ
max_limit = 30

abbrev pub default_limit : ℕ
default_limit = 10

-- `limit.unwrap_or(DEFAULT_LIMIT).min(MAX_LIMIT)`
abbrev pub page_size : Option ℕ → ℕ
page_size none = min default_limit max_limit
page_size (some limit) = min limit max_limit

-- `start_after.map(Bound::exclusive)`
abbrev pub start_of : Option String → Option (List ℕ)
start_of none = none
start_of (some account) = some (as_bytes account)

-- `AllAccountsResponse` of the cw20 package.
pub record AllAccountsResponse : Type 0 where
  pub accounts : List String

-- The keys of the balances are addresses, whose bytes are always UTF-8.
unfoldable pub query_all_accounts :
    Storage → Option String → Option ℕ → StdResult AllAccountsResponse
query_all_accounts storage start_after limit = ok (record {
  accounts = take (page_size limit) (keys (range (start_of start_after) storage.balances));
})
