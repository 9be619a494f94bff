-- ===== src/Token/Examples/Listing.antt =====
-- The listing of the accounts and the check of the description on the concrete chain.
use dogether_contracts.Prelude.{
  ◌≡◌, ◌↔◌, refl, none, some, [], ◌∷◌, ok, arith, string_eq, take, last, bytes_ltb,
}
use dogether_contracts.Platform.Range.{range, IsAscending, keys, string_key}
use dogether_contracts.Platform.Sample.{sample_std, sample-IsDocumented}
use dogether_contracts.Platform.Storage.{Map, may_load}
use dogether_contracts.Platform.Types.{Addr, Uint128}
use dogether_contracts.Token.Description.{IsDescribed, validate-IsDescribed}
use dogether_contracts.Token.Examples.{rows, init_msg, burned, program, call, reached}
use dogether_contracts.Token.Listing.{query_all_accounts}
use dogether_contracts.Token.Listing.Reach.{query_all_accounts-IsAscending}
use dogether_contracts.Token.Listing.Walk.{walk}
use dogether_contracts.Token.Msg.{validate}

-- Pages of one account.
pages : walk burned (some 1) 5 none ≡ "alice" ∷ "bob" ∷ "staking" ∷ []
unfolding program call walk query_all_accounts take range bytes_ltb last
pages = refl

query_all_accounts-IsAscending_example :
    (listing : Map Addr Uint128) × (walk burned (some 1) 5 none ≡ keys listing)
    × IsAscending listing
    × ((account : Addr) → may_load account listing ≡ may_load account burned.balances)
unfolding program call
query_all_accounts-IsAscending_example =
    query_all_accounts-IsAscending sample_std sample-IsDocumented "pool" rows burned (some 1) 5
      reached (omega arith) (omega arith)

validate-IsDescribed_example : (validate init_msg ≡ ok tt) ↔ IsDescribed init_msg
validate-IsDescribed_example = validate-IsDescribed init_msg
