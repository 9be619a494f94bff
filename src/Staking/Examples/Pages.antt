-- ===== src/Staking/Examples/Pages.antt =====
-- The listing, the untouched holders, the widths and the combinations on the concrete chain.
use dogether_contracts.Prelude.{
  ◌≡◌, ◌≢◌, refl, String, none, some, [], ◌∷◌, ok, arith, list_eq, nat_eq, All, pair_eq, string_eq,
  take, last, bytes_ltb, subst, sym,
}
use dogether_contracts.Platform.Range.{range, IsAscending, bytes_key}
use dogether_contracts.Platform.Sample.{sample_std, sample_querier, sample-IsDocumented}
use dogether_contracts.Platform.Storage.{Map, may_load}
use dogether_contracts.Platform.Types.{CanonicalAddr, Response, Cw20ReceiveMsg}
use dogether_contracts.Staking.Contract.{query_state}
use dogether_contracts.Staking.Examples.{
  sample_codec, sample_lottery, sample_env, by, init_msg, program, stored, sent, call, bond_of,
  with_alice, with_both, rewarded, unbonded, alice, sample_config, reached_rewarded,
}
use dogether_contracts.Staking.Fits.{Fits, QuerierFits}
use dogether_contracts.Staking.Fits.Messages.{execute-Fits}
use dogether_contracts.Staking.Frame.{subject}
use dogether_contracts.Staking.Frame.Kept.{execute-kept}
use dogether_contracts.Staking.Listing.{responses, query_holders}
use dogether_contracts.Staking.Listing.Pages.{IsNamed}
use dogether_contracts.Staking.Listing.Reach.{query_holders-IsAscending}
use dogether_contracts.Staking.Listing.Totals.{staked, query_state-query_holders}
use dogether_contracts.Staking.Listing.Walk.{walk}
use dogether_contracts.Staking.Msg.{ExecuteMsg, Payload}
use dogether_contracts.Staking.Solvency.Bonding.{handle_receive_total}
use dogether_contracts.Staking.Solvency.Reach.{Reaches, instantiated, executed, Reaches-IsBacked}
use dogether_contracts.Staking.Stake.{handle_receive}
use dogether_contracts.Staking.Stake.Effects.{HasBonded}
use dogether_contracts.Staking.State.{Holder, State, Storage, read_holder}

-- The holders are alice and the admin, whose canonical addresses have the same length.
abbrev listed : Storage
listed = stored (call with_alice "token" (bond_of "admin" 50))

reached_listed : Reaches sample_std sample_codec listed
unfolding program call
reached_listed =
    executed sample_querier sample_lottery sample_env (by "token") (bond_of "admin" 50)
      (executed sample_querier sample_lottery sample_env (by "token") (bond_of "alice" 300)
        (instantiated (by "admin") init_msg refl) refl)
      refl

IsNamed-listed : All (IsNamed sample_std 5) listed.holders
unfolding program call
IsNamed-listed = ((refl, "alice", refl, refl, refl), ((refl, "admin", refl, refl, refl), tt))

-- Two pages of one entry show the admin and then alice.
two_pages :
    walk sample_std listed (some 1) 5 none
    ≡ record { address = "admin"; balance = 50; index = 0; pending_rewards = 0 }
      ∷ record { address = "alice"; balance = 300; index = 0; pending_rewards = 0 }
      ∷ []
unfolding program call walk query_holders take range bytes_ltb last
two_pages = refl

query_holders-IsAscending_example :
    (listing : Map CanonicalAddr Holder) × (responses sample_std listing
      ≡ ok (walk sample_std listed (some 1) 5 none))
    × IsAscending listing
    × ((k : CanonicalAddr) → may_load k listing ≡ may_load k listed.holders)
unfolding program call
query_holders-IsAscending_example =
    query_holders-IsAscending sample_std sample-IsDocumented sample_codec 5 listed (some 1) 5
      reached_listed IsNamed-listed (omega arith) (omega arith)

query_state-query_holders_example : staked (walk sample_std listed (some 1) 5 none) ≡ 350
unfolding program call query_state
query_state-query_holders_example =
    query_state-query_holders sample_std sample-IsDocumented sample_codec 5 listed (some 1) 5
      (record { global_index = 0; total_balance = 350; prev_reward_balance = 0 }) reached_listed
      IsNamed-listed (omega arith) (omega arith) refl

unbond : ExecuteMsg
unbond = ExecuteMsg.unbond_stake 40 "bob"

bob_not_alice : sample_std.addr_canonicalize "bob" ≢ ok alice
bob_not_alice f = ground arith

-- The message is about bob, who is not alice.
not_alice :
    (address : String)
    → subject (ExecuteMsg.unbond_stake 40 "bob") ≡ some address
    → sample_std.addr_canonicalize address ≢ ok alice
not_alice address e f =
    let bob_is : "bob" ≡ address = ground arith in
    bob_not_alice (subst (λ a. sample_std.addr_canonicalize a ≡ ok alice) (sym bob_is) f)

execute-kept_example :
    (read_holder unbonded alice ≡ read_holder rewarded alice)
    × (may_load alice unbonded.claims ≡ may_load alice rewarded.claims)
unfolding program call
execute-kept_example =
    execute-kept sample_std sample-IsDocumented sample_codec rewarded unbonded
      (sent (call rewarded "admin" (ExecuteMsg.unbond_stake 40 "bob"))) sample_querier
      sample_lottery sample_env (by "admin") (ExecuteMsg.unbond_stake 40 "bob") alice not_alice refl

Fits-both : Fits with_both
unfolding program call
Fits-both = record {
  state = record {
    global_index = omega arith;
    total_balance = omega arith;
    prev_reward_balance = omega arith;
  };
  holders = (
    record { balance = omega arith; index = omega arith; pending_rewards = omega arith },
    (record { balance = omega arith; index = omega arith; pending_rewards = omega arith }, tt),
  );
  claims = tt;
}

bank : QuerierFits sample_querier
bank account denom coin e = ground arith

execute-Fits_example : Fits rewarded
unfolding program call
execute-Fits_example =
    execute-Fits sample_std sample-IsDocumented with_both Fits-both sample_querier bank
      {storage' = rewarded} {r = sent (call with_both "admin" ExecuteMsg.update_global_index)}
      sample_codec sample_lottery sample_env (by "admin") ExecuteMsg.update_global_index refl

abbrev bond_60 : Cw20ReceiveMsg
bond_60 = record { sender = "alice"; amount = 60; msg = "bond" }

abbrev rewarded_state : State
rewarded_state = record {
  global_index = 12_500_000_000_000_000_000;
  total_balance = 400;
  prev_reward_balance = 5_000;
}

handle_receive_total_example :
    (storage' : Storage) × (r : Response Payload) × (handle_receive sample_std sample_codec rewarded
        (by "token")
        bond_60
      ≡ ok (storage', r))
    × HasBonded rewarded alice rewarded_state 60 storage' r
unfolding program call
handle_receive_total_example =
    handle_receive_total sample_std sample-IsDocumented sample_codec rewarded rewarded_state
      sample_config refl refl (by "token") bond_60 alice
      (Reaches-IsBacked sample_std sample_codec sample-IsDocumented reached_rewarded) refl refl refl
      (omega arith) refl (omega arith) (omega arith) (omega arith) (omega arith)
