-- ===== src/System/Payout/Calls.antt =====
-- The calls of which a payout consists: the withdrawal, the burn and the reply.
use native.Mathlib.Nat.{div-le_of_le-mul}
use dogether_contracts.Prelude.{
  ◌+◌, ◌*◌, ◌/◌, ◌≤◌, ◌<◌, ◌≡◌, refl, String, some, none, List, [], ◌∷◌, ok, arith, list_eq, nat_eq,
  string_eq, Outcome-cases, Option-cases, inl, inr,
}
use dogether_contracts.Platform.Laws.{IsDocumented}
use dogether_contracts.Platform.Std.{Std, Querier}
use dogether_contracts.Platform.Storage.{Map, may_load, values, part-le-values}
use dogether_contracts.Platform.Types.{
  Addr, BlockInfo, CanonicalAddr, Decimal, Env, MessageInfo, Response, Uint128, attribute, message,
  wasm_execute, reply_on_success, decimal_one, u128_bound,
}
use dogether_contracts.Dogether.Msg as PoolMsg
use dogether_contracts.Dogether.Pool.{try_claim_un_pool}
use dogether_contracts.Dogether.Reply.{find_event, find_value, reply}
use dogether_contracts.Dogether.Reply.Total.{withdraw_reply_total}
use dogether_contracts.Dogether.State as PoolState
use dogether_contracts.Staking.Claim.{or_empty, partition_claims, claim_tokens}
use dogether_contracts.Staking.Claim.Sums.{due, not_due}
use dogether_contracts.Staking.Custody.Held.{sum_amounts, burned}
use dogether_contracts.Staking.Custody.Unbonding.{handle_withdraw_stake_total}
use dogether_contracts.Staking.Msg as StakeMsg
use dogether_contracts.Staking.Stake.{handle_withdraw_stake}
use dogether_contracts.Staking.State as StakeState
use dogether_contracts.System.{by}
use dogether_contracts.System.Burns.{handle_withdraw_stake-reports}
use dogether_contracts.System.Moves.{pool_of, owned, withdraw_reply-pool_of}
use dogether_contracts.Token.Contract as Coins
use dogether_contracts.Token.Msg as CoinsMsg
use dogether_contracts.Token.State as CoinsState
use dogether_contracts.Token.Supply.Reach.{execute_burn_lem}
use dogether_contracts.Token.Supply.Reach as CoinsReach

-- What is due is a part of the claims, and a holder's claims are a part of all.
pub due-le :
    (std : Std) (block : BlockInfo) (cs : List StakeState.Claim)
    → sum_amounts (due std block cs) ≤ sum_amounts cs
due-le std block [] = omega arith
due-le std block (c ∷ cs) = ground (arith, due-le std block cs)

pub sum_amounts-le-values :
    (raw : CanonicalAddr) (m : Map CanonicalAddr (List StakeState.Claim))
    → sum_amounts (or_empty (may_load raw m)) ≤ values sum_amounts m
sum_amounts-le-values raw m =
    let one = part-le-values sum_amounts raw m in
    elim (Option-cases (may_load raw m)) [
      | inl none_yet ↦ rw none_yet (omega arith)
      | inr (cs, found) ↦ rw found (rw found at one)
    ]

-- A withdrawal sends one burn to the token contract.
handle_withdraw_stake-sends :
    (std : Std) (storage : StakeState.Storage) {storage' : StakeState.Storage}
    {r : Response StakeMsg.Payload} (config : StakeState.Config) (env : Env) (info : MessageInfo)
    (address : String) (token : Addr)
    → storage.config ≡ some config
    → std.addr_humanize config.cw20_token_addr ≡ ok token
    → handle_withdraw_stake std storage env info none address ≡ ok (storage', r)
    → r.messages ≡ message (wasm_execute token (StakeMsg.Payload.burn (burned r.messages)) []) ∷ []
unfolding handle_withdraw_stake claim_tokens
handle_withdraw_stake-sends std storage config env info address token configured humanized e =
    elim (Outcome-cases (std.addr_canonicalize address)) [
      | inr fails ↦ absurd (ground arith)
      | inl (raw, canonical) ↦
          elim (Outcome-cases
            (partition_claims std env.block none 0 (or_empty (may_load raw storage.claims)))) [
              | inr fails ↦ absurd (ground arith)
              | inl ((total, waiting), released) ↦ ground arith
            ]
    ]

-- The staking contract can burn what it has.
pub execute_burn_total :
    (std : Std) (doc : IsDocumented std) (creator : Addr) (rows : List CoinsMsg.Cw20Coin)
    (storage : CoinsState.Storage) (token : CoinsState.TokenInfo) (who : Addr) (amount : Uint128)
    → CoinsReach.Reaches std creator rows storage
    → storage.token_info ≡ some token
    → 0 < amount
    → amount ≤ owned who storage
    → (t : CoinsState.Storage) × (r : Response CoinsMsg.Payload) × (Coins.execute std storage
          (by who)
          (CoinsMsg.ExecuteMsg.burn amount)
        ≡ ok (t, r))
unfolding Coins.execute
execute_burn_total std doc creator rows storage token who amount reached loaded positive covered =
    elim (Outcome-cases (Coins.execute std storage (by who) (CoinsMsg.ExecuteMsg.burn amount))) [
      | inl ((t, r), e) ↦ (t, r, e)
      | inr fails ↦ absurd (
          ground (
            arith,
            execute_burn_lem std doc creator rows storage token (by who) amount reached loaded,
          ))
    ]

-- A withdrawal of what is due, without a limit: one burn of it is sent, and it is reported.
pub record Withdraws (std : Std) (storage : StakeState.Storage) (env : Env) (info : MessageInfo)
    (address : String) (raw : CanonicalAddr) (token : Addr) (amount : Uint128) : Type 0 where
  pub after : StakeState.Storage
  pub response : Response StakeMsg.Payload
  pub runs : handle_withdraw_stake std storage env info none address ≡ ok (after, response)
  pub left :
      may_load raw after.claims
      ≡ some (not_due std env.block (or_empty (may_load raw storage.claims)))
  pub sends :
      response.messages ≡ message (wasm_execute token (StakeMsg.Payload.burn amount) []) ∷ []
  pub says :
      response.attributes
      ≡ attribute "action" "withdraw_stake"
        ∷ attribute "recipient" address
        ∷ attribute "withdraw" (std.to_string amount)
        ∷ []

pub handle_withdraw_stake-Withdraws :
    (std : Std) (doc : IsDocumented std) (storage : StakeState.Storage) (sc : StakeState.Config)
    (env : Env) (info : MessageInfo) (address : String) (raw : CanonicalAddr) (token : Addr)
    → let old = or_empty (may_load raw storage.claims) in
      storage.config ≡ some sc
      → std.addr_canonicalize info.sender ≡ ok sc.admin
      → std.addr_canonicalize address ≡ ok raw
      → std.addr_humanize sc.cw20_token_addr ≡ ok token
      → sum_amounts old < u128_bound
      → 0 < sum_amounts (due std env.block old)
      → Withdraws std storage env info address raw token (sum_amounts (due std env.block old))
handle_withdraw_stake-Withdraws std doc storage sc env info address raw token configured admin
      canonical humanized small positive =
    let (k, r, runs, burns, left) =
      handle_withdraw_stake_total std doc storage sc env info address raw token configured admin
        canonical humanized small positive in
    let (_, says) =
      handle_withdraw_stake-reports std doc env.block none storage env info address refl runs in
    let sends =
      handle_withdraw_stake-sends std storage sc env info address token configured humanized runs in
    record {
      after = k;
      response = r;
      runs = runs;
      left = left;
      sends = rw burns at sends;
      says = rw burns at says;
    }

-- The reply to such a report takes the amount out of the pool.
pub reply_total :
    (std : Std) (doc : IsDocumented std) (querier : Querier) (market : PoolMsg.Market)
    (storage : PoolState.Storage) (p : PoolState.State) (pc : PoolState.Config) (env : Env)
    (event : PoolMsg.Event) (to : String) (amount : Uint128) (money_market aust : Addr)
    (res : PoolMsg.EpochStateResponse) (tax_rate : Decimal) (limit : Uint128)
    → storage.state ≡ some p
    → storage.config ≡ some pc
    → find_event "wasm" (event ∷ []) ≡ some event
    → find_value "withdraw" event.attributes ≡ some (std.to_string amount)
    → find_value "recipient" event.attributes ≡ some to
    → std.addr_humanize pc.money_market_address ≡ ok money_market
    → std.addr_humanize pc.anchor_aust_address ≡ ok aust
    → market.epoch money_market ≡ ok res
    → querier.tax_rate ≡ ok tax_rate
    → querier.tax_cap pc.denom ≡ ok limit
    → decimal_one ≤ res.exchange_rate
    → tax_rate * decimal_one < u128_bound
    → tax_rate + decimal_one < u128_bound
    → p.total_ust_pool * decimal_one < u128_bound
    → amount ≤ p.total_ust_pool
    → (d' : PoolState.Storage) × (r : Response PoolMsg.Payload) × (reply std querier market storage
          env 2
          (PoolMsg.ContractResult.success (event ∷ []))
        ≡ ok (d', r))
      × (pool_of d'.state + amount ≡ p.total_ust_pool)
unfolding reply
reply_total std doc querier market storage p pc env event to amount money_market aust res tax_rate
      limit p_is pc_is found withdrawn names human_market human_aust epoch rated capped above_one
      small_tax small_sum small_pool covered =
    let fits : amount * decimal_one < u128_bound = omega (arith, covered, small_pool) in
    let aust_fits : amount * decimal_one * decimal_one / res.exchange_rate ≤ amount * decimal_one =
      div-le_of_le-mul res.exchange_rate (grind (arith, above_one)) in
    let small : amount < u128_bound = omega (arith, fits) in
    let (d', r, replied) =
      withdraw_reply_total std doc querier market storage p pc p_is pc_is (event ∷ []) event
        (std.to_string amount) to amount money_market aust res tax_rate limit found withdrawn names
        (doc.to_string_lem amount small) human_market human_aust epoch rated capped
        (omega (arith, above_one)) fits (omega (arith, aust_fits, fits)) small_tax small_sum
        covered in
    let (_, paid) =
      withdraw_reply-pool_of std doc querier market storage (event ∷ []) event amount replied found
        withdrawn small in
    let before : pool_of storage.state ≡ p.total_ust_pool = rw p_is refl in
    (d', r, replied, omega (arith, covered, paid, before))

-- The dogether contract asks for the withdrawal.
pub try_claim_un_pool_total :
    (std : Std) (storage : PoolState.Storage) (p : PoolState.State) (info : MessageInfo)
    (staking : Addr)
    → storage.state ≡ some p
    → std.addr_humanize p.staking_address ≡ ok staking
    → try_claim_un_pool std storage info
      ≡ ok (
        storage,
        record {
          messages =
              record {
                msg =
                    wasm_execute staking
                      (PoolMsg.Payload.staking
                        (StakeMsg.ExecuteMsg.withdraw_stake none info.sender))
                      [];
                reply_on = reply_on_success 2;
              }
              ∷ [];
          attributes = [];
        },
      )
unfolding try_claim_un_pool
try_claim_un_pool_total std storage p info staking loaded named = ground (arith, loaded, named)
