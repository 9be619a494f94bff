-- ===== src/Staking/Custody/Unbonding.antt =====
-- From the stake back to the tokens: `handle_unbound` and then `handle_withdraw_stake` of
-- src/user.rs.
use dogether_contracts.Prelude.{
  ◌+◌, ◌*◌, ◌≤◌, ◌<◌, ◌≡◌, refl, true, String, some, none, List, [], ◌∷◌, ◌++◌, ok, arith, list_eq,
  nat_eq, beq_self, Outcome-cases, inl, inr,
}
use dogether_contracts.Platform.Types.{
  Addr, CanonicalAddr, BlockInfo, Env, MessageInfo, Response, Uint128, at_height, decimal_one,
  u64_bound, u128_bound,
}
use dogether_contracts.Platform.Std.{Std, add_u64}
use dogether_contracts.Platform.Laws.{IsDocumented}
use dogether_contracts.Platform.Storage.{may_load, may_load-save_self}
use dogether_contracts.Staking.Claim.{or_empty, create_claim, claim_tokens}
use dogether_contracts.Staking.Claim.Sums.{due, not_due, partition_claims_uncapped}
use dogether_contracts.Staking.Custody.Held.{burned, sum_amounts, sum_amounts-append}
use dogether_contracts.Staking.Msg.{Payload}
use dogether_contracts.Staking.Rewards.{all_rewards}
use dogether_contracts.Staking.Rewards.Owed.{owed, all_rewards_total}
use dogether_contracts.Staking.Solvency.Invariant.{
  IsBacked, IsSolvent, read_holder-settled, read_holder-total,
}
use dogether_contracts.Staking.Stake.{handle_unbound, handle_withdraw_stake}
use dogether_contracts.Staking.Stake.Effects.{handle_unbound-HasUnbonded}
use dogether_contracts.Staking.State.{Config, State, Claim, Storage, read_holder, store_holder}

-- Appending a claim that is due.
due-append :
    (std : Std) (block : BlockInfo) (claims : List Claim) (c : Claim)
    → std.is_expired c.release_at block ≡ true
    → sum_amounts (due std block (claims ++ c ∷ [])) ≡ sum_amounts (due std block claims) + c.amount
due-append std block [] c expired = ground arith
due-append std block (d ∷ claims) c expired = ground (arith, due-append std block claims c expired)

not_due-append :
    (std : Std) (block : BlockInfo) (claims : List Claim) (c : Claim)
    → std.is_expired c.release_at block ≡ true
    → not_due std block (claims ++ c ∷ []) ≡ not_due std block claims
not_due-append std block [] c expired = ground arith
not_due-append std block (d ∷ claims) c expired =
    ground (arith, not_due-append std block claims c expired)

-- A withdrawal by the admin without a limit burns what is due, where something is.
pub handle_withdraw_stake_total :
    (std : Std) (doc : IsDocumented std) (storage : Storage) (config : Config) (env : Env)
    (info : MessageInfo) (address : String) (raw : CanonicalAddr) (token : Addr)
    → let claims = or_empty (may_load raw storage.claims) in
      storage.config ≡ some config
      → std.addr_canonicalize info.sender ≡ ok config.admin
      → std.addr_canonicalize address ≡ ok raw
      → std.addr_humanize config.cw20_token_addr ≡ ok token
      → sum_amounts claims < u128_bound
      → 0 < sum_amounts (due std env.block claims)
      → (storage' : Storage) × (r : Response Payload) × (handle_withdraw_stake std storage env info
            none address
          ≡ ok (storage', r))
        × (burned r.messages ≡ sum_amounts (due std env.block claims))
        × (may_load raw storage'.claims ≡ some (not_due std env.block claims))
unfolding handle_withdraw_stake claim_tokens
handle_withdraw_stake_total std doc storage config env info address raw token configured admin
      canonical humanized small positive =
    let claims = or_empty (may_load raw storage.claims) in
    let same : list_eq.beq config.admin config.admin ≡ true = beq_self config.admin in
    let parts = partition_claims_uncapped std doc env.block 0 claims (omega arith) in
    elim (Outcome-cases (handle_withdraw_stake std storage env info none address)) [
      | inl ((storage', r), e) ↦ (
        storage',
        r,
        e,
        ground (arith, same, parts),
        ground (
          arith,
          same,
          parts,
          may_load-save_self raw (not_due std env.block claims) storage.claims,
        ),
      )
      | inr fails ↦ absurd (ground (arith, same, parts))
    ]

module _ (std : Std) (doc : IsDocumented std) (storage : Storage) (s : State) (config : Config)
    (loaded : storage.state ≡ some s) (configured : storage.config ≡ some config) (env : Env)
    (info : MessageInfo) (admin : std.addr_canonicalize info.sender ≡ ok config.admin)
    (address : String) (raw : CanonicalAddr) (canonical : std.addr_canonicalize address ≡ ok raw)
    (amount : Uint128) where
  settings :
      (amount : Uint128) {storage' : Storage} {r : Response Payload}
      → handle_unbound std storage env info amount address ≡ ok (storage', r)
      → storage'.config ≡ some config
  unfolding handle_unbound create_claim store_holder add_u64
  settings amount {storage'} e =
      elim (Outcome-cases (all_rewards std s (read_holder storage raw))) [
        | inr fails ↦ absurd (ground arith)
        | inl (p, c) ↦ ground arith
      ]

  -- In a backed contract the admin can unbond every positive amount up to a holder's balance, as
  -- long as no coins are sent and the numbers fit their integers.
  pub handle_unbound_total :
      IsBacked storage
      → info.funds ≡ []
      → 0 < amount
      → amount ≤ (read_holder storage raw).balance
      → s.global_index < u128_bound
      → (read_holder storage raw).balance * decimal_one < u128_bound
      → owed s.global_index (read_holder storage raw) < u128_bound
      → env.block.height + config.unbonding_period < u64_bound
      → (storage' : Storage) × (r : Response Payload) × (handle_unbound std storage env info amount
            address
          ≡ ok (storage', r))
  unfolding handle_unbound add_u64
  handle_unbound_total inv unfunded positive covered small_index small_balance small_owed height =
      let solvent : IsSolvent s storage.holders = rw loaded at inv in
      let holder = read_holder storage raw in
      let sum =
        all_rewards_total std doc s holder (read_holder-settled s storage raw solvent) small_index
          small_balance small_owed in
      let same : list_eq.beq config.admin config.admin ≡ true = beq_self config.admin in
      elim (Outcome-cases (handle_unbound std storage env info amount address)) [
        | inl ((storage', r), e) ↦ (storage', r, e)
        | inr fails ↦ absurd (
            ground (
              arith,
              sum,
              same,
              read_holder-total s storage raw solvent,
              doc.checked_sub_lem holder.balance amount,
              doc.checked_sub_lem s.total_balance amount,
            ))
      ]

  -- After a successful unbonding, once the unbonding period is over, a withdrawal by the admin
  -- without a limit succeeds and burns the amount that was unbonded with whatever else is due to
  -- the holder, and leaves the claims that are not due, as long as the claims fit 128 bits and the
  -- token address is valid.
  pub handle_unbound-handle_withdraw_stake :
      {storage' : Storage} {r : Response Payload} (env' : Env) (token : Addr)
      → handle_unbound std storage env info amount address ≡ ok (storage', r)
      → env.block.height + config.unbonding_period ≤ env'.block.height
      → sum_amounts (or_empty (may_load raw storage.claims)) + amount < u128_bound
      → std.addr_humanize config.cw20_token_addr ≡ ok token
      → (storage'' : Storage) × (r' : Response Payload) × (handle_withdraw_stake std storage' env'
            info none address
          ≡ ok (storage'', r'))
        × (burned r'.messages
            ≡ amount + sum_amounts (due std env'.block (or_empty (may_load raw storage.claims))))
        × (may_load raw storage''.claims
            ≡ some (not_due std env'.block (or_empty (may_load raw storage.claims))))
  handle_unbound-handle_withdraw_stake {storage'} env' token e later small humanized =
      let b =
        handle_unbound-HasUnbonded std doc storage raw s loaded env info amount address config
          configured canonical e in
      let old = or_empty (may_load raw storage.claims) in
      let claim : Claim = record {
        amount = amount;
        release_at = at_height (env.block.height + config.unbonding_period);
      } in
      let expired : std.is_expired claim.release_at env'.block ≡ true =
        ground (
          arith,
          doc.is_expired_at_height (env.block.height + config.unbonding_period) env'.block,
        ) in
      let after : or_empty (may_load raw storage'.claims) ≡ old ++ claim ∷ [] =
        rw (b.claims, may_load-save_self raw (old ++ claim ∷ []) storage.claims) refl in
      let paid = due-append std env'.block old claim expired in
      let rest = not_due-append std env'.block old claim expired in
      let (storage'', r', runs, burns, left) =
        handle_withdraw_stake_total std doc storage' config env' info address raw token
          (settings amount e) admin canonical humanized
          (rw after (omega (arith, sum_amounts-append old (claim ∷ []))))
          (rw (after, paid) (omega (arith, b.positive))) in
      (storage'', r', runs, rw (burns, after, paid) (omega arith), rw (left, after, rest) refl)
