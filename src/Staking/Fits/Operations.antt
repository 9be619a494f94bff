-- ===== src/Staking/Fits/Operations.antt =====
-- The messages of the staking contract keep the stored numbers within their types.
use dogether_contracts.Prelude.{
  ◌+◌, ◌<◌, ◌≡◌, String, Option, List, ok, arith, list_eq, nat_eq, Outcome-cases, Option-cases, inl,
  inr, All,
}
use dogether_contracts.Platform.Laws.{IsDocumented}
use dogether_contracts.Platform.Std.{Std, StdResult, Querier, add_u64}
use dogether_contracts.Platform.Storage.{may_load, save, AllValues-save}
use dogether_contracts.Platform.Types.{
  Cw20ReceiveMsg, Env, MessageInfo, Response, Uint128, u64_bound, u128_bound,
}
use dogether_contracts.Staking.Claim.{or_empty, claim_tokens, partition_claims}
use dogether_contracts.Staking.Fits.{
  HolderFits, StateFits, ClaimFits, Fits, read_holder-HolderFits, or_empty-ClaimFits, All-snoc,
  all_rewards-fits, partition_claims-All,
}
use dogether_contracts.Staking.Msg.{Payload, Codec, LotteryConfig}
use dogether_contracts.Staking.Rewards.{all_rewards}
use dogether_contracts.Staking.Stake.{
  handle_bond, handle_receive, handle_unbound, handle_withdraw_stake,
}
use dogether_contracts.Staking.Stake.Effects.{handle_bond-HasBonded, handle_unbound-HasUnbonded}
use dogether_contracts.Staking.State.{Storage, read_holder}
use dogether_contracts.Staking.Ticket.{handle_get_ticket}
use dogether_contracts.Staking.Ticket.Effects.{handle_get_ticket-HasBought}

module _ (std : Std) (doc : IsDocumented std) (storage : Storage) (fits : Fits storage) where
  module _ {storage' : Storage} {r : Response Payload} where
    handle_bond-Fits :
        (info : MessageInfo) (holder_addr : String) (amount : Uint128)
        → handle_bond std storage info holder_addr amount ≡ ok (storage', r)
        → Fits storage'
    unfolding handle_bond
    handle_bond-Fits info holder_addr amount e =
        elim (Outcome-cases (std.addr_canonicalize holder_addr)) [
          | inr fails ↦ absurd (ground arith)
          | inl (raw, canonical) ↦ elim (Option-cases storage.state) [
            | inl missing ↦ absurd (ground arith)
            | inr (s, loaded) ↦ elim (Outcome-cases (all_rewards std s (read_holder storage raw))) [
              | inr fails ↦ absurd (ground arith)
              | inl (pending, c) ↦
                  let b =
                    handle_bond-HasBonded std doc storage raw s loaded info holder_addr amount
                      canonical e in
                  let old = read_holder storage raw in
                  let state_fits : StateFits s = rw loaded at fits.state in
                  let small : (old.balance + amount < u128_bound)
                      × (s.total_balance + amount < u128_bound) =
                    ground
                      (arith, doc.add_lem old.balance amount, doc.add_lem s.total_balance amount) in
                  record {
                    state = rw b.state (record {
                      global_index = state_fits.global_index;
                      total_balance = small.1;
                      prev_reward_balance = state_fits.prev_reward_balance;
                    });
                    holders = rw b.holders (
                        AllValues-save HolderFits raw _ storage.holders fits.holders (record {
                          balance = small.0;
                          index = state_fits.global_index;
                          pending_rewards = all_rewards-fits std doc s old c;
                        }));
                    claims = rw b.claims fits.claims;
                  }
            ]
          ]
        ]

    pub handle_receive-Fits :
        (codec : Codec) (info : MessageInfo) (w : Cw20ReceiveMsg)
        → handle_receive std codec storage info w ≡ ok (storage', r)
        → Fits storage'
    unfolding handle_receive
    handle_receive-Fits codec info w e = handle_bond-Fits info w.sender w.amount (ground arith)

    pub handle_unbound-Fits :
        (env : Env) (info : MessageInfo) (amount : Uint128) (address : String)
        → handle_unbound std storage env info amount address ≡ ok (storage', r)
        → Fits storage'
    unfolding handle_unbound add_u64
    handle_unbound-Fits env info amount address e =
        elim (Outcome-cases (std.addr_canonicalize address)) [
          | inr fails ↦ absurd (ground arith)
          | inl (raw, canonical) ↦ elim (Option-cases storage.state) [
            | inl missing ↦ absurd (ground arith)
            | inr (s, loaded) ↦ elim (Option-cases storage.config) [
              | inl missing ↦ absurd (ground arith)
              | inr (config, configured) ↦
                  elim (Outcome-cases (all_rewards std s (read_holder storage raw))) [
                    | inr fails ↦ absurd (ground arith)
                    | inl (pending, c) ↦
                        let b =
                          handle_unbound-HasUnbonded std doc storage raw s loaded env info amount
                            address config configured canonical e in
                        let old = read_holder storage raw in
                        let old_fits = read_holder-HolderFits storage raw fits.holders in
                        let state_fits : StateFits s = rw loaded at fits.state in
                        let height : env.block.height + config.unbonding_period < u64_bound =
                          ground (
                            arith,
                            doc.checked_sub_lem old.balance amount,
                            doc.checked_sub_lem s.total_balance amount,
                          ) in
                        record {
                          state = rw b.state (record {
                            global_index = state_fits.global_index;
                            total_balance = omega (arith, state_fits.total_balance);
                            prev_reward_balance = state_fits.prev_reward_balance;
                          });
                          holders = rw b.holders (
                              AllValues-save HolderFits raw _ storage.holders fits.holders (record {
                                balance = omega (arith, old_fits.balance);
                                index = state_fits.global_index;
                                pending_rewards = all_rewards-fits std doc s old c;
                              }));
                          claims = rw b.claims (
                              AllValues-save (All ClaimFits) raw _ storage.claims fits.claims (
                                All-snoc ClaimFits (or_empty (may_load raw storage.claims))
                                  (or_empty-ClaimFits raw storage.claims fits.claims)
                                  (record {
                                    amount = omega (arith, old_fits.balance, b.covered);
                                    release_at = height;
                                  })));
                        }
                  ]
            ]
          ]
        ]

    pub handle_withdraw_stake-Fits :
        (env : Env) (info : MessageInfo) (cap : Option Uint128) (address : String)
        → handle_withdraw_stake std storage env info cap address ≡ ok (storage', r)
        → Fits storage'
    unfolding handle_withdraw_stake claim_tokens
    handle_withdraw_stake-Fits env info cap address e =
        elim (Outcome-cases (std.addr_canonicalize address)) [
          | inr fails ↦ absurd (ground arith)
          | inl (raw, canonical) ↦
              let old = or_empty (may_load raw storage.claims) in
              elim (Outcome-cases (partition_claims std env.block cap 0 old)) [
                | inr fails ↦ absurd (ground arith)
                | inl ((total, waiting), c) ↦
                    let state : storage'.state ≡ storage.state = ground arith in
                    let holders : storage'.holders ≡ storage.holders = ground arith in
                    let claims : storage'.claims ≡ save raw waiting storage.claims = ground arith in
                    record {
                      state = rw state fits.state;
                      holders = rw holders fits.holders;
                      claims = rw claims (
                          AllValues-save (All ClaimFits) raw waiting storage.claims fits.claims (
                            partition_claims-All std env.block cap ClaimFits 0 old
                              (or_empty-ClaimFits raw storage.claims fits.claims) c));
                    }
              ]
        ]

    pub handle_get_ticket-Fits :
        (querier : Querier) (lottery : String → StdResult LotteryConfig) (recipient : String)
        (combination : List String)
        → handle_get_ticket std querier lottery storage recipient combination ≡ ok (storage', r)
        → Fits storage'
    unfolding handle_get_ticket
    handle_get_ticket-Fits querier lottery recipient combination e =
        elim (Outcome-cases (std.addr_canonicalize recipient)) [
          | inr fails ↦ absurd (ground arith)
          | inl (raw, canonical) ↦ elim (Option-cases storage.state) [
            | inl missing ↦ absurd (ground arith)
            | inr (s, loaded) ↦ elim (Option-cases storage.config) [
              | inl missing ↦ absurd (ground arith)
              | inr (config, configured) ↦
                  elim (Outcome-cases (all_rewards std s (read_holder storage raw))) [
                    | inr fails ↦ absurd (ground arith)
                    | inl (pending, c) ↦
                        let (paid, b) =
                          handle_get_ticket-HasBought std doc querier lottery storage raw s loaded
                            config configured recipient combination canonical e in
                        let old = read_holder storage raw in
                        let old_fits = read_holder-HolderFits storage raw fits.holders in
                        let state_fits : StateFits s = rw loaded at fits.state in
                        record {
                          state = rw b.state (record {
                            global_index = state_fits.global_index;
                            total_balance = state_fits.total_balance;
                            prev_reward_balance = omega (arith, state_fits.prev_reward_balance);
                          });
                          holders = rw b.holders (
                              AllValues-save HolderFits raw _ storage.holders fits.holders (record {
                                balance = old_fits.balance;
                                index = state_fits.global_index;
                                pending_rewards = omega (arith, all_rewards-fits std doc s old c);
                              }));
                          claims = rw b.claims fits.claims;
                        }
                  ]
            ]
          ]
        ]
