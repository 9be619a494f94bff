-- ===== src/Staking/Fits/Messages.antt =====
-- Every message of the staking contract, and its instantiation, keep the stored numbers within
-- their types.
use dogether_contracts.Prelude.{
  ◌-◌, ◌<◌, ◌≡◌, String, some, ok, arith, list_eq, nat_eq, Outcome-cases, Option-cases, inl, inr,
}
use dogether_contracts.Platform.Laws.{IsDocumented}
use dogether_contracts.Platform.Std.{Std, StdResult, Querier}
use dogether_contracts.Platform.Types.{Env, MessageInfo, Response, StdError, Uint128, u128_bound}
use dogether_contracts.Staking.Contract.{execute}
use dogether_contracts.Staking.Fits.{Fits, StateFits, QuerierFits}
use dogether_contracts.Staking.Fits.Operations.{
  handle_receive-Fits, handle_unbound-Fits, handle_withdraw_stake-Fits, handle_get_ticket-Fits,
}
use dogether_contracts.Staking.Global.{raise_index, handle_update_global_index}
use dogether_contracts.Staking.Global.Effects.{raise_index-HasRaised}
use dogether_contracts.Staking.Math.{summation_lem}
use dogether_contracts.Staking.Msg.{Payload, ExecuteMsg, Codec, LotteryConfig}
use dogether_contracts.Staking.State.{State, Storage}

module _ (std : Std) (doc : IsDocumented std) where
  raise_index-StateFits :
      (s t : State) (balance claimed_rewards : Uint128)
      → StateFits s
      → balance < u128_bound
      → raise_index std s balance ≡ ok (t, claimed_rewards)
      → StateFits t
  unfolding raise_index
  raise_index-StateFits s t balance claimed_rewards fits small e =
      let b = raise_index-HasRaised std doc s t balance claimed_rewards e in
      elim (Option-cases (std.from_ratio (balance - s.prev_reward_balance) s.total_balance)) [
        | inl fails ↦ absurd (ground (arith, doc.checked_sub_lem balance s.prev_reward_balance))
        | inr (share, c) ↦ record {
          global_index = ground (
            arith,
            doc.checked_sub_lem balance s.prev_reward_balance,
            summation_lem std doc {E = StdError} s.global_index share,
          );
          total_balance = omega (arith, b.total, fits.total_balance);
          prev_reward_balance = omega (arith, b.seen, small);
        }
      ]

  module _ (storage : Storage) (fits : Fits storage) (querier : Querier)
      (bank : QuerierFits querier) {storage' : Storage} {r : Response Payload} where
    handle_update_global_index-Fits :
        (env : Env) (info : MessageInfo)
        → handle_update_global_index std querier storage env info ≡ ok (storage', r)
        → Fits storage'
    unfolding handle_update_global_index
    handle_update_global_index-Fits env info e = elim (Option-cases storage.state) [
      | inl missing ↦ absurd (ground arith)
      | inr (s, loaded) ↦ elim (Option-cases storage.config) [
        | inl missing ↦ absurd (ground arith)
        | inr (config, configured) ↦
            elim (Outcome-cases (querier.balance env.contract_address config.reward_denom)) [
              | inr fails ↦ absurd (ground arith)
              | inl (coin, answered) ↦ elim (Outcome-cases (raise_index std s coin.amount)) [
                | inr fails ↦ absurd (ground arith)
                | inl ((t, claimed_rewards), raised) ↦
                    let old : StateFits s = rw loaded at fits.state in
                    let small = bank env.contract_address config.reward_denom coin answered in
                    let new =
                      raise_index-StateFits s t coin.amount claimed_rewards old small raised in
                    let state : storage'.state ≡ some t = ground arith in
                    let holders : storage'.holders ≡ storage.holders = ground arith in
                    let claims : storage'.claims ≡ storage.claims = ground arith in
                    record {
                      state = rw state new;
                      holders = rw holders fits.holders;
                      claims = rw claims fits.claims;
                    }
              ]
            ]
      ]
    ]

    -- Where every number of the stored state, holders and claims fits the integer type that stores
    -- it, and the bank reports coins of 128 bits, a message of the staking contract that succeeds
    -- leaves numbers that fit their types.
    pub execute-Fits :
        (codec : Codec) (lottery : String → StdResult LotteryConfig) (env : Env)
        (info : MessageInfo) (msg : ExecuteMsg)
        → execute std codec querier lottery storage env info msg ≡ ok (storage', r)
        → Fits storage'
    unfolding execute
    execute-Fits codec lottery env info (ExecuteMsg.get_ticket recipient combination) e =
        handle_get_ticket-Fits std doc storage fits querier lottery recipient combination e
    execute-Fits codec lottery env info ExecuteMsg.update_global_index e =
        handle_update_global_index-Fits env info e
    execute-Fits codec lottery env info (ExecuteMsg.unbond_stake amount address) e =
        handle_unbound-Fits std doc storage fits env info amount address e
    execute-Fits codec lottery env info (ExecuteMsg.withdraw_stake cap address) e =
        handle_withdraw_stake-Fits std doc storage fits env info cap address e
    execute-Fits codec lottery env info (ExecuteMsg.receive w) e =
        handle_receive-Fits std doc storage fits codec info w e
