-- ===== src/Dogether/Reply/Setup.antt =====
-- The instantiation of the dogether contract and its first two replies: `instantiate`,
-- `cw20_instance_reply` and `staking_instance_reply` of src/contract.rs.
use dogether_contracts.Prelude.{ℕ, ◌<◌, ◌≡◌, refl, String, some, List, ok, arith}
use dogether_contracts.Platform.Types.{CanonicalAddr, Env, MessageInfo, Response}
use dogether_contracts.Platform.Std.{Std, Querier}
use dogether_contracts.Dogether.Contract.{instantiate}
use dogether_contracts.Dogether.Msg.{
  InstantiateMsg, Payload, Market, Event, ContractResult, success, failure,
}
use dogether_contracts.Dogether.Reply.{contract_address, reply}
use dogether_contracts.Dogether.State.{Storage}

module _ (std : Std) (querier : Querier) (market : Market) where
  -- After a successful instantiation and the successful replies of the token and the staking
  -- contract, the stored addresses are those that the events name, the draw period and the next
  -- draw are those of the message, the pool is empty, and the configuration is that of the
  -- instantiation.
  pub setup_lem :
      (storage s0 s1 s2 : Storage) {r0 r1 r2 : Response Payload} (env env' env'' : Env)
      (info : MessageInfo) (msg : InstantiateMsg) (made_token made_staking : List Event)
      (token staking : String) (raw_token raw_staking : CanonicalAddr)
      → instantiate std storage env info msg ≡ ok (s0, r0)
      → contract_address made_token ≡ some token
      → std.addr_canonicalize token ≡ ok raw_token
      → reply std querier market s0 env' 0 (success made_token) ≡ ok (s1, r1)
      → contract_address made_staking ≡ some staking
      → std.addr_canonicalize staking ≡ ok raw_staking
      → reply std querier market s1 env'' 1 (success made_staking) ≡ ok (s2, r2)
      → (s2.config ≡ s0.config)
        × (s2.state
            ≡ some (record {
              staking_address = raw_staking;
              cw20_address = raw_token;
              draw_period = msg.draw_period;
              next_draw = msg.next_draw;
              total_ust_pool = 0;
            }))
  unfolding instantiate reply
  setup_lem storage s0 s1 s2 env env' env'' info msg made_token made_staking token staking raw_token
        raw_staking e0 a0 c0 e1 a1 c1 e2 =
      ground arith

  -- A reply succeeds only for the three identifiers that the contract asks for, and only where the
  -- call that it answers has succeeded.
  pub reply_refuses :
      (storage : Storage) (env : Env) (id : ℕ) (result : ContractResult) {storage' : Storage}
      {r : Response Payload}
      → reply std querier market storage env id result ≡ ok (storage', r)
      → (id < 3) × (events : List Event) × (result ≡ success events)
  unfolding reply
  reply_refuses storage env id (failure reason) e = absurd (ground arith)
  reply_refuses storage env id (success events) e = (ground arith, events, refl)
