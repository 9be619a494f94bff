-- ===== src/Dogether/Examples/Replies.antt =====
-- The replies of the pool on the sample chain: the two of the instantiation and that of a withdrawal.
use dogether_contracts.Prelude.{◌<◌, ◌≡◌, refl, String, some, none, List, [], ◌∷◌}
use dogether_contracts.Platform.Types.{Uint128, attribute}
use dogether_contracts.Platform.Sample.{sample_std, sample_querier, sample-IsDocumented}
use dogether_contracts.Dogether.Contract.{instantiate}
use dogether_contracts.Dogether.Msg.{InstantiateMsg, Event, success}
use dogether_contracts.Dogether.Reply.{withdraw_reply, reply}
use dogether_contracts.Dogether.Reply.Setup.{setup_lem, reply_refuses}
use dogether_contracts.Dogether.Reply.Withdraw.{Reports, HasPaid, withdraw_reply_lem}
use dogether_contracts.Dogether.State.{Storage, Handled}
use dogether_contracts.Dogether.Examples.{
  program, sample_market, sample_env, token, staking, sample_config, state_of, running, stored,
  sent, by,
}

abbrev report : List Event
report =
    record { ty = "message"; attributes = [] }
    ∷ record {
      ty = "wasm";
      attributes = attribute "withdraw" "2002" ∷ attribute "recipient" "alice" ∷ [];
    }
    ∷ []

withdrawal : Handled
unfolding reply withdraw_reply
withdrawal = withdraw_reply sample_std sample_querier sample_market running (success report)

withdraw_reply_lem_example :
    (amount : Uint128) × (recipient : String) × Reports report amount recipient
    × HasPaid sample_std sample_querier sample_market running
        (state_of staking token 900 10_000)
        sample_config
        amount
        recipient
        (stored withdrawal)
        (sent withdrawal)
unfolding program withdrawal
withdraw_reply_lem_example =
    withdraw_reply_lem sample_std sample-IsDocumented sample_querier sample_market running
      (state_of staking token 900 10_000) sample_config refl refl report
      {storage' = stored withdrawal} {r = sent withdrawal} refl

abbrev nothing : Storage
nothing = record { config = none; state = none }

abbrev init_msg : InstantiateMsg
init_msg = record {
  code_id_cw20 = 11;
  message_cw20 = "token";
  label_cw20 = "token";
  code_id_staking = 12;
  label_staking = "staking";
  money_market_address = "money";
  anchor_aust_address = "aust";
  next_draw = 900;
  draw_period = 500;
  unbonding_period = 100;
  loterra_address = "loterra";
}

abbrev made : String → List Event
made address =
    record {
      ty = "instantiate_contract";
      attributes = attribute "creator" "pool" ∷ attribute "contract_address" address ∷ [];
    }
    ∷ []

created : Handled
unfolding instantiate
created = instantiate sample_std nothing sample_env (by "admin" []) init_msg

with_token : Handled
unfolding instantiate reply created
with_token =
    reply sample_std sample_querier sample_market (stored created) sample_env 0
      (success (made "token"))

with_staking : Handled
unfolding instantiate reply created with_token
with_staking =
    reply sample_std sample_querier sample_market (stored with_token) sample_env 1
      (success (made "staking"))

setup_lem_example :
    ((stored with_staking).config ≡ (stored created).config)
    × ((stored with_staking).state
        ≡ some (record {
          staking_address = staking;
          cw20_address = token;
          draw_period = init_msg.draw_period;
          next_draw = init_msg.next_draw;
          total_ust_pool = 0;
        }))
unfolding program created with_token with_staking
setup_lem_example =
    setup_lem sample_std sample_querier sample_market nothing (stored created) (stored with_token)
      (stored with_staking) {r0 = sent created} {r1 = sent with_token} {r2 = sent with_staking}
      sample_env sample_env sample_env (by "admin" []) init_msg (made "token") (made "staking")
      "token" "staking" token staking refl refl refl refl refl refl refl

reply_refuses_example : (2 < 3) × (events : List Event) × (success report ≡ success events)
unfolding program withdrawal
reply_refuses_example =
    reply_refuses sample_std sample_querier sample_market running sample_env 2 (success report)
      {storage' = stored withdrawal} {r = sent withdrawal} refl
