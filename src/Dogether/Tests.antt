-- ===== src/Dogether/Tests.antt =====
-- The unit tests of src/contract.rs and src/mock_querier.rs of the dogether contract: what the
-- tests share. A test is the conjunction of what it asserts.
mod Calls
mod Earnings
mod Replies
mod Decimals
use dogether_contracts.Prelude.{
  ℕ, String, Option, none, some, List, [], ◌∷◌, length, string_eq, ok, err, panic, ◌>>=◌,
  if◌then◌else◌,
}
use dogether_contracts.Platform.Sample.{sample_std}
use dogether_contracts.Platform.Std.{Querier, StdResult}
use dogether_contracts.Platform.Types.{
  Addr, Coin, Env, MessageInfo, Response, SubMsg, Uint128, attribute, other_error,
}
use dogether_contracts.Dogether.Contract.{instantiate}
use dogether_contracts.Dogether.Msg.{
  EpochStateResponse, ContractResult, success, InstantiateMsg, Market, Payload,
}
use dogether_contracts.Dogether.Reply.{reply}
use dogether_contracts.Dogether.State.{State, Storage, Handled}
use dogether_contracts.Staking.Msg.{Codec, bond_stake}

-- What a mocked contract answers, before it is decoded.
pub data WasmAnswer : Type 0 where
  of_epoch : EpochStateResponse → WasmAnswer
  of_balance : Uint128 → WasmAnswer

-- The queries of contracts; `panic!("DO NOT ENTER HERE")` for any other address.
abbrev pub handle_query : Addr → StdResult WasmAnswer
handle_query contract_addr =
    if string_eq.beq contract_addr "money"
    then ok (of_epoch (record { exchange_rate = 1_050_000_000_000_000_000; aterra_supply = 0 }))
    else if string_eq.beq contract_addr "aust"
    then ok (of_balance 150_000_000_000)
    else panic

abbrev pub mock_market : Market
mock_market = record {
  epoch = λ addr. handle_query addr >>= λ answer. elim answer [
    | of_epoch res ↦ ok res
    | of_balance n ↦ err (other_error "missing field exchange_rate")
  ];
  aust_balance = λ aust holder. handle_query aust >>= λ answer. elim answer [
    | of_epoch res ↦ err (other_error "missing field balance")
    | of_balance n ↦ ok n
  ];
}

-- The queries of the tax, and the base querier for the others: the mocked bank.
abbrev pub mock_querier : (Addr → String → StdResult Coin) → Querier
mock_querier base = record {
  tax_rate = ok 10_000_000_000_000_000;
  tax_cap = λ denom. ok 1_000_000;
  balance = base;
}

-- A bank in which an account holds this much of any denomination.
abbrev pub bank_of : Uint128 → Addr → String → StdResult Coin
bank_of amount account denom = ok (record { denom = denom; amount = amount })

abbrev pub mock_codec : Codec
mock_codec = record { to_binary = λ m. ok "bond"; from_binary = λ b. ok bond_stake }

abbrev pub mock_env : Env
mock_env = record {
  block = record { height = 12_345; time = 1_571_797_419 };
  contract_address = "cosmos2contract";
}

abbrev pub mock_info : String → List Coin → MessageInfo
mock_info sender funds = record { sender = sender; funds = funds }

abbrev pub coins : Uint128 → String → List Coin
coins amount denom = record { denom = denom; amount = amount } ∷ []

abbrev pub stored : Handled → Storage
stored (ok (storage, r)) = storage
stored _ = record { config = none; state = none }

abbrev pub response : Handled → Option (Response Payload)
response (ok (storage, r)) = some r
response _ = none

abbrev pub messages : Handled → Option (List (SubMsg Payload))
messages (ok (storage, r)) = some r.messages
messages _ = none

abbrev pub sent_count : Handled → Option ℕ
sent_count (ok (storage, r)) = some (length r.messages)
sent_count _ = none

abbrev pub init_msg : ℕ → ℕ → InstantiateMsg
init_msg next_draw draw_period = record {
  code_id_cw20 = 0;
  message_cw20 = "";
  label_cw20 = "";
  code_id_staking = 1;
  label_staking = "";
  money_market_address = "money";
  anchor_aust_address = "aust";
  next_draw = next_draw;
  draw_period = draw_period;
  unbonding_period = 100_000;
  loterra_address = "loterra";
}

abbrev pub empty : Storage
empty = record { config = none; state = none }

unfoldable pub default_init : Handled
unfolding instantiate
default_init =
    instantiate sample_std empty mock_env (mock_info "addr0000" (coins 1_000 "uusd"))
      (init_msg 1_000 100)

-- The events of a reply that name a new contract.
abbrev pub instantiated : String → ContractResult
instantiated address = success (
    record { ty = "instantiate_contract"; attributes = attribute "contract_address" address ∷ [] }
    ∷ [])

-- The reply to an instantiation.
unfoldable pub set_up : ℕ → String → Storage → Handled
unfolding reply
set_up id address storage =
    reply sample_std (mock_querier (bank_of 0)) mock_market storage mock_env id
      (instantiated address)

abbrev pub loaded : Storage → State
loaded storage = elim storage.state [
  | some s ↦ s
  | none ↦ record {
    staking_address = [];
    cw20_address = [];
    draw_period = 0;
    next_draw = 0;
    total_ust_pool = 0;
  }
]

-- The pool holds 150,000 UST.
abbrev pub pooled : Storage → Storage
pooled storage = record storage {
  state = some (record (loaded storage) { total_ust_pool = 150_000_000_000 });
}
