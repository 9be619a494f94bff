-- ===== src/Platform/Types.antt =====
-- The data of the platform that the contracts read and write. A `Uint128` is its number, and a
-- `Decimal` or `Decimal256` is its atomics: the number of 10^-18 units.
use dogether_contracts.Prelude.{ℕ, ◌^◌, String, Option, List, []}

abbrev pub Uint128 : Type 0
Uint128 = ℕ

abbrev pub Decimal : Type 0
Decimal = ℕ

abbrev pub Decimal256 : Type 0
Decimal256 = ℕ

abbrev pub Addr : Type 0
Addr = String

abbrev pub CanonicalAddr : Type 0
CanonicalAddr = List ℕ

abbrev pub Binary : Type 0
Binary = String

-- The first number that a `u64` and a `Uint128` cannot hold, and the atomics of the decimal 1.
abbrev pub u64_bound : ℕ
u64_bound = 2 ^ 64

abbrev pub u128_bound : ℕ
u128_bound = 2 ^ 128

abbrev pub u256_bound : ℕ
u256_bound = 2 ^ 256

abbrev pub decimal_one : ℕ
decimal_one = 1_000_000_000_000_000_000

pub data StdError : Type 0 where
  generic_err : String → StdError
  not_found : String → StdError
  overflow : StdError
  other_error : String → StdError

pub record Coin : Type 0 where
  pub denom : String
  pub amount : Uint128

pub record BlockInfo : Type 0 where
  pub height : ℕ
  pub time : ℕ

pub record Env : Type 0 where
  pub block : BlockInfo
  pub contract_address : Addr

pub record MessageInfo : Type 0 where
  pub sender : Addr
  pub funds : List Coin

pub record Attribute : Type 0 where
  pub key : String
  pub value : String

-- When a claim is released.
pub data Expiration : Type 0 where
  at_height : ℕ → Expiration
  at_time : ℕ → Expiration
  never : Expiration

-- A message that a call sends; `M` is what its contract puts into the body of an execute call.
pub data CosmosMsg (M : Type 0) : Type 0 where
  wasm_execute : Addr → M → List Coin → CosmosMsg M
  wasm_instantiate : Option String → ℕ → M → List Coin → String → CosmosMsg M
  bank_send : String → List Coin → CosmosMsg M

pub data ReplyOn : Type 0 where
  reply_never : ReplyOn
  reply_on_success : ℕ → ReplyOn

pub record SubMsg (M : Type 0) : Type 0 where
  pub msg : CosmosMsg M
  pub reply_on : ReplyOn

pub record Response (M : Type 0) : Type 0 where
  pub messages : List (SubMsg M)
  pub attributes : List Attribute

module _ {M : Type 0} where
  abbrev pub message : CosmosMsg M → SubMsg M
  message m = record { msg = m; reply_on = reply_never }

  abbrev pub default_response : Response M
  default_response = record { messages = []; attributes = [] }

-- `Cw20ReceiveMsg` of the cw20 package.
pub record Cw20ReceiveMsg : Type 0 where
  pub sender : String
  pub amount : Uint128
  pub msg : Binary

abbrev pub attribute : String → String → Attribute
attribute key value = record { key = key; value = value }
