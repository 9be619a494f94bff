-- ===== src/Staking/Custody/Held.antt =====
-- The tokens that the staking contract holds for its stakers, and what a call burns of them.
use dogether_contracts.Prelude.{ℕ, ◌+◌, ◌≡◌, Option, none, some, List, [], ◌∷◌, ◌++◌, sum_by, arith}
use dogether_contracts.Platform.Types.{
  Coin, CosmosMsg, SubMsg, wasm_execute, wasm_instantiate, bank_send,
}
use dogether_contracts.Platform.Storage.{values}
use dogether_contracts.Staking.Msg.{Payload, burn, register}
use dogether_contracts.Staking.State.{State, Storage, Claim}

abbrev pub sum_amounts : List Claim → ℕ
sum_amounts = sum_by (λ c. c.amount)

pub sum_amounts-append :
    (xs ys : List Claim) → sum_amounts (xs ++ ys) ≡ sum_amounts xs + sum_amounts ys
sum_amounts-append [] ys = omega arith
sum_amounts-append (x ∷ xs) ys = omega (arith, sum_amounts-append xs ys)

abbrev pub staked : Option State → ℕ
staked none = 0
staked (some s) = s.total_balance

-- The stake and the claims that have not been paid.
abbrev pub held : Storage → ℕ
held storage = staked storage.state + values sum_amounts storage.claims

abbrev pub burned_by_payload : Payload → ℕ
burned_by_payload (burn amount) = amount
burned_by_payload (register address bonus combination) = 0

abbrev pub burned_by : CosmosMsg Payload → ℕ
burned_by (wasm_execute contract payload funds) = burned_by_payload payload
burned_by (wasm_instantiate admin code payload funds label) = 0
burned_by (bank_send to amount) = 0

-- What the messages of a call burn.
abbrev pub burned : List (SubMsg Payload) → ℕ
burned = sum_by (λ m. burned_by m.msg)

abbrev pub amount_of : List Coin → ℕ
amount_of = sum_by (λ c. c.amount)

abbrev pub paid_by : CosmosMsg Payload → ℕ
paid_by (wasm_execute contract payload funds) = amount_of funds
paid_by (wasm_instantiate admin code payload funds label) = amount_of funds
paid_by (bank_send to amount) = amount_of amount

-- The coins that the messages of a call take out of the contract.
abbrev pub paid_out : List (SubMsg Payload) → ℕ
paid_out = sum_by (λ m. paid_by m.msg)
