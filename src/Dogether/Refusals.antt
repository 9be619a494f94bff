-- ===== src/Dogether/Refusals.antt =====
-- The errors of their own that the messages of src/contract.rs end in.
use dogether_contracts.Prelude.{
  zero, suc, ltb, ltb→lt, ◌⊎◌, ◌≡◌, ◌≢◌, ◌<◌, ◌↔◌, refl, some, List, [], ◌∷◌, err, arith, string_eq,
  inl, inr, Bool-cases,
}
use dogether_contracts.Platform.Std.{Std, Querier, add_u64}
use dogether_contracts.Platform.Types.{Coin, Env, MessageInfo, Uint128}
use dogether_contracts.Dogether.Contract.{execute}
use dogether_contracts.Dogether.Math.{decimal_multiplication_in_256, decimal_subtraction_in_256}
use dogether_contracts.Dogether.Msg.{
  ContractError, std_error, empty_funds, multiple_denoms, wrong_denom, empty_amount,
  do_not_send_funds, retry_redeem_later, ExecuteMsg, pool, un_pool, claim_un_pool, redeem_earning,
  Market,
}
use dogether_contracts.Dogether.Pool.{sent_funds, try_pool, try_un_pool, try_claim_un_pool}
use dogether_contracts.Dogether.Redeem.{interest_accrued, to_aust, try_redeem_earning}
use dogether_contracts.Dogether.State.{Config, State, Storage}
use dogether_contracts.Staking.Msg.{Codec}

-- What is wrong with a message, by the error that names it.
pub data IsRefused (s : State) (config : Config) (env : Env) (info : MessageInfo)
    : ExecuteMsg → ContractError → Type 0 where
  no_funds : info.funds ≡ [] → IsRefused s config env info pool empty_funds
  several :
      (a b : Coin) (coins : List Coin)
      → info.funds ≡ a ∷ b ∷ coins
      → IsRefused s config env info pool multiple_denoms
  other_denom :
      (coin : Coin)
      → info.funds ≡ coin ∷ []
      → coin.denom ≢ config.denom
      → IsRefused s config env info pool wrong_denom
  nothing : IsRefused s config env info (un_pool 0) empty_amount
  funded : info.funds ≢ [] → IsRefused s config env info redeem_earning do_not_send_funds
  too_early :
      info.funds ≡ []
      → env.block.time < s.next_draw
      → IsRefused s config env info redeem_earning (retry_redeem_later s.next_draw)

-- An error that is not passed on from the platform.
abbrev pub IsOwn : ContractError → Type 0
IsOwn (std_error e) = ⊥
IsOwn _ = Unit

List-cases : (coins : List Coin) → (coins ≡ []) ⊎ ((c : Coin) × (cs : List Coin) × (coins ≡ c ∷ cs))
List-cases [] = inl refl
List-cases (c ∷ cs) = inr (c, cs, refl)

module _ (std : Std) (querier : Querier) (storage : Storage) (s : State) (config : Config)
    (loaded : storage.state ≡ some s) (configured : storage.config ≡ some config) (env : Env)
    (info : MessageInfo) where
  try_pool_complete :
      (codec : Codec) (e : ContractError)
      → IsRefused s config env info pool e
      → try_pool std querier codec storage info ≡ err e
  unfolding try_pool sent_funds
  try_pool_complete codec e (no_funds h) = ground (arith, loaded, configured, h)
  try_pool_complete codec e (several a b coins h) = ground (arith, loaded, configured, h)
  try_pool_complete codec e (other_denom coin h d) =
      ground (arith, loaded, configured, h, string_eq.beq_iff coin.denom config.denom, d)

  try_pool_sound :
      (codec : Codec) (e : ContractError) (funds : List Coin)
      → IsOwn e
      → info.funds ≡ funds
      → try_pool std querier codec storage info ≡ err e
      → IsRefused s config env info pool e
  unfolding try_pool sent_funds
  try_pool_sound codec e [] own h runs =
      let is : e ≡ empty_funds = ground (arith, loaded, configured, h, runs) in rw is (no_funds h)
  try_pool_sound codec e (a ∷ b ∷ coins) own h runs =
      let is : e ≡ multiple_denoms = ground (arith, loaded, configured, h, runs) in
      rw is (several a b coins h)
  try_pool_sound codec e (coin ∷ []) own h runs =
      elim (Bool-cases (string_eq.beq coin.denom config.denom)) [
        | inr other ↦
            let is : e ≡ wrong_denom = ground (arith, loaded, configured, h, runs, other) in
            let d : coin.denom ≢ config.denom =
              λ q. ground (arith, other, string_eq.beq_iff coin.denom config.denom, q) in
            rw is (other_denom coin h d)
        | inl same ↦ absurd (ground (arith, loaded, configured, h, runs, same, own))
      ]

  try_un_pool_sound :
      (amount : Uint128) (e : ContractError)
      → IsOwn e
      → try_un_pool std storage info amount ≡ err e
      → IsRefused s config env info (un_pool amount) e
  unfolding try_un_pool
  try_un_pool_sound zero e own runs =
      let is : e ≡ empty_amount = ground (arith, loaded, configured, runs) in rw is nothing
  try_un_pool_sound (suc n) e own runs = absurd (ground (arith, loaded, configured, runs, own))

  try_un_pool_complete :
      (amount : Uint128) (e : ContractError)
      → IsRefused s config env info (un_pool amount) e
      → try_un_pool std storage info amount ≡ err e
  unfolding try_un_pool
  try_un_pool_complete amount e nothing = ground (arith, loaded, configured)

  try_claim_un_pool_own :
      (e : ContractError)
      → IsOwn e
      → try_claim_un_pool std storage info ≡ err e
      → IsRefused s config env info claim_un_pool e
  unfolding try_claim_un_pool
  try_claim_un_pool_own e own runs = absurd (ground (arith, loaded, runs, own))

  try_redeem_earning_complete :
      (market : Market) (e : ContractError)
      → IsRefused s config env info redeem_earning e
      → try_redeem_earning std querier market storage env info ≡ err e
  unfolding try_redeem_earning
  try_redeem_earning_complete market e (funded h) = elim (List-cases info.funds) [
    | inl empty ↦ absurd (h empty)
    | inr (coin, coins, some_funds) ↦ ground (arith, loaded, configured, some_funds)
  ]
  try_redeem_earning_complete market e (too_early h early) =
      ground (arith, loaded, configured, h, early)

  try_redeem_earning_sound :
      (market : Market) (e : ContractError) (funds : List Coin)
      → IsOwn e
      → info.funds ≡ funds
      → try_redeem_earning std querier market storage env info ≡ err e
      → IsRefused s config env info redeem_earning e
  unfolding try_redeem_earning interest_accrued to_aust add_u64 decimal_multiplication_in_256
      decimal_subtraction_in_256
  try_redeem_earning_sound market e (coin ∷ coins) own h runs =
      let is : e ≡ do_not_send_funds = ground (arith, loaded, configured, h, runs) in
      rw is (funded (λ q. ground (arith, h, q)))
  try_redeem_earning_sound market e [] own h runs =
      elim (Bool-cases (ltb env.block.time s.next_draw)) [
        | inl early ↦
            let is : e ≡ retry_redeem_later s.next_draw =
              ground (arith, loaded, configured, h, runs, early) in
            rw is (too_early h (ltb→lt env.block.time s.next_draw early))
        | inr due ↦ absurd (ground (arith, loaded, configured, h, runs, due, own))
      ]

  -- On a stored state and configuration, a message ends in an error of the contract's own if and
  -- only if it is a pooling without coins, with several coins or with one coin of another
  -- denomination, an unpooling of nothing, or a redemption with coins or before the draw is due,
  -- and the error is the one that names it.
  pub execute-IsRefused :
      (codec : Codec) (market : Market) (msg : ExecuteMsg) (e : ContractError)
      → IsOwn e
      → (execute std querier codec market storage env info msg ≡ err e)
        ↔ IsRefused s config env info msg e
  unfolding execute
  execute-IsRefused codec market pool e own =
      (try_pool_sound codec e info.funds own refl, try_pool_complete codec e)
  execute-IsRefused codec market (un_pool amount) e own =
      (try_un_pool_sound amount e own, try_un_pool_complete amount e)
  execute-IsRefused codec market claim_un_pool e own =
      (try_claim_un_pool_own e own, λ refused. elim refused [ ])
  execute-IsRefused codec market redeem_earning e own =
      (try_redeem_earning_sound market e info.funds own refl, try_redeem_earning_complete market e)
