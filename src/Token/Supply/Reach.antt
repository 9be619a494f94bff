-- ===== src/Token/Supply/Reach.antt =====
-- The states that the token contract reaches by `instantiate` and `execute` of src/contract.rs:
-- their supply, their minter, and burning in them.
use dogether_contracts.Prelude.{
  ◌-◌, ◌≤◌, ◌≡◌, refl, sym, subst, All, some, none, List, [], ◌∷◌, ok, err, arith, string_eq,
  Option, Outcome-cases, inl, inr, ◌∙◌, ltb, ◌==◌, if◌then◌else◌,
}
use dogether_contracts.Platform.Types.{Addr, MessageInfo, Response, Uint128, overflow, attribute}
use dogether_contracts.Platform.Std.{Std}
use dogether_contracts.Platform.Storage.{part-le-values, may_load, save}
use dogether_contracts.Platform.Laws.{IsDocumented}
use dogether_contracts.Token.Contract.{or_zero, create_accounts, instantiate, execute, execute_burn}
use dogether_contracts.Token.Msg.{
  Payload, Cw20Coin, InstantiateMsg, ExecuteMsg, burn, bond, std_error, invalid_zero_amount,
}
use dogether_contracts.Token.State.{TokenInfo, Storage, MinterData}
use dogether_contracts.Token.Supply.Exact.{
  circulating, issued, AreDistinct, create_accounts-le, create_accounts-eq, execute-gap,
  part-or_zero,
}

-- Nothing is stored.
abbrev pub fresh : Storage
fresh = record { contract_info = none; token_info = none; balances = [] }

-- The states of a contract that `creator` instantiated once with `rows`, and that then executed
-- any messages. A call that fails changes nothing.
pub data Reaches (std : Std) (creator : Addr) (rows : List Cw20Coin) : Storage → Type 0 where
  instantiated :
      {storage : Storage} {r : Response Payload} (info : MessageInfo) (msg : InstantiateMsg)
      → info.sender ≡ creator
      → msg.initial_balances ≡ rows
      → instantiate std fresh info msg ≡ ok (storage, r)
      → Reaches std creator rows storage
  executed :
      {storage storage' : Storage} {r : Response Payload} (info : MessageInfo) (msg : ExecuteMsg)
      → Reaches std creator rows storage
      → execute std storage info msg ≡ ok (storage', r)
      → Reaches std creator rows storage'

All-absent : (rows : List Cw20Coin) → All (λ row. may_load row.address fresh.balances ≡ none) rows
unfolding may_load
All-absent [] = tt
All-absent (row ∷ rows) = (refl, All-absent rows)

module _ (std : Std) (doc : IsDocumented std) (creator : Addr) (rows : List Cw20Coin) where
  instantiate_covered :
      {storage : Storage} {r : Response Payload} (info : MessageInfo) (msg : InstantiateMsg)
      → instantiate std fresh info msg ≡ ok (storage, r)
      → circulating storage.balances ≤ issued storage.token_info
  unfolding instantiate
  instantiate_covered info msg e =
      elim (Outcome-cases (create_accounts std [] 0 msg.initial_balances)) [
        | inr fails ↦ absurd (ground arith)
        | inl ((balances, total), c) ↦
            ground (arith, create_accounts-le std doc [] 0 msg.initial_balances c)
      ]

  instantiate_exact :
      {storage : Storage} {r : Response Payload} (info : MessageInfo) (msg : InstantiateMsg)
      → AreDistinct msg.initial_balances
      → instantiate std fresh info msg ≡ ok (storage, r)
      → circulating storage.balances ≡ issued storage.token_info
  unfolding instantiate may_load
  instantiate_exact info msg distinct e =
      elim (Outcome-cases (create_accounts std [] 0 msg.initial_balances)) [
        | inr fails ↦ absurd (ground arith)
        | inl ((balances, total), c) ↦ ground (
          arith,
          create_accounts-eq std doc [] 0 msg.initial_balances distinct
              (All-absent msg.initial_balances) c,
        )
      ]

  -- In every state that the token contract can reach, the balances add up to at most the recorded
  -- total supply.
  pub Reaches-covered :
      {storage : Storage}
      → Reaches std creator rows storage
      → circulating storage.balances ≤ issued storage.token_info
  Reaches-covered (instantiated info msg by with e) = instantiate_covered info msg e
  Reaches-covered (executed {storage} info msg reached e) =
      omega (arith, Reaches-covered reached, execute-gap std doc storage info msg e)

  -- If the initial accounts of the token have distinct addresses, then in every state that the
  -- token contract can reach the balances add up to the recorded total supply.
  pub Reaches-exact :
      {storage : Storage}
      → AreDistinct rows
      → Reaches std creator rows storage
      → circulating storage.balances ≡ issued storage.token_info
  Reaches-exact distinct (instantiated info msg by with e) =
      instantiate_exact info msg (subst AreDistinct (sym with) distinct) e
  Reaches-exact distinct (executed {storage} info msg reached e) =
      omega (arith, Reaches-exact distinct reached, execute-gap std doc storage info msg e)

  pub balance-le-supply :
      {storage : Storage} {token : TokenInfo} (who : Addr)
      → Reaches std creator rows storage
      → storage.token_info ≡ some token
      → or_zero (may_load who storage.balances) ≤ token.total_supply
  balance-le-supply {storage} who reached loaded =
      let covered = rw loaded at (Reaches-covered reached) in
      omega (
        arith,
        covered,
        part-le-values (λ b. b) who storage.balances,
        part-or_zero (may_load who storage.balances),
      )

  -- In every state that the token contract can reach, burning zero is refused, burning more than
  -- the sender's balance is an overflow error, and every other burn succeeds and takes the amount
  -- from the sender's balance and from the total supply: the check of the supply never fails.
  pub execute_burn_lem :
      (storage : Storage) (token : TokenInfo) (info : MessageInfo) (amount : Uint128)
      → Reaches std creator rows storage
      → storage.token_info ≡ some token
      → execute_burn std storage info amount ≡ (
          if amount == 0
          then err invalid_zero_amount
          else if ltb (or_zero (may_load info.sender storage.balances)) amount
          then err (std_error overflow)
          else ok (
            record storage {
              token_info = some (record token { total_supply = token.total_supply - amount });
              balances =
                  save info.sender
                    (or_zero (may_load info.sender storage.balances) - amount)
                    storage.balances;
            },
            record {
              messages = [];
              attributes =
                  attribute "action" "burn"
                  ∷ attribute "from" info.sender
                  ∷ attribute "amount" (std.to_string amount)
                  ∷ [];
            },
          ))
  unfolding execute_burn
  execute_burn_lem storage token info amount reached loaded = ground (
    arith,
    balance-le-supply info.sender reached loaded,
    doc.checked_sub_lem (or_zero (may_load info.sender storage.balances)) amount,
    doc.checked_sub_lem token.total_supply amount,
  )

abbrev pub mint_of : Storage → Option MinterData
mint_of storage = elim storage.token_info [ none ↦ none | some token ↦ token.mint ]

module _ (std : Std) (doc : IsDocumented std) (creator : Addr) (rows : List Cw20Coin) where
  execute-mint_of :
      (storage : Storage) {storage' : Storage} {r : Response Payload} (info : MessageInfo)
      (msg : ExecuteMsg)
      → execute std storage info msg ≡ ok (storage', r)
      → mint_of storage' ≡ mint_of storage
  unfolding execute
  execute-mint_of storage info (burn amount) e = ground arith
  execute-mint_of storage info (bond contract amount msg recipient) e = ground arith

  -- In every state that the token contract can reach, its instantiator is the only minter and no
  -- cap is set.
  pub Reaches-minter :
      {storage : Storage}
      → Reaches std creator rows storage
      → mint_of storage ≡ some (record { minter = creator; cap = none })
  unfolding instantiate
  Reaches-minter (instantiated info msg by with e) = ground arith
  Reaches-minter (executed {storage} info msg reached e) =
      execute-mint_of storage info msg e ∙ Reaches-minter reached
