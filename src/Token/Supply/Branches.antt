-- ===== src/Token/Supply/Branches.antt =====
-- `execute_bond` of src/contract.rs on every branch.
use dogether_contracts.Prelude.{
  ◌+◌, ◌≡◌, List, String, some, none, [], ◌∷◌, ok, err, panic, arith, ltb, ◌==◌, string_eq, not,
  if◌then◌else◌,
}
use dogether_contracts.Platform.Types.{
  Addr, Binary, Uint128, MessageInfo, attribute, message, wasm_execute, u128_bound,
}
use dogether_contracts.Platform.Std.{Std}
use dogether_contracts.Platform.Storage.{may_load, save}
use dogether_contracts.Platform.Laws.{IsDocumented}
use dogether_contracts.Token.Contract.{or_zero, execute_bond}
use dogether_contracts.Token.Msg.{receive, invalid_zero_amount, unauthorized, Cw20Coin}
use dogether_contracts.Token.State.{TokenInfo, Storage, get_cap}
use dogether_contracts.Token.Supply.Reach.{Reaches, Reaches-minter, balance-le-supply}

module _ (std : Std) (doc : IsDocumented std) (creator : Addr) (rows : List Cw20Coin)
    (storage : Storage) (token : TokenInfo) (reached : Reaches std creator rows storage)
    (loaded : storage.token_info ≡ some token) (info : MessageInfo) (amount : Uint128)
    (contract : String) (msg : Binary) (recipient : String) where
  mint_is : token.mint ≡ some (record { minter = creator; cap = none })
  mint_is = let m = Reaches-minter std doc creator rows reached in rw loaded at m

  -- In every state that the token contract can reach, and where the named address is valid, a bond
  -- message of amount zero is refused, one that its instantiator does not send is unauthorized, one
  -- that would take the total supply out of 128 bits panics, and every other one mints the amount
  -- to the named address and sends its receive hook; the cap and the sum of the balance never fail.
  pub execute_bond_lem :
      std.addr_validate contract ≡ ok contract
      → execute_bond std storage info contract amount msg recipient ≡ (
          if amount == 0
          then err invalid_zero_amount
          else if not (string_eq.beq creator info.sender)
          then err unauthorized
          else if ltb (token.total_supply + amount) u128_bound
          then ok (
            record storage {
              token_info = some (record token { total_supply = token.total_supply + amount });
              balances =
                  save contract
                    (or_zero (may_load contract storage.balances) + amount)
                    storage.balances;
            },
            record {
              messages =
                  message (
                    wasm_execute contract
                      (receive (record { sender = recipient; amount = amount; msg = msg }))
                      [])
                  ∷ [];
              attributes =
                  attribute "action" "bond"
                  ∷ attribute "from" info.sender
                  ∷ attribute "to" contract
                  ∷ attribute "amount" (std.to_string amount)
                  ∷ [];
            },
          )
          else panic)
  unfolding execute_bond get_cap
  execute_bond_lem valid = ground (
    arith,
    mint_is,
    balance-le-supply std doc creator rows contract reached loaded,
    doc.add_lem token.total_supply amount,
    doc.add_lem (or_zero (may_load contract storage.balances)) amount,
  )
