-- ===== src/Token/Supply/Effects.antt =====
-- What `execute_bond` and `execute_burn` of src/contract.rs have done where they succeed.
use dogether_contracts.Prelude.{
  ◌+◌, ◌-◌, ◌≤◌, ◌≡◌, String, some, [], ◌∷◌, ok, arith, string_eq, Outcome-cases, inl, inr,
}
use dogether_contracts.Platform.Types.{
  Addr, Binary, MessageInfo, Response, Uint128, message, wasm_execute,
}
use dogether_contracts.Platform.Std.{Std}
use dogether_contracts.Platform.Storage.{may_load, save}
use dogether_contracts.Platform.Laws.{IsDocumented}
use dogether_contracts.Token.Contract.{or_zero, execute_bond, execute_burn}
use dogether_contracts.Token.Msg.{Payload, receive}
use dogether_contracts.Token.State.{TokenInfo, Storage}

module _ (storage : Storage) (token : TokenInfo) (who : Addr) (amount : Uint128) where
  -- `who` has received new tokens.
  pub record HasMinted (storage' : Storage) : Type 0 where
    pub supply :
        storage'.token_info ≡ some (record token { total_supply = token.total_supply + amount })
    pub balances :
        storage'.balances
        ≡ save who (or_zero (may_load who storage.balances) + amount) storage.balances

  -- `who` has lost tokens for good.
  pub record HasBurned (storage' : Storage) : Type 0 where
    pub owned : amount ≤ or_zero (may_load who storage.balances)
    pub issued : amount ≤ token.total_supply
    pub supply :
        storage'.token_info ≡ some (record token { total_supply = token.total_supply - amount })
    pub balances :
        storage'.balances
        ≡ save who (or_zero (may_load who storage.balances) - amount) storage.balances

module _ (std : Std) (doc : IsDocumented std) (storage : Storage) (token : TokenInfo)
    (loaded : storage.token_info ≡ some token) (info : MessageInfo) (amount : Uint128)
    {storage' : Storage} {r : Response Payload} where
  -- Where a bond message of the token contract succeeds, the amount is added to the total supply
  -- and to the balance of the contract that is named, and the only message that is sent is the
  -- receive hook of that contract, with the recipient as the sender and the same amount.
  pub execute_bond-HasMinted :
      (contract : String) (msg : Binary) (recipient : String)
      → execute_bond std storage info contract amount msg recipient ≡ ok (storage', r)
      → (who : Addr) × (std.addr_validate contract ≡ ok who)
        × HasMinted storage token who amount storage'
        × (r.messages
            ≡ message (
                wasm_execute contract
                  (receive (record { sender = recipient; amount = amount; msg = msg }))
                  [])
              ∷ [])
  unfolding execute_bond
  execute_bond-HasMinted contract msg recipient e =
      elim (Outcome-cases (std.addr_validate contract)) [
        | inr fails ↦ absurd (ground (arith, doc.add_lem token.total_supply amount))
        | inl (who, valid) ↦ (
          who,
          valid,
          ground (
            arith,
            doc.add_lem token.total_supply amount,
            doc.add_lem (or_zero (may_load who storage.balances)) amount,
          ),
          ground (
            arith,
            doc.add_lem token.total_supply amount,
            doc.add_lem (or_zero (may_load who storage.balances)) amount,
          ),
        )
      ]

  pub execute_burn-HasBurned :
      execute_burn std storage info amount ≡ ok (storage', r)
      → HasBurned storage token info.sender amount storage' × (r.messages ≡ [])
  unfolding execute_burn
  execute_burn-HasBurned e = ground (
    arith,
    doc.checked_sub_lem (or_zero (may_load info.sender storage.balances)) amount,
    doc.checked_sub_lem token.total_supply amount,
  )
