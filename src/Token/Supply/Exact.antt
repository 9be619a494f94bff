-- ===== src/Token/Supply/Exact.antt =====
-- The recorded total supply and the sum of the balances under `create_accounts`, `execute_bond` and
-- `execute_burn` of src/contract.rs.
use dogether_contracts.Prelude.{
  ℕ, ◌+◌, ◌-◌, ◌≤◌, ◌≡◌, ◌≢◌, refl, String, Option, some, none, List, [], ◌∷◌, ok, arith, string_eq,
  Outcome-cases, Option-cases, inl, inr, All,
}
use dogether_contracts.Platform.Types.{Addr, MessageInfo, Response, Uint128}
use dogether_contracts.Platform.Std.{Std}
use dogether_contracts.Platform.Storage.{
  Map, values, part, may_load, save, values-save, may_load-save,
}
use dogether_contracts.Platform.Laws.{IsDocumented}
use dogether_contracts.Token.Contract.{
  or_zero, create_accounts, execute, execute_bond, execute_burn,
}
use dogether_contracts.Token.Msg.{Payload, Cw20Coin, ExecuteMsg, burn, bond}
use dogether_contracts.Token.State.{TokenInfo, Storage}
use dogether_contracts.Token.Supply.Effects.{execute_bond-HasMinted, execute_burn-HasBurned}

abbrev pub circulating : Map Addr Uint128 → ℕ
circulating = values (λ b. b)

abbrev pub issued : Option TokenInfo → ℕ
issued none = 0
issued (some token) = token.total_supply

pub part-or_zero : (o : Option Uint128) → part (λ b. b) o ≡ or_zero o
part-or_zero none = refl
part-or_zero (some b) = refl

-- The initial accounts have different addresses.
abbrev pub AreDistinct : List Cw20Coin → Type 0
AreDistinct [] = Unit
AreDistinct (row ∷ rows) = All (λ other. row.address ≢ other.address) rows × AreDistinct rows

abbrev AreAbsent : Map Addr Uint128 → List Cw20Coin → Type 0
AreAbsent balances = All (λ row. may_load row.address balances ≡ none)

AreAbsent-save :
    (a : Addr) (v : Uint128) (balances : Map Addr Uint128) (rows : List Cw20Coin)
    → All (λ other. a ≢ other.address) rows
    → AreAbsent balances rows
    → AreAbsent (save a v balances) rows
AreAbsent-save a v balances [] other absent = tt
AreAbsent-save a v balances (row ∷ rows) other absent = (
  ground (arith, may_load-save a row.address v balances, string_eq.beq_iff a row.address),
  AreAbsent-save a v balances rows other.1 absent.1,
)

module _ (std : Std) (doc : IsDocumented std) where
  -- The loop never credits more than it counts.
  pub create_accounts-le :
      (balances : Map Addr Uint128) (t : Uint128) (rows : List Cw20Coin)
      {balances' : Map Addr Uint128} {t' : Uint128}
      → create_accounts std balances t rows ≡ ok (balances', t')
      → circulating balances' + t ≤ circulating balances + t'
  unfolding create_accounts
  create_accounts-le balances t [] e = ground arith
  create_accounts-le balances t (row ∷ rows) {balances'} {t'} e =
      elim (Outcome-cases (std.addr_validate row.address)) [
        | inr fails ↦ absurd (ground arith)
        | inl (a, valid) ↦ ground (
          arith,
          doc.add_lem t row.amount,
          values-save (λ b. b) a row.amount balances,
          create_accounts-le (save a row.amount balances) (t + row.amount) rows
              {balances' = balances'} {t' = t'},
        )
      ]

  -- On distinct new accounts it credits what it counts.
  pub create_accounts-eq :
      (balances : Map Addr Uint128) (t : Uint128) (rows : List Cw20Coin)
      {balances' : Map Addr Uint128} {t' : Uint128}
      → AreDistinct rows
      → AreAbsent balances rows
      → create_accounts std balances t rows ≡ ok (balances', t')
      → circulating balances' + t ≡ circulating balances + t'
  unfolding create_accounts
  create_accounts-eq balances t [] distinct absent e = ground arith
  create_accounts-eq balances t (row ∷ rows) {balances'} {t'} distinct absent e =
      elim (Outcome-cases (std.addr_validate row.address)) [
        | inr fails ↦ absurd (ground arith)
        | inl (a, valid) ↦
            let same = doc.addr_validate_value row.address valid in
            ground (
              arith,
              same,
              doc.add_lem t row.amount,
              values-save (λ b. b) row.address row.amount balances,
              create_accounts-eq (save row.address row.amount balances) (t + row.amount) rows
                  {balances' = balances'} {t' = t'} distinct.1
                  (AreAbsent-save row.address row.amount balances rows distinct.0 absent.1),
            )
      ]

  -- Every operation moves the supply and the balances together.
  execute_bond-gap :
      (storage : Storage) {storage' : Storage} {r : Response Payload} (info : MessageInfo)
      (contract : String) (amount : Uint128) (msg recipient : String)
      → execute_bond std storage info contract amount msg recipient ≡ ok (storage', r)
      → issued storage'.token_info + circulating storage.balances
        ≡ issued storage.token_info + circulating storage'.balances
  unfolding execute_bond
  execute_bond-gap storage info contract amount msg recipient e =
      elim (Option-cases storage.token_info) [
        | inl missing ↦ absurd (ground arith)
        | inr (token, loaded) ↦
            let (who, valid, m, _) =
              execute_bond-HasMinted std doc storage token loaded info amount contract msg recipient
                e in
            let old = may_load who storage.balances in
            rw (m.supply, m.balances, loaded)
              (omega (
                arith,
                values-save (λ b. b) who (or_zero old + amount) storage.balances,
                part-or_zero old,
              ))
      ]

  execute_burn-gap :
      (storage : Storage) {storage' : Storage} {r : Response Payload} (info : MessageInfo)
      (amount : Uint128)
      → execute_burn std storage info amount ≡ ok (storage', r)
      → issued storage'.token_info + circulating storage.balances
        ≡ issued storage.token_info + circulating storage'.balances
  unfolding execute_burn
  execute_burn-gap storage info amount e = elim (Option-cases storage.token_info) [
    | inl missing ↦ absurd (
        ground
          (arith, doc.checked_sub_lem (or_zero (may_load info.sender storage.balances)) amount))
    | inr (token, loaded) ↦
        let (m, _) = execute_burn-HasBurned std doc storage token loaded info amount e in
        let old = may_load info.sender storage.balances in
        rw (m.supply, m.balances, loaded)
          (omega (
            arith,
            m.owned,
            m.issued,
            values-save (λ b. b) info.sender (or_zero old - amount) storage.balances,
            part-or_zero old,
          ))
  ]

  pub execute-gap :
      (storage : Storage) {storage' : Storage} {r : Response Payload} (info : MessageInfo)
      (msg : ExecuteMsg)
      → execute std storage info msg ≡ ok (storage', r)
      → issued storage'.token_info + circulating storage.balances
        ≡ issued storage.token_info + circulating storage'.balances
  unfolding execute
  execute-gap storage info (burn amount) e = execute_burn-gap storage info amount e
  execute-gap storage info (bond contract amount msg recipient) e =
      execute_bond-gap storage info contract amount msg recipient e
