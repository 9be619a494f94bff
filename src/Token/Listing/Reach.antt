-- ===== src/Token/Listing/Reach.antt =====
-- The listing of the accounts in the states that the token contract reaches.
use dogether_contracts.Prelude.{
  ℕ, ◌+◌, ◌<◌, ◌≡◌, Option, none, List, [], ◌∷◌, ok, arith, string_eq, length, Outcome-cases, inl,
  inr, Option-cases,
}
use dogether_contracts.Platform.Laws.{IsDocumented}
use dogether_contracts.Platform.Range.{
  IsUnique, IsAscending, keys, ascending, ascending-IsAscending, string_key,
}
use dogether_contracts.Platform.Range.Content.{save-IsUnique, may_load-ascending}
use dogether_contracts.Platform.Std.{Std}
use dogether_contracts.Platform.Storage.{Map, may_load, save}
use dogether_contracts.Platform.Types.{Addr, MessageInfo, Response, Uint128}
use dogether_contracts.Token.Contract.{
  create_accounts, instantiate, execute, execute_bond, execute_burn, or_zero,
}
use dogether_contracts.Token.Listing.{page_size}
use dogether_contracts.Token.Listing.Walk.{walk, walk_lem}
use dogether_contracts.Token.Msg.{Payload, Cw20Coin, InstantiateMsg, ExecuteMsg, burn, bond}
use dogether_contracts.Token.State.{Storage}
use dogether_contracts.Token.Supply.Effects.{execute_bond-HasMinted, execute_burn-HasBurned}
use dogether_contracts.Token.Supply.Reach.{fresh, Reaches, instantiated, executed}

module _ (std : Std) (doc : IsDocumented std) where
  create_accounts-IsUnique :
      (balances : Map Addr Uint128) (t : Uint128) (rows : List Cw20Coin)
      {balances' : Map Addr Uint128} {t' : Uint128}
      → IsUnique balances
      → create_accounts std balances t rows ≡ ok (balances', t')
      → IsUnique balances'
  unfolding create_accounts
  create_accounts-IsUnique balances t [] {balances'} u e =
      let same : balances' ≡ balances = ground arith in rw same u
  create_accounts-IsUnique balances t (row ∷ rows) {balances'} {t'} u e =
      elim (Outcome-cases (std.addr_validate row.address)) [
        | inr fails ↦ absurd (ground arith)
        | inl (a, valid) ↦
            create_accounts-IsUnique (save a row.amount balances) (t + row.amount) rows
              {balances' = balances'} {t' = t'} (save-IsUnique a row.amount balances u)
              (ground (arith, doc.add_lem t row.amount))
      ]

  instantiate-IsUnique :
      {storage : Storage} {r : Response Payload} (info : MessageInfo) (msg : InstantiateMsg)
      → instantiate std fresh info msg ≡ ok (storage, r)
      → IsUnique storage.balances
  unfolding instantiate
  instantiate-IsUnique {storage} info msg e =
      elim (Outcome-cases (create_accounts std [] 0 msg.initial_balances)) [
        | inr fails ↦ absurd (ground arith)
        | inl ((balances, total), c) ↦
            let same : storage.balances ≡ balances = ground arith in
            rw same (create_accounts-IsUnique [] 0 msg.initial_balances tt c)
      ]

  execute-IsUnique :
      (storage : Storage) {storage' : Storage} {r : Response Payload} (info : MessageInfo)
      (msg : ExecuteMsg)
      → IsUnique storage.balances
      → execute std storage info msg ≡ ok (storage', r)
      → IsUnique storage'.balances
  unfolding execute execute_bond execute_burn
  execute-IsUnique storage info (burn amount) u e = elim (Option-cases storage.token_info) [
    | inl missing ↦ absurd (
        ground
          (arith, doc.checked_sub_lem (or_zero (may_load info.sender storage.balances)) amount))
    | inr (token, loaded) ↦
        let (b, _) = execute_burn-HasBurned std doc storage token loaded info amount e in
        rw b.balances (save-IsUnique info.sender _ storage.balances u)
  ]
  execute-IsUnique storage info (bond contract amount msg recipient) u e =
      elim (Option-cases storage.token_info) [
        | inl missing ↦ absurd (ground arith)
        | inr (token, loaded) ↦
            let (who, _, m, _) =
              execute_bond-HasMinted std doc storage token loaded info amount contract msg recipient
                e in
            rw m.balances (save-IsUnique who _ storage.balances u)
      ]

  pub Reaches-IsUnique :
      (creator : Addr) (rows : List Cw20Coin) {storage : Storage}
      → Reaches std creator rows storage
      → IsUnique storage.balances
  Reaches-IsUnique creator rows (instantiated info msg by with e) = instantiate-IsUnique info msg e
  Reaches-IsUnique creator rows (executed {storage} info msg reached e) =
      execute-IsUnique storage info msg (Reaches-IsUnique creator rows reached) e

  -- In every state that the token contract can reach, a client that reads the accounts page after
  -- page, with a positive limit, has read all of them after more pages than there are accounts: the
  -- keys of an ascending list of entries from which every account reads what it reads from the
  -- stored balances.
  pub query_all_accounts-IsAscending :
      (creator : Addr) (rows : List Cw20Coin) (storage : Storage) (limit : Option ℕ) (fuel : ℕ)
      → Reaches std creator rows storage
      → 0 < page_size limit
      → length storage.balances < fuel
      → (listing : Map Addr Uint128) × (walk storage limit fuel none ≡ keys listing)
        × IsAscending listing
        × ((account : Addr) → may_load account listing ≡ may_load account storage.balances)
  query_all_accounts-IsAscending creator rows storage limit fuel reached p h =
      let u = Reaches-IsUnique creator rows reached in
      (
        ascending storage.balances,
        walk_lem storage u limit fuel p h,
        ascending-IsAscending storage.balances u,
        λ account. may_load-ascending account storage.balances u,
      )
