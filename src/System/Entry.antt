-- ===== src/System/Entry.antt =====
-- A user can enter the pool: pooling across the three contracts succeeds.
use dogether_contracts.Prelude.{
  ◌+◌, ◌-◌, ◌*◌, ◌<◌, ◌≡◌, refl, String, some, List, [], ◌∷◌, ok, arith, list_eq, nat_eq, string_eq,
  beq_self, Outcome-cases, inl, inr,
}
use dogether_contracts.Platform.Laws.{IsDocumented}
use dogether_contracts.Platform.Std.{Std, StdResult, Querier}
use dogether_contracts.Platform.Storage.{may_load-save_self}
use dogether_contracts.Platform.Types.{
  Addr, Binary, CanonicalAddr, Cw20ReceiveMsg, Decimal, Env, MessageInfo, Response, Uint128,
  decimal_one, message, u128_bound, wasm_execute,
}
use dogether_contracts.Dogether.Contract as Pool
use dogether_contracts.Dogether.Msg as PoolMsg
use dogether_contracts.Dogether.Pool.Total.{try_pool_total}
use dogether_contracts.Dogether.State as PoolState
use dogether_contracts.Staking.Contract as Stake
use dogether_contracts.Staking.Msg as StakeMsg
use dogether_contracts.Staking.Rewards.Owed.{owed}
use dogether_contracts.Staking.Solvency.Bonding.{handle_receive_total}
use dogether_contracts.Staking.Solvency.Reach.{Reaches-IsBacked}
use dogether_contracts.Staking.State as StakeState
use dogether_contracts.Staking.State.{read_holder}
use dogether_contracts.System.{Chain, Step, by, pools}
use dogether_contracts.System.Moves.{pool_of}
use dogether_contracts.System.Parts.{Reaches-staking, Reaches-token}
use dogether_contracts.System.Reach.{Reaches}
use dogether_contracts.Taxation.Bounds.{tax}
use dogether_contracts.Token.Contract as Coins
use dogether_contracts.Token.Msg as CoinsMsg
use dogether_contracts.Token.State as CoinsState
use dogether_contracts.Token.Supply.Branches.{execute_bond_lem}
use dogether_contracts.Token.Supply.Reach as CoinsReach

-- The minter can bond where the supply has room.
execute_bond_total :
    (std : Std) (doc : IsDocumented std) (minter : Addr) (rows : List CoinsMsg.Cw20Coin)
    (storage : CoinsState.Storage) (token : CoinsState.TokenInfo) (contract : Addr)
    (amount : Uint128) (msg : Binary) (recipient : String)
    → CoinsReach.Reaches std minter rows storage
    → storage.token_info ≡ some token
    → std.addr_validate contract ≡ ok contract
    → 0 < amount
    → token.total_supply + amount < u128_bound
    → (t : CoinsState.Storage) × (r : Response CoinsMsg.Payload) × (Coins.execute std storage
          (by minter)
          (CoinsMsg.ExecuteMsg.bond contract amount msg recipient)
        ≡ ok (t, r))
      × (r.messages
          ≡ message (
              wasm_execute contract
                (CoinsMsg.Payload.receive
                  (record { sender = recipient; amount = amount; msg = msg }))
                [])
            ∷ [])
unfolding Coins.execute
execute_bond_total std doc minter rows storage token contract amount msg recipient reached loaded
      valid positive room =
    let branches =
      execute_bond_lem std doc minter rows storage token reached loaded (by minter) amount contract
        msg recipient valid in
    let self = beq_self minter in
    elim (Outcome-cases (
      Coins.execute std storage (by minter)
        (CoinsMsg.ExecuteMsg.bond contract amount msg recipient))) [
          | inl ((t, r), e) ↦ (t, r, e, ground (arith, branches, self))
          | inr fails ↦ absurd (ground (arith, branches, self))
        ]

module _ (std : Std) (doc : IsDocumented std) (codec : StakeMsg.Codec)
    (pool_addr token_addr staking_addr : Addr) (c : Chain) (p : PoolState.State)
    (pc : PoolState.Config) (s : StakeState.State) (sc : StakeState.Config)
    (token : CoinsState.TokenInfo) (info : MessageInfo) (raw : CanonicalAddr) where
  -- In every state that the three contracts reach together, a user can pool an amount of the
  -- configured coin that leaves something after the tax: the deposit, the bond at the token
  -- contract and its hook succeed as one transaction, after which the pool and the user's stake are
  -- larger by what the tax leaves, where the contracts know each other's addresses, the addresses,
  -- the encoding and the tax are answered and the numbers fit their integers.
  pub pools-Step :
      (querier : Querier) (market : PoolMsg.Market)
      (lottery : String → StdResult StakeMsg.LotteryConfig) (env : Env) (money_market : Addr)
      (msg : Binary) (tax_rate : Decimal) (limit amount : Uint128)
      → Reaches std codec pool_addr token_addr staking_addr c
      → c.dogether.state ≡ some p
      → c.dogether.config ≡ some pc
      → c.staking.state ≡ some s
      → c.staking.config ≡ some sc
      → c.token.token_info ≡ some token
      → info.funds ≡ record { denom = pc.denom; amount = amount } ∷ []
      → std.addr_humanize pc.money_market_address ≡ ok money_market
      → std.addr_humanize p.staking_address ≡ ok staking_addr
      → std.addr_humanize p.cw20_address ≡ ok token_addr
      → std.addr_humanize sc.cw20_token_addr ≡ ok token_addr
      → std.addr_validate staking_addr ≡ ok staking_addr
      → std.addr_canonicalize info.sender ≡ ok raw
      → codec.to_binary StakeMsg.bond_stake ≡ ok msg
      → codec.from_binary msg ≡ ok StakeMsg.bond_stake
      → querier.tax_rate ≡ ok tax_rate
      → querier.tax_cap pc.denom ≡ ok limit
      → amount * decimal_one < u128_bound
      → tax_rate * decimal_one < u128_bound
      → tax_rate + decimal_one < u128_bound
      → p.total_ust_pool + amount < u128_bound
      → token.total_supply + amount < u128_bound
      → s.total_balance + amount < u128_bound
      → s.global_index < u128_bound
      → (read_holder c.staking raw).balance * decimal_one < u128_bound
      → owed s.global_index (read_holder c.staking raw) < u128_bound
      → let net = amount - tax amount tax_rate limit in
        0 < net
        → (c' : Chain) × Step std codec pool_addr token_addr staking_addr c c'
          × (pool_of c'.dogether.state ≡ pool_of c.dogether.state + net)
          × ((read_holder c'.staking raw).balance ≡ (read_holder c.staking raw).balance + net)
  unfolding Pool.execute Stake.execute read_holder
  pools-Step querier market lottery env money_market msg tax_rate limit amount reached p_is pc_is
        s_is sc_is token_is funds human_market human_staking human_cw20 named_token valid canonical
        encoded decoded rated capped small small_tax small_sum room room_supply room_stake
        small_index small_balance small_owed positive =
      let net = amount - tax amount tax_rate limit in
      let pooled =
        try_pool_total std doc querier codec c.dogether p pc p_is pc_is info amount money_market
          token_addr staking_addr msg tax_rate limit funds human_market human_staking human_cw20
          encoded rated capped small small_tax small_sum room in
      let (rows, token_reached) =
        Reaches-token std codec pool_addr token_addr staking_addr reached in
      let (t, r2, minted, sends) =
        execute_bond_total std doc pool_addr rows c.token token staking_addr net msg info.sender
          token_reached token_is valid positive (omega (arith, room_supply)) in
      let backed =
        Reaches-IsBacked std codec doc
          (Reaches-staking std codec pool_addr token_addr staking_addr reached) in
      let hook : Cw20ReceiveMsg = record { sender = info.sender; amount = net; msg = msg } in
      let (k, r3, staked, b) =
        handle_receive_total std doc codec c.staking s sc s_is sc_is (by token_addr) hook raw backed
          named_token decoded refl positive canonical small_index small_balance small_owed
          (omega (arith, room_stake)) in
      (
        record {
          dogether = record c.dogether {
            state = some (record p { total_ust_pool = p.total_ust_pool + net });
          };
          token = t;
          staking = k;
        },
        pools querier querier market lottery env env info money_market
            (record { denom = pc.denom; amount = net } ∷ []) staking_addr net msg info.sender hook
            pooled refl minted sends staked,
        rw p_is refl,
        rw (b.holders, may_load-save_self raw _ c.staking.holders) refl,
      )
