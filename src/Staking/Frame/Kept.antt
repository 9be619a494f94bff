-- ===== src/Staking/Frame/Kept.antt =====
-- What the messages of the staking contract leave to the others: their stake, rewards and claims.
use dogether_contracts.Prelude.{
  ◌≡◌, ◌≢◌, refl, ap, ◌∙◌, String, Option, some, [], ok, arith, list_eq, nat_eq, Eq, inl, inr, ◌⊎◌,
}
use dogether_contracts.Platform.Laws.{IsDocumented}
use dogether_contracts.Platform.Range.{IsUnique}
use dogether_contracts.Platform.Range.Content.{save-IsUnique}
use dogether_contracts.Platform.Std.{Std, StdResult, Querier}
use dogether_contracts.Platform.Storage.{Map, may_load, save, may_load-save}
use dogether_contracts.Platform.Types.{CanonicalAddr, Env, MessageInfo, Response}
use dogether_contracts.Staking.Contract.{instantiate, execute}
use dogether_contracts.Staking.Frame.{subject, Touches, nobody, one, execute-Touches}
use dogether_contracts.Staking.Msg.{Payload, InstantiateMsg, ExecuteMsg, Codec, LotteryConfig}
use dogether_contracts.Staking.Solvency.Reach.{fresh, Reaches, instantiated, executed}
use dogether_contracts.Staking.State.{Storage, read_holder}

-- Nothing is written, or the value at one key.
may_load-other :
    {K V : Type 0} ⦃eq : Eq K⦄ (k j : K) {m m' : Map K V}
    → k ≢ j
    → (m' ≡ m) ⊎ ((v : V) × (m' ≡ save k v m))
    → may_load j m' ≡ may_load j m
may_load-other k j d (inl same) = rw same refl
may_load-other ⦃eq = eq⦄ k j {m} d (inr (v, e)) =
    rw e (ground (arith, may_load-save k j v m, eq.beq_iff k j, d))

IsUnique-written :
    {V : Type 0} (k : CanonicalAddr) {m m' : Map CanonicalAddr V}
    → IsUnique m
    → (m' ≡ m) ⊎ ((v : V) × (m' ≡ save k v m))
    → IsUnique m'
IsUnique-written k u (inl same) = rw same u
IsUnique-written k {m} u (inr (v, e)) = rw e (save-IsUnique k v m u)

module _ (std : Std) (doc : IsDocumented std) (codec : Codec) where
  Touches-kept :
      (who : Option String) (storage storage' : Storage) (j : CanonicalAddr)
      → ((address : String) → who ≡ some address → std.addr_canonicalize address ≢ ok j)
      → Touches std who storage storage'
      → (read_holder storage' j ≡ read_holder storage j)
        × (may_load j storage'.claims ≡ may_load j storage.claims)
  unfolding read_holder
  Touches-kept who storage storage' j other (nobody holders claims) =
      (rw holders refl, rw claims refl)
  Touches-kept who storage storage' j other (one address raw is canonical holders claims) =
      let d : raw ≢ j = λ e. other address is (canonical ∙ ap ok e) in
      (rw (may_load-other raw j d holders) refl, may_load-other raw j d claims)

  -- Where a message of the staking contract succeeds, the holder and the claims that are stored at
  -- any canonical address are the same before and after it, unless the address is that of the
  -- holder whom the message names.
  pub execute-kept :
      (storage storage' : Storage) (r : Response Payload) (querier : Querier)
      (lottery : String → StdResult LotteryConfig) (env : Env) (info : MessageInfo)
      (msg : ExecuteMsg) (j : CanonicalAddr)
      → ((address : String) → subject msg ≡ some address → std.addr_canonicalize address ≢ ok j)
      → execute std codec querier lottery storage env info msg ≡ ok (storage', r)
      → (read_holder storage' j ≡ read_holder storage j)
        × (may_load j storage'.claims ≡ may_load j storage.claims)
  execute-kept storage storage' r querier lottery env info msg j other e =
      Touches-kept (subject msg) storage storage' j other
        (execute-Touches std doc storage codec querier lottery env info msg e)

  instantiate-IsUnique :
      {storage : Storage} {r : Response Payload} (info : MessageInfo) (msg : InstantiateMsg)
      → instantiate std fresh info msg ≡ ok (storage, r)
      → IsUnique storage.holders
  unfolding instantiate
  instantiate-IsUnique {storage} info msg e =
      let same : storage.holders ≡ [] = ground arith in rw same tt

  Touches-IsUnique :
      {who : Option String} {storage storage' : Storage}
      → IsUnique storage.holders
      → Touches std who storage storage'
      → IsUnique storage'.holders
  Touches-IsUnique u (nobody holders claims) = rw holders u
  Touches-IsUnique u (one address raw is canonical holders claims) = IsUnique-written raw u holders

  -- No holder is stored twice in a state that the contract reaches.
  pub Reaches-IsUnique : {storage : Storage} → Reaches std codec storage → IsUnique storage.holders
  Reaches-IsUnique (instantiated info msg e) = instantiate-IsUnique info msg e
  Reaches-IsUnique (executed {storage} querier lottery env info msg reached e) =
      Touches-IsUnique (Reaches-IsUnique reached)
        (execute-Touches std doc storage codec querier lottery env info msg e)
