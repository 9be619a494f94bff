-- ===== src/Staking/Claim.antt =====
-- Claims of tokens in their unbonding period: src/claim.rs.
pub mod Sums
use dogether_contracts.Prelude.{
  ℕ, String, Bool, true, false, Option, none, some, List, [], ◌∷◌, ◌++◌, list_eq, nat_eq, ◌>>=◌, ok,
  ltb, if◌then◌else◌, unwrap_option,
}
use dogether_contracts.Platform.Types.{Uint128, CanonicalAddr, BlockInfo, Expiration}
use dogether_contracts.Platform.Std.{Std, StdResult}
use dogether_contracts.Platform.Storage.{may_load, save}
use dogether_contracts.Staking.State.{Storage, Claim}

abbrev pub or_empty : Option (List Claim) → List Claim
or_empty (some claims) = claims
or_empty none = []

-- `CLAIM.update` with the closure that appends a claim.
unfoldable pub create_claim : Storage → CanonicalAddr → Uint128 → Expiration → Storage
create_claim storage addr amount release_at =
    let claims = or_empty (may_load addr storage.claims) in
    let claim : Claim = record { amount = amount; release_at = release_at } in
    record storage { claims = save addr (claims ++ claim ∷ []) storage.claims }

module _ (std : Std) (block : BlockInfo) (cap : Option Uint128) where
  -- Whether the claim would take the total above the cap.
  unfoldable pub exceeds_cap : Uint128 → Uint128 → StdResult Bool
  exceeds_cap to_send amount = elim cap [
    | none ↦ ok false
    | some limit ↦ do total ← unwrap_option (std.add to_send amount); ok (ltb limit total)
  ]

  -- The predicate of `partition` with what it does to `to_send`: the new total, and whether the
  -- claim is sent.
  unfoldable pub send_claim : Uint128 → Claim → StdResult (Uint128 × Bool)
  unfolding exceeds_cap
  send_claim to_send c = elim (std.is_expired c.release_at block) [
    | true ↦ do
      exceeds ← exceeds_cap to_send c.amount
      elim exceeds [
        | true ↦ ok (to_send, false)
        | false ↦ do total ← unwrap_option (std.add to_send c.amount); ok (total, true)
      ]
    | false ↦ ok (to_send, false)
  ]

  -- `partition`: the total, and the claims that wait.
  unfoldable pub partition_claims : Uint128 → List Claim → StdResult (Uint128 × List Claim)
  unfolding send_claim
  partition_claims to_send [] = ok (to_send, [])
  partition_claims to_send (c ∷ claims) = do
    (total, sent) ← send_claim to_send c
    (final, waiting) ← partition_claims total claims
    ok (final, if sent then waiting else c ∷ waiting)

  unfoldable pub claim_tokens : Storage → CanonicalAddr → StdResult (Storage × Uint128)
  unfolding partition_claims
  claim_tokens storage addr = do
    (to_send, waiting) ← partition_claims 0 (or_empty (may_load addr storage.claims))
    ok (record storage { claims = save addr waiting storage.claims }, to_send)

pub record ClaimsResponse : Type 0 where
  pub claims : List Claim

unfoldable pub query_claims : Std → Storage → String → StdResult ClaimsResponse
query_claims std storage address = do
  address_raw ← std.addr_canonicalize address
  ok (record { claims = or_empty (may_load address_raw storage.claims) })
