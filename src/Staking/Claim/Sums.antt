-- ===== src/Staking/Claim/Sums.antt =====
-- The amounts of the claims in `claim_tokens` of src/claim.rs: the due ones, the released ones and
-- the kept ones.
use dogether_contracts.Prelude.{
  ℕ, ◌+◌, ◌≤◌, ◌<◌, ◌≡◌, Bool, true, false, Option, none, some, List, [], ◌∷◌, ok, arith,
  Outcome-cases, inl, inr, if◌then◌else◌,
}
use dogether_contracts.Platform.Types.{Uint128, BlockInfo, u128_bound}
use dogether_contracts.Platform.Std.{Std}
use dogether_contracts.Platform.Laws.{IsDocumented}
use dogether_contracts.Staking.Claim.{exceeds_cap, send_claim, partition_claims}
use dogether_contracts.Staking.Custody.Held.{sum_amounts}
use dogether_contracts.Staking.State.{Claim}

-- The claims that are due at a block, and those that are not.
abbrev pub due : Std → BlockInfo → List Claim → List Claim
due std block [] = []
due std block (c ∷ claims) =
    if std.is_expired c.release_at block then c ∷ due std block claims else due std block claims

abbrev pub not_due : Std → BlockInfo → List Claim → List Claim
not_due std block [] = []
not_due std block (c ∷ claims) =
    if std.is_expired c.release_at block
    then not_due std block claims
    else c ∷ not_due std block claims

module _ (std : Std) (doc : IsDocumented std) (block : BlockInfo) (cap : Option Uint128) where
  send_claim_value :
      (t : ℕ) (c : Claim) {t' : ℕ} {sent : Bool}
      → send_claim std block cap t c ≡ ok (t', sent)
      → t' ≡ (if sent then t + c.amount else t)
  unfolding send_claim
  send_claim_value t c e = ground (arith, doc.add_lem t c.amount)

  send_claim_due :
      (t : ℕ) (c : Claim) {t' : ℕ}
      → send_claim std block cap t c ≡ ok (t', true)
      → std.is_expired c.release_at block ≡ true
  unfolding send_claim
  send_claim_due t c e = ground (arith, doc.add_lem t c.amount)

  -- Under any cap, what the partition of the claims releases and what it keeps add up to the claims
  -- and what it started with.
  pub partition_claims_sum :
      (t : ℕ) (claims : List Claim) {total : ℕ} {waiting : List Claim}
      → partition_claims std block cap t claims ≡ ok (total, waiting)
      → total + sum_amounts waiting ≡ t + sum_amounts claims
  unfolding partition_claims
  partition_claims_sum t [] e = ground arith
  partition_claims_sum t (c ∷ claims) e = elim (Outcome-cases (send_claim std block cap t c)) [
    | inr fails ↦ absurd (ground arith)
    | inl ((t', sent), e1) ↦ elim (Outcome-cases (partition_claims std block cap t' claims)) [
      | inr fails ↦ absurd (ground arith)
      | inl ((total', waiting'), e2) ↦
          ground (arith, send_claim_value t c e1, partition_claims_sum t' claims e2)
    ]
  ]

  -- Under any cap, the partition of the claims releases at most what is due at the block, on top of
  -- what it started with.
  partition_claims_due :
      (t : ℕ) (claims : List Claim) {total : ℕ} {waiting : List Claim}
      → partition_claims std block cap t claims ≡ ok (total, waiting)
      → total ≤ t + sum_amounts (due std block claims)
  unfolding partition_claims
  partition_claims_due t [] e = ground arith
  partition_claims_due t (c ∷ claims) e = elim (Outcome-cases (send_claim std block cap t c)) [
    | inr fails ↦ absurd (ground arith)
    | inl ((t', true), e1) ↦ elim (Outcome-cases (partition_claims std block cap t' claims)) [
      | inr fails ↦ absurd (ground arith)
      | inl ((total', waiting'), e2) ↦
          ground (
            arith,
            send_claim_value t c e1,
            send_claim_due t c e1,
            partition_claims_due t' claims e2,
          )
    ]
    | inl ((t', false), e1) ↦ elim (Outcome-cases (partition_claims std block cap t' claims)) [
      | inr fails ↦ absurd (ground arith)
      | inl ((total', waiting'), e2) ↦
          ground (arith, send_claim_value t c e1, partition_claims_due t' claims e2)
    ]
  ]

module _ (std : Std) (doc : IsDocumented std) (block : BlockInfo) (limit : Uint128) where
  send_claim_within :
      (t : ℕ) (c : Claim) {t' : ℕ} {sent : Bool}
      → send_claim std block (some limit) t c ≡ ok (t', sent)
      → t ≤ limit
      → t' ≤ limit
  unfolding send_claim exceeds_cap
  send_claim_within t c e h = ground (arith, doc.add_lem t c.amount)

  -- With a cap, the partition of the claims, started at or below it, never releases more than it.
  pub partition_claims_within :
      (t : ℕ) (claims : List Claim) {total : ℕ} {waiting : List Claim}
      → partition_claims std block (some limit) t claims ≡ ok (total, waiting)
      → t ≤ limit
      → total ≤ limit
  unfolding partition_claims
  partition_claims_within t [] e h = ground arith
  partition_claims_within t (c ∷ claims) e h =
      elim (Outcome-cases (send_claim std block (some limit) t c)) [
        | inr fails ↦ absurd (ground arith)
        | inl ((t', sent), e1) ↦
            elim (Outcome-cases (partition_claims std block (some limit) t' claims)) [
              | inr fails ↦ absurd (ground arith)
              | inl ((total', waiting'), e2) ↦
                  ground (arith, partition_claims_within t' claims e2 (send_claim_within t c e1 h))
            ]
      ]

module _ (std : Std) (doc : IsDocumented std) (block : BlockInfo) where
  -- Without a cap, where the amounts fit 128 bits, the partition of the claims releases the sum of
  -- the claims that are due at the block and keeps the others in their order.
  pub partition_claims_uncapped :
      (t : ℕ) (claims : List Claim)
      → t + sum_amounts claims < u128_bound
      → partition_claims std block none t claims
        ≡ ok (t + sum_amounts (due std block claims), not_due std block claims)
  unfolding partition_claims send_claim exceeds_cap
  partition_claims_uncapped t [] h = ground arith
  partition_claims_uncapped t (c ∷ claims) h = ground (
    arith,
    doc.add_lem t c.amount,
    partition_claims_uncapped t claims,
    partition_claims_uncapped (t + c.amount) claims,
  )
