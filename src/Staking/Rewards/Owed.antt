-- ===== src/Staking/Rewards/Owed.antt =====
-- `calculate_decimal_rewards` of src/user.rs against the product that it stands for.
use native.Mathlib.Nat.{mul-div_cancel}
use dogether_contracts.Prelude.{
  ℕ, ◌+◌, ◌-◌, ◌*◌, ◌/◌, ◌≤◌, ◌<◌, ◌≡◌, ok, arith, Option-cases, Outcome-cases, inl, inr,
}
use dogether_contracts.Platform.Types.{StdError, Decimal, u128_bound, decimal_one}
use dogether_contracts.Platform.Std.{Std}
use dogether_contracts.Platform.Laws.{IsDocumented, product_fits}
use dogether_contracts.Staking.Math.{multiplication_lem, summation_lem, subtraction_lem}
use dogether_contracts.Staking.Rewards.{calculate_decimal_rewards, all_rewards}
use dogether_contracts.Staking.State.{State, Holder}

-- The rewards of a holder at a global index: the pending ones, and the stake's share since the
-- holder's index.
abbrev pub owed : Decimal → Holder → ℕ
owed global_index holder = holder.pending_rewards + (global_index - holder.index) * holder.balance

scaled_product : (a b : ℕ) → a * decimal_one / 1 * b / decimal_one ≡ a * b
scaled_product a b =
    let unit : a * decimal_one / 1 ≡ a * decimal_one = omega arith in
    let regroup : a * decimal_one * b ≡ a * b * decimal_one = omega arith in
    rw (unit, regroup) (mul-div_cancel (a * b) (omega arith))

module _ (std : Std) (doc : IsDocumented std) where
  pub calculate_value :
      (g i b : ℕ) {r : ℕ} → calculate_decimal_rewards std g i b ≡ ok r → (i ≤ g) × (r ≡ (g - i) * b)
  unfolding calculate_decimal_rewards
  calculate_value g i b {r} h = elim (Option-cases (std.from_ratio b 1)) [
    | inl e ↦ absurd (ground arith)
    | inr (d, e) ↦ ground (
      arith,
      doc.from_ratio_value b 1 e,
      subtraction_lem std doc {E = StdError} g i,
      multiplication_lem std doc {E = StdError} (g - i) d,
      scaled_product b (g - i),
    )
  ]

  pub calculate_total :
      (g i b : ℕ)
      → i ≤ g
      → g < u128_bound
      → b * decimal_one < u128_bound
      → (g - i) * b < u128_bound
      → calculate_decimal_rewards std g i b ≡ ok ((g - i) * b)
  unfolding calculate_decimal_rewards
  calculate_total g i b below p q r = ground (
    arith,
    doc.from_ratio_total b 1,
    subtraction_lem std doc {E = StdError} g i,
    multiplication_lem std doc {E = StdError} (g - i) (b * decimal_one / 1),
    product_fits (b * decimal_one / 1) (g - i),
    scaled_product b (g - i),
  )

  pub all_rewards_value :
      (s : State) (h : Holder) {r : ℕ}
      → all_rewards std s h ≡ ok r
      → (h.index ≤ s.global_index) × (r ≡ owed s.global_index h)
  unfolding all_rewards
  all_rewards_value s h e =
      elim (Outcome-cases (calculate_decimal_rewards std s.global_index h.index h.balance)) [
        | inl (r, c) ↦
            let (below, exact) = calculate_value s.global_index h.index h.balance c in
            ground (arith, summation_lem std doc {E = StdError} r h.pending_rewards)
        | inr fails ↦ absurd (ground arith)
      ]

  -- For a holder who is not ahead of the global index, and where the numbers fit 128 bits, the
  -- decimal arithmetic gives exactly the pending rewards and the stake times the rise of the index
  -- since the holder's index.
  pub all_rewards_total :
      (s : State) (h : Holder)
      → h.index ≤ s.global_index
      → s.global_index < u128_bound
      → h.balance * decimal_one < u128_bound
      → owed s.global_index h < u128_bound
      → all_rewards std s h ≡ ok (owed s.global_index h)
  unfolding all_rewards
  all_rewards_total s h below p q r = ground (
    arith,
    calculate_total s.global_index h.index h.balance,
    summation_lem std doc {E = StdError} ((s.global_index - h.index) * h.balance) h.pending_rewards,
  )
