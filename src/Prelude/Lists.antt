-- ===== src/Prelude/Lists.antt =====
-- Lists over the native numbers.
use Prim.Native.Nat.{ℕ, zero, suc, ◌+◌, ◌<◌}
use mathlib.Core.List.{List, [], ◌∷◌, ◌++◌}
use mathlib.Core.Logic.{inl, inr}
use mathlib.Core.Option.{Option, none, some}
use mathlib.Core.Path.{◌≡◌, refl, ap}
use native.Mathlib.Omega.{arith}
use dogether_contracts.Prelude.Tests.{Option-cases}

module _ {ℓ} {A : Type ℓ} where
  abbrev pub length : List A → ℕ
  length [] = 0
  length (x ∷ xs) = suc (length xs)

  -- The sum of a number read from each item.
  abbrev pub sum_by : (A → ℕ) → List A → ℕ
  sum_by f [] = 0
  sum_by f (x ∷ xs) = f x + sum_by f xs

  abbrev pub All : (A → Type 0) → List A → Type 0
  All P [] = Unit
  All P (x ∷ xs) = P x × All P xs

  -- `Iterator::take`
  unfoldable pub take : ℕ → List A → List A
  take zero xs = []
  take (suc n) [] = []
  take (suc n) (x ∷ xs) = x ∷ take n xs

  unfoldable pub drop : ℕ → List A → List A
  drop zero xs = xs
  drop (suc n) [] = []
  drop (suc n) (x ∷ xs) = drop n xs

  unfoldable pub last : List A → Option A
  last [] = none
  last (x ∷ xs) = elim (last xs) [ none ↦ some x | some y ↦ some y ]

  pub take-append-drop : (n : ℕ) (xs : List A) → take n xs ++ drop n xs ≡ xs
  unfolding take drop
  take-append-drop zero xs = refl
  take-append-drop (suc n) [] = refl
  take-append-drop (suc n) (x ∷ xs) = ap (◌∷◌ x) (take-append-drop n xs)

  pub take-empty : (n : ℕ) (xs : List A) → 0 < n → take n xs ≡ [] → xs ≡ []
  unfolding take
  take-empty zero xs p h = absurd (omega arith)
  take-empty (suc n) [] p h = refl
  take-empty (suc n) (x ∷ xs) p h = absurd (cc)

  pub last-none : (xs : List A) → last xs ≡ none → xs ≡ []
  unfolding last
  last-none [] h = refl
  last-none (x ∷ xs) h = elim (Option-cases (last xs)) [
    | inl e ↦ absurd (ground arith)
    | inr (y, e) ↦ absurd (ground arith)
  ]

  -- A list with a last item is that item after the rest.
  pub last-append : (xs : List A) {x : A} → last xs ≡ some x → (ys : List A) × (xs ≡ ys ++ x ∷ [])
  unfolding last
  last-append [] h = absurd (cc)
  last-append (y ∷ xs) {x} h = elim (Option-cases (last xs)) [
    | inl ends ↦ ([], ground (arith, last-none xs ends))
    | inr (z, e) ↦ let (ys, whole) = last-append xs e in (y ∷ ys, ground (arith, whole))
  ]

  pub append_assoc : (xs ys zs : List A) → (xs ++ ys) ++ zs ≡ xs ++ (ys ++ zs)
  append_assoc [] ys zs = refl
  append_assoc (x ∷ xs) ys zs = ap (◌∷◌ x) (append_assoc xs ys zs)

  pub length-append : (xs ys : List A) → length (xs ++ ys) ≡ length xs + length ys
  length-append [] ys = omega arith
  length-append (x ∷ xs) ys = omega (arith, length-append xs ys)

module _ {ℓ} {A : Type ℓ} (P : A → Type 0) where
  pub All-append : (xs ys : List A) → All P (xs ++ ys) → All P xs × All P ys
  All-append [] ys h = (tt, h)
  All-append (x ∷ xs) ys h = let (left, right) = All-append xs ys h.1 in ((h.0, left), right)
