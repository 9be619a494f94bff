-- ===== src/Platform/Range/Content.antt =====
-- What an ordered listing holds: the entries of the map, each once.
use dogether_contracts.Prelude.{
  ◌≡◌, ◌≢◌, refl, none, some, [], ◌∷◌, arith, Eq, All, Bool-cases, inl, inr, if◌then◌else◌, ◌+◌, ℕ,
  length,
}
use dogether_contracts.Platform.Range.{Key, IsUnique, insert, ascending, All-ascending}
use dogether_contracts.Platform.Storage.{Map, values, may_load, save}

module _ {K V : Type 0} ⦃eq : Eq K⦄ where
  may_load-none : (k : K) (m : Map K V) → All (λ f. k ≢ f.0) m → may_load k m ≡ none
  unfolding may_load
  may_load-none k [] h = refl
  may_load-none k ((j, w) ∷ m) h = ground (arith, h.0, eq.beq_iff j k, may_load-none k m h.1)

  All-save :
      (Q : K → Type 0) (k : K) (v : V) (m : Map K V)
      → All (λ f. Q f.0) m
      → Q k
      → All (λ f. Q f.0) (save k v m)
  unfolding save
  All-save Q k v [] h q = (q, tt)
  All-save Q k v ((j, w) ∷ m) h q = elim (Bool-cases (eq.beq j k)) [
    | inl here ↦ rw here (q, h.1)
    | inr there ↦ rw there (h.0, All-save Q k v m h.1 q)
  ]

  -- A write stores no key twice.
  pub save-IsUnique : (k : K) (v : V) (m : Map K V) → IsUnique m → IsUnique (save k v m)
  unfolding save
  save-IsUnique k v [] u = (tt, tt)
  save-IsUnique k v ((j, w) ∷ m) u = elim (Bool-cases (eq.beq j k)) [
    | inl here ↦ let same : j ≡ k = (eq.beq_iff j k).0 here in rw here (rw (← same) u.0, u.1)
    | inr there ↦
        let other : j ≢ k = λ e. ground (arith, eq.beq_iff j k) in
        rw there (All-save (λ i. j ≢ i) k v m u.0 other, save-IsUnique k v m u.1)
  ]

module _ {K V : Type 0} ⦃eq : Eq K⦄ ⦃key : Key K⦄ where
  may_load-insert :
      (k j : K) (v : V) (m : Map K V)
      → All (λ f. j ≢ f.0) m
      → may_load k (insert (j, v) m) ≡ (if eq.beq j k then some v else may_load k m)
  unfolding may_load insert
  may_load-insert k j v [] new = refl
  may_load-insert k j v ((i, w) ∷ m) new =
      ground (arith, new.0, eq.beq_iff i k, eq.beq_iff j k, may_load-insert k j v m new.1)

  -- Reading from the ordered listing reads from the map.
  pub may_load-ascending :
      (k : K) (m : Map K V) → IsUnique m → may_load k (ascending m) ≡ may_load k m
  unfolding may_load ascending
  may_load-ascending k [] u = refl
  may_load-ascending k ((j, v) ∷ m) u = ground (
    arith,
    may_load-insert k j v (ascending m) (All-ascending (λ f. j ≢ f.0) m u.0),
    may_load-ascending k m u.1,
  )

module _ {K V : Type 0} ⦃key : Key K⦄ where
  length-insert : (e : K × V) (m : Map K V) → length (insert e m) ≡ 1 + length m
  unfolding insert
  length-insert e [] = refl
  length-insert e (f ∷ m) = ground (arith, length-insert e m)

  pub length-ascending : (m : Map K V) → length (ascending m) ≡ length m
  unfolding ascending
  length-ascending [] = refl
  length-ascending (e ∷ m) = ground (arith, length-insert e (ascending m), length-ascending m)

  values-insert : (f : V → ℕ) (e : K × V) (m : Map K V) → values f (insert e m) ≡ f e.1 + values f m
  unfolding insert
  values-insert f e [] = refl
  values-insert f e (d ∷ m) = ground (arith, values-insert f e m)

  pub values-ascending : (f : V → ℕ) (m : Map K V) → values f (ascending m) ≡ values f m
  unfolding ascending
  values-ascending f [] = refl
  values-ascending f (e ∷ m) = ground (arith, values-insert f e (ascending m), values-ascending f m)
