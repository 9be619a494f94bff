-- ===== src/Platform/Storage.antt =====
-- A stored map, and the laws of reading, of writing and of sums over the stored values.
use dogether_contracts.Prelude.{
  ℕ, ◌+◌, ◌≤◌, ◌≡◌, refl, Option, none, some, List, [], ◌∷◌, arith, if◌then◌else◌, Eq, beq_self,
  All, sum_by, Bool-cases, inl, inr, subst,
}

abbrev pub Map : Type 0 → Type 0 → Type 0
Map K V = List (K × V)

module _ {K V : Type 0} where
  abbrev pub values : (V → ℕ) → Map K V → ℕ
  values f = sum_by (λ e. f e.1)

  abbrev pub AllValues : (V → Type 0) → Map K V → Type 0
  AllValues P = All (λ e. P e.1)

-- What a stored value contributes to a sum: nothing where the key is missing.
abbrev pub part : {V : Type 0} → (V → ℕ) → Option V → ℕ
part f none = 0
part f (some v) = f v

module _ {K V : Type 0} ⦃e : Eq K⦄ where
  -- `Map::may_load`
  unfoldable pub may_load : K → Map K V → Option V
  may_load k [] = none
  may_load k ((j, v) ∷ m) = if e.beq j k then some v else may_load k m

  -- `Map::save`
  unfoldable pub save : K → V → Map K V → Map K V
  save k v [] = (k, v) ∷ []
  save k v ((j, w) ∷ m) = if e.beq j k then (k, v) ∷ m else (j, w) ∷ save k v m

  pub may_load-save :
      (k j : K) (v : V) (m : Map K V)
      → may_load j (save k v m) ≡ (if e.beq k j then some v else may_load j m)
  unfolding may_load save
  may_load-save k j v [] = refl
  may_load-save k j v ((i, w) ∷ m) =
      ground (arith, e.beq_iff k j, e.beq_iff i k, e.beq_iff i j, may_load-save k j v m)

  pub may_load-save_self : (k : K) (v : V) (m : Map K V) → may_load k (save k v m) ≡ some v
  may_load-save_self k v m = ground (arith, may_load-save k k v m, beq_self k)

  -- A write exchanges the old contribution for the new one.
  pub values-save :
      (f : V → ℕ) (k : K) (v : V) (m : Map K V)
      → values f (save k v m) + part f (may_load k m) ≡ values f m + f v
  unfolding may_load save
  values-save f k v [] = ground arith
  values-save f k v ((i, w) ∷ m) = ground (arith, values-save f k v m)

  pub AllValues-save :
      (P : V → Type 0) (k : K) (v : V) (m : Map K V)
      → AllValues P m
      → P v
      → AllValues P (save k v m)
  unfolding save
  AllValues-save P k v [] h p = (p, tt)
  AllValues-save P k v ((i, w) ∷ m) h p = elim (Bool-cases (e.beq i k)) [
    | inl here ↦ rw here (p, h.1)
    | inr there ↦ rw there (h.0, AllValues-save P k v m h.1 p)
  ]

  pub AllValues-may_load :
      (P : V → Type 0) (k : K) (m : Map K V) {v : V} → AllValues P m → may_load k m ≡ some v → P v
  unfolding may_load
  AllValues-may_load P k [] h q = absurd (cc)
  AllValues-may_load P k ((i, w) ∷ m) {v} h q = elim (Bool-cases (e.beq i k)) [
    | inl here ↦ let same : w ≡ v = ground arith in subst P same h.0
    | inr there ↦ AllValues-may_load P k m h.1 (rw there at q)
  ]

  -- One stored value is a part of the sum.
  pub part-le-values : (f : V → ℕ) (k : K) (m : Map K V) → part f (may_load k m) ≤ values f m
  unfolding may_load
  part-le-values f k [] = omega arith
  part-le-values f k ((i, w) ∷ m) = ground (arith, part-le-values f k m)
