-- ===== src/Platform/Range/Pages.antt =====
-- The rest of a listing: what stands above one of its keys.
use dogether_contracts.Prelude.{
  ℕ, ◌≡◌, refl, sym, ◌∙◌, ap, subst, true, false, Option, none, some, List, [], ◌∷◌, ◌++◌, arith,
  All, All-append, Bool-cases, inl, inr, bytes_ltb, bytes_ltb_irrefl, bytes_ltb_trans, append_assoc,
}
use dogether_contracts.Platform.Range.{
  Key, IsUnique, IsAscending, above, ascending, range, ascending-IsAscending,
}
use dogether_contracts.Platform.Storage.{Map}

module _ {K : Type 0} ⦃key : Key K⦄ where
  not_above :
      (j k : K)
      → bytes_ltb (key.bytes j) (key.bytes k) ≡ true
      → bytes_ltb (key.bytes k) (key.bytes j) ≡ false
  not_above j k h = elim (Bool-cases (bytes_ltb (key.bytes k) (key.bytes j))) [
    | inl both ↦
        let loop = bytes_ltb_trans (key.bytes j) (key.bytes k) (key.bytes j) h both in
        absurd (ground (arith, loop, bytes_ltb_irrefl (key.bytes j)))
    | inr no_loop ↦ no_loop
  ]

module _ {K V : Type 0} ⦃key : Key K⦄ where
  above-All :
      (bound : List ℕ) (m : Map K V)
      → All (λ f. bytes_ltb bound (key.bytes f.0) ≡ true) m
      → above bound m ≡ m
  unfolding above
  above-All bound [] h = refl
  above-All bound (e ∷ m) h = ground (arith, h.0, above-All bound m h.1)

  -- In an ordered listing the entries above a bound are the last ones.
  above_suffix :
      (bound : List ℕ) (m : Map K V)
      → IsAscending m
      → (front : Map K V) × (m ≡ front ++ above bound m)
  unfolding above
  above_suffix bound [] a = ([], refl)
  above_suffix bound (e ∷ m) a = elim (Bool-cases (bytes_ltb bound (key.bytes e.0))) [
    | inl here ↦ ([], rw (here, above-All bound m (All-above bound e.0 m here a.0)) refl)
    | inr below ↦
        let (front, whole) = above_suffix bound m a.1 in (e ∷ front, rw below (ap (◌∷◌ e) whole))
  ]
    where
      All-above :
          (bound : List ℕ) (k : K) (m : Map K V)
          → bytes_ltb bound (key.bytes k) ≡ true
          → All (λ f. bytes_ltb (key.bytes k) (key.bytes f.0) ≡ true) m
          → All (λ f. bytes_ltb bound (key.bytes f.0) ≡ true) m
      All-above bound k [] h a = tt
      All-above bound k (f ∷ m) h a =
          (bytes_ltb_trans bound (key.bytes k) (key.bytes f.0) h a.0, All-above bound k m h a.1)

  above_split :
      (xs : Map K V) (e : K × V) (ys : Map K V)
      → IsAscending (xs ++ e ∷ ys)
      → above (key.bytes e.0) (xs ++ e ∷ ys) ≡ ys
  unfolding above
  above_split [] e ys a = rw (bytes_ltb_irrefl, above-All (key.bytes e.0) ys a.0) refl
  above_split (x ∷ xs) e ys a =
      let (_, next) =
        All-append (λ f. bytes_ltb (key.bytes x.0) (key.bytes f.0) ≡ true) xs (e ∷ ys) a.0 in
      rw (not_above x.0 e.0 next.0) (above_split xs e ys a.1)

  -- A listing from one of its keys is what follows the key in the listing.
  pub range_next :
      (start : Option (List ℕ)) (m : Map K V) (xs : Map K V) (e : K × V) (ys : Map K V)
      → IsUnique m
      → range start m ≡ xs ++ e ∷ ys
      → range (some (key.bytes e.0)) m ≡ ys
  unfolding range
  range_next none m xs e ys u h =
      rw h (above_split xs e ys (subst IsAscending h (ascending-IsAscending m u)))
  range_next (some bound) m xs e ys u h =
      let (front, whole) = above_suffix bound (ascending m) (ascending-IsAscending m u) in
      let split : ascending m ≡ (front ++ xs) ++ e ∷ ys =
        whole ∙ ap (◌++◌ front) h ∙ sym (append_assoc front xs (e ∷ ys)) in
      rw split
        (above_split (front ++ xs) e ys (subst IsAscending split (ascending-IsAscending m u)))

  pub range-none : (m : Map K V) → range none m ≡ ascending m
  unfolding range
  range-none m = refl
