-- ===== src/Platform/Range.antt =====
-- Reading a stored map in the order of its keys: `range` and `keys` of the storage package. The
-- entries are put in order by their key bytes, and an exclusive bound leaves those above it.
pub mod Pages
pub mod Content
use dogether_contracts.Prelude.{
  ℕ, ◌+◌, ◌≤◌, ◌<◌, ◌≡◌, ◌≢◌, refl, sym, String, Bool, true, false, Option, none, some, List, [],
  ◌∷◌, ◌++◌, arith, if◌then◌else◌, Eq, All, All-append, Bool-cases, inl, inr, bytes_ltb,
  bytes_ltb_irrefl, bytes_ltb_trans, bytes_ltb_total, as_bytes, as_bytes-injective, take, drop,
  last, last-append, take-append-drop, append_assoc, length, length-append, map,
}
use dogether_contracts.Platform.Storage.{Map, may_load, save}

-- A type of keys with their bytes.
pub record Key (K : Type 0) : Type 0 where
  pub bytes : K → List ℕ
  pub injective : (j k : K) → bytes j ≡ bytes k → j ≡ k

instance abbrev pub string_key : Key String
string_key = record { bytes = as_bytes; injective = as_bytes-injective }

instance abbrev pub bytes_key : Key (List ℕ)
bytes_key = record { bytes = λ k. k; injective = λ j k e. e }

module _ {K V : Type 0} where
  abbrev pub keys : Map K V → List K
  keys [] = []
  keys ((k, v) ∷ m) = k ∷ keys m

  -- No key is stored twice.
  abbrev pub IsUnique : Map K V → Type 0
  IsUnique [] = Unit
  IsUnique (e ∷ m) = All (λ f. e.0 ≢ f.0) m × IsUnique m

module _ {K V : Type 0} ⦃key : Key K⦄ where
  unfoldable pub insert : K × V → Map K V → Map K V
  insert e [] = e ∷ []
  insert e (f ∷ m) =
      let rest = insert e m in
      if bytes_ltb (key.bytes f.0) (key.bytes e.0) then f ∷ rest else e ∷ f ∷ m

  -- `Order::Ascending`
  unfoldable pub ascending : Map K V → Map K V
  unfolding insert
  ascending [] = []
  ascending (e ∷ m) = insert e (ascending m)

  unfoldable pub above : List ℕ → Map K V → Map K V
  above bound [] = []
  above bound (e ∷ m) =
      let rest = above bound m in if bytes_ltb bound (key.bytes e.0) then e ∷ rest else rest

  -- `range` from an exclusive bound.
  unfoldable pub range : Option (List ℕ) → Map K V → Map K V
  unfolding ascending above
  range none m = ascending m
  range (some bound) m = above bound (ascending m)

  abbrev pub IsAscending : Map K V → Type 0
  IsAscending [] = Unit
  IsAscending (e ∷ m) =
      All (λ f. bytes_ltb (key.bytes e.0) (key.bytes f.0) ≡ true) m × IsAscending m

  All-insert : (P : K × V → Type 0) (e : K × V) (m : Map K V) → P e → All P m → All P (insert e m)
  unfolding insert
  All-insert P e [] p h = (p, tt)
  All-insert P e (f ∷ m) p h = elim (Bool-cases (bytes_ltb (key.bytes f.0) (key.bytes e.0))) [
    | inl before ↦ rw before (h.0, All-insert P e m p h.1)
    | inr after ↦ rw after (p, h)
  ]

  pub All-ascending : (P : K × V → Type 0) (m : Map K V) → All P m → All P (ascending m)
  unfolding ascending
  All-ascending P [] h = tt
  All-ascending P (e ∷ m) h = All-insert P e (ascending m) h.0 (All-ascending P m h.1)

  -- What is above a key is above every key below it.
  All-below :
      (j k : K) (m : Map K V)
      → bytes_ltb (key.bytes j) (key.bytes k) ≡ true
      → All (λ f. bytes_ltb (key.bytes k) (key.bytes f.0) ≡ true) m
      → All (λ f. bytes_ltb (key.bytes j) (key.bytes f.0) ≡ true) m
  All-below j k [] h a = tt
  All-below j k (f ∷ m) h a =
      (bytes_ltb_trans (key.bytes j) (key.bytes k) (key.bytes f.0) h a.0, All-below j k m h a.1)

  insert-IsAscending :
      (e : K × V) (m : Map K V) → All (λ f. e.0 ≢ f.0) m → IsAscending m → IsAscending (insert e m)
  unfolding insert
  insert-IsAscending e [] new a = (tt, tt)
  insert-IsAscending e (f ∷ m) new a =
      elim (Bool-cases (bytes_ltb (key.bytes f.0) (key.bytes e.0))) [
        | inl before ↦ rw before (
          All-insert (λ g. bytes_ltb (key.bytes f.0) (key.bytes g.0) ≡ true) e m before a.0,
          insert-IsAscending e m new.1 a.1,
        )
        | inr after ↦
            let next : bytes_ltb (key.bytes e.0) (key.bytes f.0) ≡ true =
              bytes_ltb_total (key.bytes f.0) (key.bytes e.0)
                (λ same. new.0 (sym (key.injective f.0 e.0 same))) after in
            rw after ((next, All-below e.0 f.0 m next a.0), a)
      ]

  -- The entries of a map without double keys stand in order.
  pub ascending-IsAscending : (m : Map K V) → IsUnique m → IsAscending (ascending m)
  unfolding ascending
  ascending-IsAscending [] u = tt
  ascending-IsAscending (e ∷ m) u =
      insert-IsAscending e (ascending m) (All-ascending (λ f. e.0 ≢ f.0) m u.0)
        (ascending-IsAscending m u.1)
