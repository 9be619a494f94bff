-- ===== src/Token/Listing/Walk.antt =====
-- A client that reads page after page, each from the last account of the page before.
use dogether_contracts.Prelude.{
  ℕ, zero, suc, ◌<◌, ◌≡◌, refl, ap, sym, ◌∙◌, String, Option, none, some, List, [], ◌∷◌, ◌++◌,
  arith, take, drop, last, last-none, last-append, take-append-drop, take-empty, length,
  length-append, append_assoc, Option-cases, inl, inr, Outcome,
}
use dogether_contracts.Platform.Range.{range, keys, ascending, IsUnique, string_key}
use dogether_contracts.Platform.Range.Content.{length-ascending}
use dogether_contracts.Platform.Range.Pages.{range_next}
use dogether_contracts.Platform.Storage.{Map}
use dogether_contracts.Platform.Types.{Uint128}
use dogether_contracts.Token.Listing.{page_size, start_of, query_all_accounts}
use dogether_contracts.Token.State.{Storage}

-- The accounts of at most `fuel` pages from a start.
unfoldable pub walk : Storage → Option ℕ → ℕ → Option String → List String
walk storage limit zero start = []
walk storage limit (suc fuel) start = elim (query_all_accounts storage start limit) [
  | Outcome.ok resp ↦ elim (last resp.accounts) [
    | none ↦ []
    | some account ↦ resp.accounts ++ walk storage limit fuel (some account)
  ]
  | Outcome.err e ↦ []
  | Outcome.panic ↦ []
]

-- The entry of a key in a listing.
keys_split :
    (m : Map String Uint128) (xs : List String) (k : String) (ys : List String)
    → keys m ≡ xs ++ k ∷ ys
    → (front : Map String Uint128) × (v : Uint128) × (back : Map String Uint128) × (m
        ≡ front ++ (k, v) ∷ back)
      × (keys back ≡ ys)
keys_split [] [] k ys h = absurd (cc)
keys_split [] (x ∷ xs) k ys h = absurd (cc)
keys_split ((j, v) ∷ m) [] k ys h = ([], v, m, ground (arith, h), ground (arith, h))
keys_split ((j, v) ∷ m) (x ∷ xs) k ys h =
    let (front, w, back, whole, rest) = keys_split m xs k ys (ground (arith, h)) in
    ((j, v) ∷ front, w, back, ground (arith, whole), rest)

length-keys : (m : Map String Uint128) → length (keys m) ≡ length m
length-keys [] = refl
length-keys (e ∷ m) = omega (arith, length-keys m)

module _ (storage : Storage) (unique : IsUnique storage.balances) where
  abbrev listed : Option String → List String
  listed start = keys (range (start_of start) storage.balances)

  -- What follows a page is the listing from its last account.
  listed_next :
      (start : Option String) (n : ℕ) (account : String)
      → last (take n (listed start)) ≡ some account
      → listed start ≡ take n (listed start) ++ listed (some account)
  listed_next start n account h =
      let page = take n (listed start) in
      let rest = drop n (listed start) in
      let (ys, whole) = last-append page h in
      let split : listed start ≡ ys ++ account ∷ rest =
        sym (take-append-drop n (listed start))
        ∙ ap (λ p. p ++ rest) whole
        ∙ append_assoc ys (account ∷ []) rest in
      let (front, v, back, here, after) =
        keys_split (range (start_of start) storage.balances) ys account rest split in
      let next = range_next (start_of start) storage.balances front (account, v) back unique here in
      let same : listed (some account) ≡ rest = ap keys next ∙ after in
      rw same (sym (take-append-drop n (listed start)))

  walk-listed :
      (limit : Option ℕ) (fuel : ℕ) (start : Option String)
      → 0 < page_size limit
      → length (listed start) < fuel
      → walk storage limit fuel start ≡ listed start
  unfolding walk query_all_accounts
  walk-listed limit zero start p h = absurd (omega arith)
  walk-listed limit (suc fuel) start p h =
      let page = take (page_size limit) (listed start) in
      elim (Option-cases (last page)) [
        | inl ends ↦
            let nothing = take-empty (page_size limit) (listed start) p (last-none page ends) in
            ground (arith, ends, nothing)
        | inr (account, e) ↦
            let split = listed_next start (page_size limit) account e in
            let (ys, whole) = last-append page e in
            let shorter : length (listed (some account)) < fuel = omega (
              arith,
              ap length split,
              length-append page (listed (some account)),
              ap length whole,
              length-append ys (account ∷ []),
            ) in
            ground (arith, e, split, walk-listed limit fuel (some account) p shorter)
      ]

  -- pages
  pub walk_lem :
      (limit : Option ℕ) (fuel : ℕ)
      → 0 < page_size limit
      → length storage.balances < fuel
      → walk storage limit fuel none ≡ keys (ascending storage.balances)
  unfolding range
  walk_lem limit fuel p h =
      walk-listed limit fuel none p
        (omega (arith, length-keys (ascending storage.balances), length-ascending storage.balances))
