-- ===== src/Staking/Listing/Walk.antt =====
-- A client that reads the holders page after page, each from the last address of the page before.
use dogether_contracts.Prelude.{
  ℕ, zero, suc, ◌<◌, ◌≡◌, refl, ap, sym, ◌∙◌, String, Option, none, some, List, [], ◌∷◌, ◌++◌, ok,
  arith, All, All-append, take, drop, last, last-none, take-append-drop, take-empty, length,
  length-append, append_assoc, Option-cases, inl, inr, list_eq, nat_eq, Outcome,
}
use dogether_contracts.Platform.Range.{IsUnique, All-ascending, ascending, range, bytes_key}
use dogether_contracts.Platform.Range.Content.{length-ascending}
use dogether_contracts.Platform.Range.Pages.{range_next, range-none}
use dogether_contracts.Platform.Std.{Std}
use dogether_contracts.Platform.Storage.{Map}
use dogether_contracts.Platform.Types.{Addr, CanonicalAddr}
use dogether_contracts.Staking.Listing.{
  page_size, calc_range_start, responses, read_holders, validate_start, query_holders,
}
use dogether_contracts.Staking.Listing.Pages.{
  IsNamed, responses_total, responses-append, responses-none, responses-last, range-zero,
}
use dogether_contracts.Staking.Msg.{HolderResponse}
use dogether_contracts.Staking.State.{Holder, Storage}

-- The answers of at most `fuel` pages from a start.
unfoldable pub walk : Std → Storage → Option ℕ → ℕ → Option String → List HolderResponse
walk std storage limit zero start = []
walk std storage limit (suc fuel) start = elim (query_holders std storage start limit) [
  | Outcome.ok resp ↦ elim (last resp.holders) [
    | none ↦ []
    | some h ↦ resp.holders ++ walk std storage limit fuel (some h.address)
  ]
  | Outcome.err e ↦ []
  | Outcome.panic ↦ []
]

module _ (std : Std) (storage : Storage) (limit : Option ℕ) (fuel : ℕ) (start : Option String)
    (page : List HolderResponse)
    (answer : query_holders std storage start limit ≡ ok (record { holders = page })) where
  walk-none : last page ≡ none → walk std storage limit (suc fuel) start ≡ []
  unfolding walk
  walk-none e = ground (arith, answer, e)

  walk-some :
      (h : HolderResponse)
      → last page ≡ some h
      → walk std storage limit (suc fuel) start
        ≡ page ++ walk std storage limit fuel (some h.address)
  unfolding walk
  walk-some h e = ground (arith, answer, e)

module _ (std : Std) (width : ℕ) (storage : Storage) (unique : IsUnique storage.holders)
    (named : All (IsNamed std width) storage.holders) where
  -- What a query from a start reads: everything, or what is above a stored address.
  data Reads : Option String → Map CanonicalAddr Holder → Type 0 where
    whole : Reads none (ascending storage.holders)
    above_key :
        (start : Option (List ℕ)) (front : Map CanonicalAddr Holder) (k : CanonicalAddr)
        (v : Holder) (back : Map CanonicalAddr Holder) (name : Addr)
        → range start storage.holders ≡ front ++ (k, v) ∷ back
        → IsNamed std width (k, v)
        → std.addr_humanize k ≡ ok name
        → Reads (some name) back

  same_width :
      (m : Map CanonicalAddr Holder) (k : CanonicalAddr)
      → length k ≡ width
      → All (IsNamed std width) m
      → All (λ e. length k ≡ length e.0) m
  same_width [] k w h = tt
  same_width (e ∷ m) k w h = (w ∙ sym h.0.0, same_width m k w h.1)

  -- The answer is the page of what is read.
  query_holders-Reads :
      (start : Option String) (limit : Option ℕ) (m : Map CanonicalAddr Holder)
      {page : List HolderResponse}
      → Reads start m
      → responses std (take (page_size limit) m) ≡ ok page
      → query_holders std storage start limit ≡ ok (record { holders = page })
  unfolding query_holders read_holders validate_start calc_range_start
  query_holders-Reads start limit m whole a = rw (range-none storage.holders, a) refl
  query_holders-Reads start limit m
        (above_key s front k v back name h (w, human', found, valid, canonical) human) a =
      let same : human' ≡ name = ground arith in
      let zero_byte = range-zero k storage.holders (same_width storage.holders k w named) in
      let next = range_next s storage.holders front (k, v) back unique h in
      let checked : std.addr_validate name ≡ ok name = rw same at valid in
      let raw : std.addr_canonicalize name ≡ ok k = rw same at canonical in
      rw (checked, raw, zero_byte, next, a) refl

  Reads-range :
      {start : Option String} {m : Map CanonicalAddr Holder}
      → Reads start m
      → (s : Option (List ℕ)) × (range s storage.holders ≡ m)
  Reads-range whole = (none, range-none storage.holders)
  Reads-range (above_key s front k v back name h named_k human) =
      (some k, range_next s storage.holders front (k, v) back unique h)

  responses-empty : responses std [] ≡ ok []
  unfolding responses
  responses-empty = refl

  walk-Reads :
      (limit : Option ℕ) (fuel : ℕ) (start : Option String) (m : Map CanonicalAddr Holder)
      {rs : List HolderResponse}
      → 0 < page_size limit
      → Reads start m
      → All (IsNamed std width) m
      → length m < fuel
      → responses std m ≡ ok rs
      → walk std storage limit fuel start ≡ rs
  walk-Reads limit zero start m p reads named_m h a = absurd (omega arith)
  walk-Reads limit (suc fuel) start m {rs} p reads named_m h a =
      let n = page_size limit in
      let parts = take-append-drop n m in
      let (named_page, named_rest) =
        All-append (IsNamed std width) (take n m) (drop n m) (rw (sym parts) at named_m) in
      let (page, b) = responses_total std width (take n m) named_page in
      let (rest, c) = responses_total std width (drop n m) named_rest in
      let answer = query_holders-Reads start limit m reads b in
      let whole_is = responses-append std width (take n m) (drop n m) b c in
      elim (Option-cases (last page)) [
        | inl ends ↦
            let no_page = responses-none std width (take n m) (b ∙ ap ok (last-none page ends)) in
            let none_left = take-empty n m p no_page in
            walk-none std storage limit fuel start page answer ends
            ∙ ground (arith, a, none_left, responses-empty)
        | inr (r, e) ↦
            let (front, (k, v), page_is, human) = responses-last std width (take n m) b e in
            let (s, read) = Reads-range reads in
            let (_, named_k) =
              All-append (IsNamed std width) front ((k, v) ∷ []) (rw page_is at named_page) in
            let split : range s storage.holders ≡ front ++ (k, v) ∷ drop n m =
              read
              ∙ sym parts
              ∙ ap (λ q. q ++ drop n m) page_is
              ∙ append_assoc front ((k, v) ∷ []) (drop n m) in
            let shorter : length (drop n m) < fuel = omega (
              arith,
              ap length parts,
              length-append (take n m) (drop n m),
              ap length page_is,
              length-append front ((k, v) ∷ []),
            ) in
            let together : page ++ rest ≡ rs = ground (arith, whole_is, a, parts) in
            walk-some std storage limit fuel start page answer r e
            ∙ ap (◌++◌ page) (
                walk-Reads limit fuel (some r.address) (drop n m) p
                  (above_key s front k v (drop n m) r.address split named_k.0 human) named_rest
                  shorter c)
            ∙ together
      ]

  -- The pages together are the answers for the ordered holders.
  pub walk_lem :
      (limit : Option ℕ) (fuel : ℕ)
      → 0 < page_size limit
      → length storage.holders < fuel
      → responses std (ascending storage.holders) ≡ ok (walk std storage limit fuel none)
  walk_lem limit fuel p h =
      let all = All-ascending (IsNamed std width) storage.holders named in
      let (rs, a) = responses_total std width (ascending storage.holders) all in
      let read =
        walk-Reads limit fuel none (ascending storage.holders) p whole all
          (omega (arith, length-ascending storage.holders)) a in
      a ∙ ap ok (sym read)
