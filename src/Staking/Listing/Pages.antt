-- ===== src/Staking/Listing/Pages.antt =====
-- What a page of the holders shows, where the stored keys are canonical addresses of one length.
use dogether_contracts.Prelude.{
  ℕ, ◌≡◌, refl, ap, ◌∙◌, some, List, [], ◌∷◌, ◌++◌, ok, arith, All, length, bytes_ltb-zero,
  Outcome-cases, Option-cases, inl, inr, last, last-none,
}
use dogether_contracts.Platform.Range.{All-ascending, ascending, above, range, bytes_key}
use dogether_contracts.Platform.Std.{Std}
use dogether_contracts.Platform.Storage.{Map}
use dogether_contracts.Platform.Types.{Addr, CanonicalAddr}
use dogether_contracts.Staking.Listing.{responses}
use dogether_contracts.Staking.Msg.{HolderResponse}
use dogether_contracts.Staking.State.{Holder}

module _ (std : Std) (width : ℕ) where
  -- A stored key has the width of the chain's canonical addresses, and a human form that is valid
  -- and leads back to it.
  abbrev pub IsNamed : CanonicalAddr × Holder → Type 0
  IsNamed e =
      (length e.0 ≡ width)
      × (name : Addr) × (std.addr_humanize e.0 ≡ ok name)
      × (std.addr_validate name ≡ ok name)
      × (std.addr_canonicalize name ≡ ok e.0)

  -- Named entries are answered.
  pub responses_total :
      (m : Map CanonicalAddr Holder)
      → All IsNamed m
      → (rs : List HolderResponse) × (responses std m ≡ ok rs)
  unfolding responses
  responses_total [] h = ([], refl)
  responses_total ((k, v) ∷ m) h =
      let (_, name, human, _, _) = h.0 in
      let (rs, rest) = responses_total m h.1 in
      elim (Outcome-cases (responses std ((k, v) ∷ m))) [
        | inl (all, e) ↦ (all, e)
        | inr fails ↦ absurd (ground (arith, human, rest))
      ]

  pub responses-append :
      (xs ys : Map CanonicalAddr Holder) {before after : List HolderResponse}
      → responses std xs ≡ ok before
      → responses std ys ≡ ok after
      → responses std (xs ++ ys) ≡ ok (before ++ after)
  unfolding responses
  responses-append [] ys a b = ground arith
  responses-append ((k, v) ∷ xs) ys a b = elim (Outcome-cases (std.addr_humanize k)) [
    | inr fails ↦ absurd (ground arith)
    | inl (name, c) ↦ elim (Outcome-cases (responses std xs)) [
      | inr fails ↦ absurd (ground arith)
      | inl (rest, d) ↦ ground (arith, responses-append xs ys d b)
    ]
  ]

  pub responses-none : (m : Map CanonicalAddr Holder) → responses std m ≡ ok [] → m ≡ []
  unfolding responses
  responses-none [] a = refl
  responses-none ((k, v) ∷ m) a = elim (Outcome-cases (std.addr_humanize k)) [
    | inr fails ↦ absurd (ground arith)
    | inl (name, c) ↦ elim (Outcome-cases (responses std m)) [
      | inr fails ↦ absurd (ground arith)
      | inl (rest, d) ↦ absurd (ground arith)
    ]
  ]

  -- The last answer is about the last entry.
  pub responses-last :
      (m : Map CanonicalAddr Holder) {rs : List HolderResponse} {h : HolderResponse}
      → responses std m ≡ ok rs
      → last rs ≡ some h
      → (front : Map CanonicalAddr Holder) × (e : CanonicalAddr × Holder) × (m ≡ front ++ e ∷ [])
        × (std.addr_humanize e.0 ≡ ok h.address)
  unfolding responses last
  responses-last [] a l = absurd (ground arith)
  responses-last ((k, v) ∷ m) {rs} {h} a l = elim (Outcome-cases (std.addr_humanize k)) [
    | inr fails ↦ absurd (ground arith)
    | inl (name, c) ↦ elim (Outcome-cases (responses std m)) [
      | inr fails ↦ absurd (ground arith)
      | inl (rest, d) ↦ elim (Option-cases (last rest)) [
        | inl ends ↦
            let none_left : m ≡ [] = responses-none m (d ∙ ap ok (last-none rest ends)) in
            ([], (k, v), ap (◌∷◌ (k, v)) none_left, ground arith)
        | inr (h', e) ↦
            let same : h' ≡ h = ground arith in
            let (front, f, whole, human) = responses-last m d e in
            ((k, v) ∷ front, f, ap (◌∷◌ (k, v)) whole, ground (arith, human, same))
      ]
    ]
  ]

-- The zero byte that is put behind the start does not move it among keys of its width.
pub range-zero :
    (raw : CanonicalAddr) (m : Map CanonicalAddr Holder)
    → All (λ e. length raw ≡ length e.0) m
    → range (some (raw ++ 0 ∷ [])) m ≡ range (some raw) m
unfolding range
range-zero raw m h = go (ascending m) (All-ascending (λ e. length raw ≡ length e.0) m h)
  where
    go :
        (m : Map CanonicalAddr Holder)
        → All (λ e. length raw ≡ length e.0) m
        → above (raw ++ 0 ∷ []) m ≡ above raw m
    go [] h = refl
    go (e ∷ m) h = ground (arith, bytes_ltb-zero raw e.0 h.0, go m h.1)
