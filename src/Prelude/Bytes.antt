-- ===== src/Prelude/Bytes.antt =====
-- The order of stored keys: bytes, compared from the left, a shorter key before its extensions.
use Prim.Native.Nat.{ℕ}
use mathlib.Core.Path.{◌≡◌, refl}
use mathlib.Core.Logic.{◌≢◌}
use mathlib.Core.Bool.{Bool, true, false}
use mathlib.Core.List.{List, [], ◌∷◌, ◌++◌}
use native.Mathlib.Omega.{arith}
use dogether_contracts.Prelude.Lists.{length}
use dogether_contracts.Prelude.Tests.{ltb, ◌==◌, if◌then◌else◌}

unfoldable pub bytes_ltb : List ℕ → List ℕ → Bool
bytes_ltb [] [] = false
bytes_ltb [] (y ∷ ys) = true
bytes_ltb (x ∷ xs) [] = false
bytes_ltb (x ∷ xs) (y ∷ ys) =
    let rest = bytes_ltb xs ys in if ltb x y then true else if x == y then rest else false

pub bytes_ltb_irrefl : (xs : List ℕ) → bytes_ltb xs xs ≡ false
unfolding bytes_ltb
bytes_ltb_irrefl [] = refl
bytes_ltb_irrefl (x ∷ xs) = ground (arith, bytes_ltb_irrefl xs)

pub bytes_ltb_trans :
    (xs ys zs : List ℕ) → bytes_ltb xs ys ≡ true → bytes_ltb ys zs ≡ true → bytes_ltb xs zs ≡ true
unfolding bytes_ltb
bytes_ltb_trans [] [] zs h k = absurd (cc)
bytes_ltb_trans [] (y ∷ ys) [] h k = absurd (cc)
bytes_ltb_trans [] (y ∷ ys) (z ∷ zs) h k = refl
bytes_ltb_trans (x ∷ xs) [] zs h k = absurd (cc)
bytes_ltb_trans (x ∷ xs) (y ∷ ys) [] h k = absurd (cc)
bytes_ltb_trans (x ∷ xs) (y ∷ ys) (z ∷ zs) h k = ground (arith, bytes_ltb_trans xs ys zs)

-- Different keys are in order one way or the other.
pub bytes_ltb_total : (xs ys : List ℕ) → xs ≢ ys → bytes_ltb xs ys ≡ false → bytes_ltb ys xs ≡ true
unfolding bytes_ltb
bytes_ltb_total [] [] h k = absurd (h refl)
bytes_ltb_total [] (y ∷ ys) h k = absurd (cc)
bytes_ltb_total (x ∷ xs) [] h k = refl
bytes_ltb_total (x ∷ xs) (y ∷ ys) h k = ground (arith, h, bytes_ltb_total xs ys)

-- Among keys of one length a trailing zero byte does not move a bound.
pub bytes_ltb-zero :
    (xs ys : List ℕ) → length xs ≡ length ys → bytes_ltb (xs ++ 0 ∷ []) ys ≡ bytes_ltb xs ys
unfolding bytes_ltb
bytes_ltb-zero [] [] h = refl
bytes_ltb-zero [] (y ∷ ys) h = absurd (omega (arith, h))
bytes_ltb-zero (x ∷ xs) [] h = absurd (omega (arith, h))
bytes_ltb-zero (x ∷ xs) (y ∷ ys) h = ground (arith, h, bytes_ltb-zero xs ys)
