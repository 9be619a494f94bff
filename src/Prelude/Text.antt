-- ===== src/Prelude/Text.antt =====
-- The UTF-8 bytes of a text.
use Prim.Native.Char.{Char, char, code, IsLt}
use mathlib.Core.Logic.{◌≢◌, inl, inr}
use text.Mathlib.TextEquality.{Char-path}
use Prim.Native.Nat.{ℕ, compare, Ordering, ◌+◌, ◌/◌, ◌%◌, ◌<◌}
use Prim.Native.String.{String}
use mathlib.Core.List.{List, [], ◌∷◌, ◌++◌}
use mathlib.Core.Path.{◌≡◌, refl, sym}
use native.Mathlib.Omega.{arith}
use dogether_contracts.Prelude.Tests.{ltb, Bool-cases, if◌then◌else◌}

abbrev tail_byte : ℕ → ℕ
tail_byte c = 128 + c % 64

abbrev pub utf8_char : ℕ → List ℕ
utf8_char c =
    if ltb c 0x80
    then c ∷ []
    else if ltb c 0x800
    then (192 + c / 64) ∷ tail_byte c ∷ []
    else if ltb c 0x10000
    then (224 + c / 4096) ∷ tail_byte (c / 64) ∷ tail_byte c ∷ []
    else (240 + c / 262144) ∷ tail_byte (c / 4096) ∷ tail_byte (c / 64) ∷ tail_byte c ∷ []

-- `as_bytes`
unfoldable pub as_bytes : String → List ℕ
as_bytes String.[] = []
as_bytes (String.◌∷◌ c s) = utf8_char (code c) ++ as_bytes s

-- Different characters begin differently.
utf8_char-injective :
    (c d : ℕ) (xs ys : List ℕ)
    → c < 0x110000
    → d < 0x110000
    → utf8_char c ++ xs ≡ utf8_char d ++ ys
    → (c ≡ d) × (xs ≡ ys)
utf8_char-injective c d xs ys p q h = ground arith

is_lt : (o : Ordering) → IsLt o → o ≡ Ordering.lt
is_lt Ordering.lt h = refl
is_lt Ordering.eq h = elim h [ ]
is_lt Ordering.gt h = elim h [ ]

code-lt : (c : Char) → code c < 0x110000
code-lt (char n p) = elim (Bool-cases (ltb n 0x110000)) [
  | inl below ↦ ground arith
  | inr above ↦
      let past : compare n 55296 ≡ Ordering.gt = ground arith in
      let high : compare 57343 n ≡ Ordering.lt = ground arith in
      let least : compare n 1114112 ≡ Ordering.lt =
        is_lt (compare n 1114112) (rw (past, high) at p) in
      ground arith
]

utf8_char-nonempty : (c : ℕ) (xs : List ℕ) → utf8_char c ++ xs ≢ []
utf8_char-nonempty c xs h = ground arith

-- Different texts have different bytes.
pub as_bytes-injective : (s t : String) → as_bytes s ≡ as_bytes t → s ≡ t
unfolding as_bytes
as_bytes-injective String.[] String.[] h = refl
as_bytes-injective String.[] (String.◌∷◌ d t) h =
    absurd (utf8_char-nonempty (code d) (as_bytes t) (sym h))
as_bytes-injective (String.◌∷◌ c s) String.[] h =
    absurd (utf8_char-nonempty (code c) (as_bytes s) h)
as_bytes-injective (String.◌∷◌ c s) (String.◌∷◌ d t) h =
    let (same, rest) =
      utf8_char-injective (code c) (code d) (as_bytes s) (as_bytes t) (code-lt c) (code-lt d) h in
    λ i. String.◌∷◌ (Char-path c d same i) (as_bytes-injective s t rest i)
