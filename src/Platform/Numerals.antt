-- ===== src/Platform/Numerals.antt =====
-- Numbers in text: a decimal form of a number, which `parse_u128` reads back.
use Prim.Native.Char.{Char, code}
use Prim.Native.String.{String}
use native.Mathlib.Nat.{pow-succ'}
use dogether_contracts.Prelude.{
  ◌∙◌, ℕ, ◌+◌, ◌-◌, ◌*◌, ◌/◌, ◌%◌, ◌^◌, ◌<◌, ◌≤◌, ◌≡◌, refl, zero, suc, some, List, ◌∷◌, arith, ltb,
  if◌then◌else◌, as_bytes, parse_u128, parse_bytes, parse_unsigned, parse_digits, Bool-cases, inl,
  inr,
}
use dogether_contracts.Platform.Types.{u128_bound}

abbrev digit : ℕ → Char
digit zero = "0"
digit (suc zero) = "1"
digit (suc (suc zero)) = "2"
digit (suc (suc (suc zero))) = "3"
digit (suc (suc (suc (suc zero)))) = "4"
digit (suc (suc (suc (suc (suc zero))))) = "5"
digit (suc (suc (suc (suc (suc (suc zero)))))) = "6"
digit (suc (suc (suc (suc (suc (suc (suc zero))))))) = "7"
digit (suc (suc (suc (suc (suc (suc (suc (suc zero)))))))) = "8"
digit (suc (suc (suc (suc (suc (suc (suc (suc (suc n))))))))) = "9"

code-digit : (n : ℕ) → n < 10 → code (digit n) ≡ 48 + n
code-digit zero h = refl
code-digit (suc zero) h = refl
code-digit (suc (suc zero)) h = refl
code-digit (suc (suc (suc zero))) h = refl
code-digit (suc (suc (suc (suc zero)))) h = refl
code-digit (suc (suc (suc (suc (suc zero))))) h = refl
code-digit (suc (suc (suc (suc (suc (suc zero)))))) h = refl
code-digit (suc (suc (suc (suc (suc (suc (suc zero))))))) h = refl
code-digit (suc (suc (suc (suc (suc (suc (suc (suc zero)))))))) h = refl
code-digit (suc (suc (suc (suc (suc (suc (suc (suc (suc n))))))))) h = omega arith

-- The digits of `n` before a text; 39 digits are enough for a `u128`.
unfoldable pub print_digits : ℕ → ℕ → String → String
print_digits zero n rest = rest
print_digits (suc fuel) n rest =
    let shorter = print_digits fuel (n / 10) (String.◌∷◌ (digit (n % 10)) rest) in
    if ltb n 10 then String.◌∷◌ (digit n) rest else shorter

unfoldable pub print : ℕ → String
print n = print_digits 39 n ""

as_bytes-digit :
    (n : ℕ) (rest : String)
    → n < 10
    → as_bytes (String.◌∷◌ (digit n) rest) ≡ (48 + n) ∷ as_bytes rest
unfolding as_bytes
as_bytes-digit n rest h = ground (arith, code-digit n h)

parse_digits-step :
    (acc d : ℕ) (bytes : List ℕ)
    → d < 10
    → acc * 10 + d < u128_bound
    → parse_digits acc ((48 + d) ∷ bytes) ≡ parse_digits (acc * 10 + d) bytes
unfolding parse_digits
parse_digits-step acc d bytes h small =
    let value : acc * 10 + (48 + d - 48) ≡ acc * 10 + d = omega arith in ground (arith, value)

parse_digits-print :
    (fuel n : ℕ) (rest : String)
    → n < 10 ^ fuel
    → n < u128_bound
    → parse_digits 0 (as_bytes (print_digits fuel n rest)) ≡ parse_digits n (as_bytes rest)
unfolding print_digits
parse_digits-print zero n rest h small = let nothing : n ≡ 0 = omega arith in rw nothing refl
parse_digits-print (suc fuel) n rest h small = elim (Bool-cases (ltb n 10)) [
  | inl one ↦
      let first : 0 * 10 + n ≡ n = omega arith in
      let step = parse_digits-step 0 n (as_bytes rest) (ground arith) (omega arith) in
      rw (one, as_bytes-digit n rest (ground arith)) (rw first at step)
  | inr more ↦
      let longer : String = String.◌∷◌ (digit (n % 10)) rest in
      let split : n / 10 * 10 + n % 10 ≡ n = omega arith in
      let least : ℕ = 10 ^ fuel in
      let power : 10 ^ suc fuel ≡ 10 * least = pow-succ' 10 fuel in
      let shorter = parse_digits-print fuel (n / 10) longer (omega (arith, power)) (omega arith) in
      rw (more, shorter, as_bytes-digit (n % 10) rest (omega arith))
        (rw
          (
            parse_digits-step (n / 10) (n % 10) (as_bytes rest) (omega arith)
                (omega (arith, split)),
            split,
          )
          refl)
]

parse_digits-end : (n : ℕ) → parse_digits n (as_bytes "") ≡ some n
unfolding parse_digits as_bytes
parse_digits-end n = refl

-- A text whose first byte is no sign.
abbrev IsUnsigned : String → Type 0
IsUnsigned s = (b : ℕ) × (bytes : List ℕ) × (as_bytes s ≡ b ∷ bytes) × (48 ≤ b)

digit-IsUnsigned : (n : ℕ) (rest : String) → n < 10 → IsUnsigned (String.◌∷◌ (digit n) rest)
digit-IsUnsigned n rest h = (48 + n, as_bytes rest, as_bytes-digit n rest h, omega arith)

print_digits-IsUnsigned :
    (fuel n : ℕ) (rest : String) → IsUnsigned rest → IsUnsigned (print_digits fuel n rest)
unfolding print_digits
print_digits-IsUnsigned zero n rest u = u
print_digits-IsUnsigned (suc fuel) n rest u = elim (Bool-cases (ltb n 10)) [
  | inl one ↦ rw one (digit-IsUnsigned n rest (ground arith))
  | inr more ↦
      rw more
        (print_digits-IsUnsigned fuel (n / 10) _ (digit-IsUnsigned (n % 10) rest (omega arith)))
]

print-IsUnsigned : (n : ℕ) → IsUnsigned (print n)
unfolding print print_digits
print-IsUnsigned n = elim (Bool-cases (ltb n 10)) [
  | inl one ↦ rw one (digit-IsUnsigned n "" (ground arith))
  | inr more ↦
      rw more (print_digits-IsUnsigned 38 (n / 10) _ (digit-IsUnsigned (n % 10) "" (omega arith)))
]

parse_bytes-unsigned :
    (b : ℕ) (bytes : List ℕ) → 48 ≤ b → parse_bytes (b ∷ bytes) ≡ parse_digits 0 (b ∷ bytes)
unfolding parse_bytes parse_unsigned
parse_bytes-unsigned b bytes h = ground arith

parse_u128-unsigned :
    (s : String) {n : ℕ}
    → IsUnsigned s
    → parse_digits 0 (as_bytes s) ≡ some n
    → parse_u128 s ≡ some n
unfolding parse_u128
parse_u128-unsigned s (b, bytes, lead, no_sign) digits =
    rw (lead, parse_bytes-unsigned b bytes no_sign) (rw lead at digits)

print-digits : (n : ℕ) → n < u128_bound → parse_digits 0 (as_bytes (print n)) ≡ some n
unfolding print
print-digits n h = parse_digits-print 39 n "" (omega arith) h ∙ parse_digits-end n

-- Every `u128` is read back from its decimal form.
pub parse_u128-print : (n : ℕ) → n < u128_bound → parse_u128 (print n) ≡ some n
parse_u128-print n h = parse_u128-unsigned (print n) (print-IsUnsigned n) (print-digits n h)
