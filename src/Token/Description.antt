-- ===== src/Token/Description.antt =====
-- The descriptions of a token that `validate` of src/msg.rs of the token contract accepts.
use dogether_contracts.Prelude.{
  ℕ, ◌≤◌, ◌≡◌, ◌↔◌, ◌⊎◌, refl, true, List, [], ◌∷◌, ok, arith, All, length, as_bytes,
}
use dogether_contracts.Token.Msg.{
  InstantiateMsg, is_valid_name, is_valid_symbol, symbol_loop, validate,
}

-- A dash, an upper case letter or a lower case letter of ASCII.
abbrev pub IsSymbolByte : ℕ → Type 0
IsSymbolByte b = (b ≡ 45) ⊎ ((65 ≤ b) × (b ≤ 90)) ⊎ ((97 ≤ b) × (b ≤ 122))

-- What the error texts of `validate` ask for.
pub record IsDescribed (msg : InstantiateMsg) : Type 0 where
  pub name_from : 3 ≤ length (as_bytes msg.name)
  pub name_to : length (as_bytes msg.name) ≤ 50
  pub symbol_from : 3 ≤ length (as_bytes msg.symbol)
  pub symbol_to : length (as_bytes msg.symbol) ≤ 12
  pub symbol_bytes : All IsSymbolByte (as_bytes msg.symbol)
  pub decimals_to : msg.decimals ≤ 18

symbol_loop_sound : (bytes : List ℕ) → symbol_loop bytes ≡ true → All IsSymbolByte bytes
unfolding symbol_loop
symbol_loop_sound [] e = tt
symbol_loop_sound (b ∷ bytes) e = (ground arith, symbol_loop_sound bytes (ground arith))

symbol_loop_complete : (bytes : List ℕ) → All IsSymbolByte bytes → symbol_loop bytes ≡ true
unfolding symbol_loop
symbol_loop_complete [] h = refl
symbol_loop_complete (b ∷ bytes) h =
    let p : IsSymbolByte b = h.0 in ground (arith, p, symbol_loop_complete bytes h.1)

validate_sound : (msg : InstantiateMsg) → validate msg ≡ ok tt → IsDescribed msg
unfolding validate is_valid_name is_valid_symbol
validate_sound msg e = record {
  name_from = ground arith;
  name_to = ground arith;
  symbol_from = ground arith;
  symbol_to = ground arith;
  symbol_bytes = symbol_loop_sound (as_bytes msg.symbol) (ground arith);
  decimals_to = ground arith;
}

validate_complete : (msg : InstantiateMsg) → IsDescribed msg → validate msg ≡ ok tt
unfolding validate is_valid_name is_valid_symbol
validate_complete msg d = ground (
  arith,
  d.name_from,
  d.name_to,
  d.symbol_from,
  d.symbol_to,
  d.decimals_to,
  symbol_loop_complete (as_bytes msg.symbol) d.symbol_bytes,
)

-- The description of the token is accepted if and only if the name has 3 to 50 bytes, the symbol
-- has 3 to 12 bytes, each a dash or a letter of ASCII, and there are at most 18 decimals.
pub validate-IsDescribed : (msg : InstantiateMsg) → (validate msg ≡ ok tt) ↔ IsDescribed msg
validate-IsDescribed msg = (validate_sound msg, validate_complete msg)
