-- ===== src/Token/Examples.antt =====
-- The token on a concrete chain: the dogether contract instantiates it, bonds 30 tokens for the
-- staking contract, and alice burns 40 of hers.
mod Listing
use dogether_contracts.Prelude.{
  ◌+◌, ◌-◌, ◌≤◌, ◌≡◌, refl, String, some, none, List, [], ◌∷◌, ok, err, ltb, ◌==◌, string_eq,
  if◌then◌else◌, as_bytes,
}
use dogether_contracts.Platform.Types.{
  MessageInfo, Response, Uint128, Addr, overflow, attribute, default_response, message,
  wasm_execute,
}
use dogether_contracts.Platform.Sample.{sample_std, sample-IsDocumented}
use dogether_contracts.Platform.Storage.{Map, may_load, save}
use dogether_contracts.Token.Contract.{
  Handled, or_zero, create_accounts, instantiate, execute, execute_bond, execute_burn,
}
use dogether_contracts.Token.Msg.{
  Payload, Cw20Coin, InstantiateMsg, ExecuteMsg, burn, bond, validate, is_valid_name,
  is_valid_symbol, symbol_loop, std_error, invalid_zero_amount, receive,
}
use dogether_contracts.Token.State.{TokenInfo, Storage, get_cap}
use dogether_contracts.Token.Supply.Exact.{circulating, issued, AreDistinct}
use dogether_contracts.Token.Supply.Branches.{execute_bond_lem}
use dogether_contracts.Prelude.{not, panic}
use dogether_contracts.Platform.Types.{u128_bound}
use dogether_contracts.Token.Msg.{unauthorized}
use dogether_contracts.Token.Supply.Reach.{
  fresh, Reaches, instantiated, executed, Reaches-covered, Reaches-exact, Reaches-minter, mint_of,
  execute_burn_lem,
}

pub program : Unit {0}
unfolding instantiate validate is_valid_name is_valid_symbol symbol_loop create_accounts execute
    execute_bond execute_burn get_cap may_load save as_bytes
program = tt

abbrev pub rows : List Cw20Coin
rows = record { address = "alice"; amount = 100 } ∷ record { address = "bob"; amount = 50 } ∷ []

abbrev pub init_msg : InstantiateMsg
init_msg = record { name = "Dogether"; symbol = "DOG"; decimals = 6; initial_balances = rows }

abbrev pub by : String → MessageInfo
by sender = record { sender = sender; funds = [] }

abbrev pub token_of : Uint128 → TokenInfo
token_of supply = record {
  name = "Dogether";
  symbol = "DOG";
  decimals = 6;
  total_supply = supply;
  mint = some (record { minter = "pool"; cap = none });
}

abbrev pub after_init : Storage
after_init = record {
  contract_info = some ("crates.io:cw20-base", "0.9.1");
  token_info = some (token_of 150);
  balances = ("alice", 100) ∷ ("bob", 50) ∷ [];
}

abbrev pub stored : Handled → Storage
stored (ok (storage, r)) = storage
stored _ = fresh

abbrev sent : Handled → Response Payload
sent (ok (storage, r)) = r
sent _ = default_response

unfoldable pub call : Storage → String → ExecuteMsg → Handled
unfolding execute
call storage sender msg = execute sample_std storage (by sender) msg

abbrev pub bonding : ExecuteMsg
bonding = bond "staking" 30 "bond" "carol"

abbrev pub bonded : Storage
bonded = stored (call after_init "pool" bonding)

abbrev pub burned : Storage
burned = stored (call bonded "alice" (burn 40))

reached_bonded : Reaches sample_std "pool" rows bonded
unfolding program call
reached_bonded =
    executed (by "pool") bonding
      (instantiated {storage = after_init} {r = default_response} (by "pool") init_msg refl refl
        refl)
      refl

pub reached : Reaches sample_std "pool" rows burned
unfolding program call
reached = executed (by "alice") (burn 40) reached_bonded refl

distinct : AreDistinct rows
distinct = (((λ e. absurd (cc)), tt), (tt, tt))

Reaches-covered_example : circulating burned.balances ≤ issued burned.token_info
Reaches-covered_example = Reaches-covered sample_std sample-IsDocumented "pool" rows reached

Reaches-exact_example : circulating burned.balances ≡ issued burned.token_info
Reaches-exact_example = Reaches-exact sample_std sample-IsDocumented "pool" rows distinct reached

Reaches-minter_example : mint_of burned ≡ some (record { minter = "pool"; cap = none })
Reaches-minter_example = Reaches-minter sample_std sample-IsDocumented "pool" rows reached

abbrev burn_result : Handled
burn_result =
    if 40 == 0
    then err invalid_zero_amount
    else if ltb (or_zero (may_load "alice" bonded.balances)) 40
    then err (std_error overflow)
    else ok (
      record bonded {
        token_info = some (record (token_of 180) { total_supply = 180 - 40 });
        balances = save "alice" (or_zero (may_load "alice" bonded.balances) - 40) bonded.balances;
      },
      record {
        messages = [];
        attributes =
            attribute "action" "burn"
            ∷ attribute "from" "alice"
            ∷ attribute "amount" (sample_std.to_string 40)
            ∷ [];
      },
    )

execute_burn_lem_example : execute_burn sample_std bonded (by "alice") 40 ≡ burn_result
unfolding program call
execute_burn_lem_example =
    execute_burn_lem sample_std sample-IsDocumented "pool" rows bonded (token_of 180) (by "alice")
      40 reached_bonded refl

abbrev twice : Map Addr Uint128
twice = ("alice", 20) ∷ []

reached_init : Reaches sample_std "pool" rows after_init
unfolding program
reached_init =
    instantiated {storage = after_init} {r = default_response} (by "pool") init_msg refl refl refl

abbrev bond_result : Handled
bond_result =
    if 30 == 0
    then err invalid_zero_amount
    else if not (string_eq.beq "pool" "pool")
    then err unauthorized
    else if ltb (150 + 30) u128_bound
    then ok (
      record after_init {
        token_info = some (record (token_of 150) { total_supply = 150 + 30 });
        balances =
            save "staking" (or_zero (may_load "staking" after_init.balances) + 30)
              after_init.balances;
      },
      record {
        messages =
            message (
              wasm_execute "staking"
                (receive (record { sender = "carol"; amount = 30; msg = "bond" })) [])
            ∷ [];
        attributes =
            attribute "action" "bond"
            ∷ attribute "from" "pool"
            ∷ attribute "to" "staking"
            ∷ attribute "amount" (sample_std.to_string 30)
            ∷ [];
      },
    )
    else panic

execute_bond_lem_example :
    execute_bond sample_std after_init (by "pool") "staking" 30 "bond" "carol" ≡ bond_result
execute_bond_lem_example =
    execute_bond_lem sample_std sample-IsDocumented "pool" rows after_init (token_of 150)
      reached_init refl (by "pool") 30 "staking" "bond" "carol" refl
