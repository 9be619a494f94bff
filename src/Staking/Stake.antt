-- ===== src/Staking/Stake.antt =====
-- Bonding, unbonding and withdrawing the stake: src/user.rs.
pub mod Effects
use Prim.Native.String.{◌++◌ as str_append}
use dogether_contracts.Prelude.{
  String, Option, some, [], ◌∷◌, ◌==◌, ltb, not, list_eq, nat_eq, string_eq, length, ◌>>=◌, ◌>>◌,
  ok, fail_if, unwrap_option,
}
use dogether_contracts.Platform.Types.{
  generic_err, Env, MessageInfo, attribute, Uint128, Cw20ReceiveMsg, wasm_execute, message,
  at_height,
}
use dogether_contracts.Platform.Std.{Std, load, add_u64}
use dogether_contracts.Staking.Claim.{create_claim, claim_tokens}
use dogether_contracts.Staking.Msg.{burn, Codec, bond_stake}
use dogether_contracts.Staking.Rewards.{all_rewards}
use dogether_contracts.Staking.State.{Holder, Storage, Handled, read_holder, store_holder}

module _ (std : Std) where
  unfoldable pub handle_bond : Storage → MessageInfo → String → Uint128 → Handled
  handle_bond storage info holder_addr amount = do
    fail_if (not (length info.funds == 0)) (generic_err "Do not send funds with stake")
    fail_if (amount == 0) (generic_err "Amount required")
    address_raw ← std.addr_canonicalize holder_addr
    state ← load storage.state
    let holder = read_holder storage address_raw
    pending_rewards ← all_rewards std state holder
    balance ← unwrap_option (std.add holder.balance amount)
    total_balance ← unwrap_option (std.add state.total_balance amount)
    let holder' : Holder = record {
      balance = balance;
      index = state.global_index;
      pending_rewards = pending_rewards;
    }
    ok (
      record (store_holder storage address_raw holder') {
        state = some (record state { total_balance = total_balance });
      },
      record {
        messages = [];
        attributes =
            attribute "action" "bond_stake"
            ∷ attribute "holder_address" holder_addr
            ∷ attribute "amount" (std.to_string amount)
            ∷ [];
      },
    )

  unfoldable pub handle_receive : Codec → Storage → MessageInfo → Cw20ReceiveMsg → Handled
  unfolding handle_bond
  handle_receive codec storage info wrapper = do
    config ← load storage.config
    cw20_token_addr ← std.addr_humanize config.cw20_token_addr
    fail_if (not (string_eq.beq info.sender cw20_token_addr))
        (generic_err "only loterra contract can send receive messages")
    msg ← codec.from_binary wrapper.msg
    elim msg [ bond_stake ↦ handle_bond storage info wrapper.sender wrapper.amount ]

  unfoldable pub handle_unbound : Storage → Env → MessageInfo → Uint128 → String → Handled
  handle_unbound storage env info amount address = do
    config ← load storage.config
    sender ← std.addr_canonicalize info.sender
    fail_if (not (list_eq.beq config.admin sender)) (generic_err "Not authorized")
    address_raw ← std.addr_canonicalize address
    fail_if (not (length info.funds == 0)) (generic_err "Do not send funds with stake")
    fail_if (amount == 0) (generic_err "Amount required")
    state ← load storage.state
    let holder = read_holder storage address_raw
    fail_if (ltb holder.balance amount) (
        generic_err (
          str_append "Decrease amount cannot exceed user balance: " (std.to_string holder.balance)))
    pending_rewards ← all_rewards std state holder
    balance ← std.checked_sub holder.balance amount
    total_balance ← std.checked_sub state.total_balance amount
    release_height ← add_u64 env.block.height config.unbonding_period
    let holder' : Holder = record {
      balance = balance;
      index = state.global_index;
      pending_rewards = pending_rewards;
    }
    let stored : Storage = record (store_holder storage address_raw holder') {
      state = some (record state { total_balance = total_balance });
    }
    ok (
      create_claim stored address_raw amount (at_height release_height),
      record {
        messages = [];
        attributes =
            attribute "action" "unbond_stake"
            ∷ attribute "holder_address" info.sender
            ∷ attribute "amount" (std.to_string amount)
            ∷ [];
      },
    )

  unfoldable pub handle_withdraw_stake :
      Storage → Env → MessageInfo → Option Uint128 → String → Handled
  handle_withdraw_stake storage env info cap address = do
    config ← load storage.config
    sender ← std.addr_canonicalize info.sender
    fail_if (not (list_eq.beq config.admin sender)) (generic_err "Not authorized")
    address_raw ← std.addr_canonicalize address
    (stored, amount) ← claim_tokens std env.block cap storage address_raw
    fail_if (amount == 0) (generic_err "Wait for the unbonding period")
    cw20_human_addr ← std.addr_humanize config.cw20_token_addr
    ok (
      stored,
      record {
        messages = message (wasm_execute cw20_human_addr (burn amount) []) ∷ [];
        attributes =
            attribute "action" "withdraw_stake"
            ∷ attribute "recipient" address
            ∷ attribute "withdraw" (std.to_string amount)
            ∷ [];
      },
    )
