-- ===== src/Hub/Contract.antt =====
-- contracts/prism_hub/src/contract.rs, `execute`: the dispatch of a message, behind the pause
-- switch, and the entry of bond tokens (`receive_cw20`).
pub mod Dispatch
pub mod Access
pub mod Settings
pub mod Coin
pub mod Registered
mod Tests
use prism_auto_compounding_c.Prelude.{String, true, false, List, [], str_eq}
use prism_auto_compounding_c.Outcome.{
  Outcome, ok, ensure, expect, unauthorized, token_not_registered, ◌>>=◌, ◌>>◌,
}
use prism_auto_compounding_c.Platform.{Platform}
use prism_auto_compounding_c.Chain.{Env, MessageInfo, Querier, CosmosMsg}
use prism_auto_compounding_c.Protocol.Hub.{
  ExecuteMsg, Cw20ReceiveMsg, Cw20HookMsg, unbond, pause, unpause, update_config, update_admin,
  update_exchange_rate, register_validator, deregister_validator, update_params, bond,
  update_global_index, withdraw_unbonded, check_slashing, receive,
}
use prism_auto_compounding_c.Hub.Store.{Store}
use prism_auto_compounding_c.Hub.Slashing.{slashing}
use prism_auto_compounding_c.Hub.Bond.{execute_bond}
use prism_auto_compounding_c.Hub.Unbond.{execute_unbond}
use prism_auto_compounding_c.Hub.Withdraw.{execute_withdraw_unbonded}
use prism_auto_compounding_c.Hub.Compound.{execute_update_global, execute_update_exchange_rate}
use prism_auto_compounding_c.Hub.Validators.{
  execute_register_validator, execute_deregister_validator,
}
use prism_auto_compounding_c.Hub.Admin.{
  is_contract_paused, execute_pause, execute_update_params, execute_update_config,
  execute_update_admin,
}

module _ ⦃p : Platform⦄ where
  open p use {addr_canonicalize}

  -- Only the registered token contract may hand over tokens to unbond.
  unfoldable pub receive_unbond :
      Querier
      → Env
      → MessageInfo
      → Cw20ReceiveMsg
      → Store
      → Cw20HookMsg
      → Outcome (List CosmosMsg × Store)
  receive_unbond q env info msg s unbond = do
    sender_raw ← addr_canonicalize info.sender
    token ← expect s.config.token_contract token_not_registered
    ensure (str_eq sender_raw token) unauthorized
    execute_unbond q env msg.amount msg.sender s

  unfoldable pub receive_cw20 :
      Querier → Env → MessageInfo → Cw20ReceiveMsg → Store → Outcome (List CosmosMsg × Store)
  receive_cw20 q env info msg s = q.decode_hook msg.msg >>= receive_unbond q env info msg s

  unfoldable pub execute_slashing : Querier → Env → Store → Outcome (List CosmosMsg × Store)
  execute_slashing q env s = do s1 ← slashing q env s; ok ([], s1)

  -- The owner can pause and unpause at any time; all else waits for the switch.
  unfoldable pub execute :
      Querier → Env → MessageInfo → Store → ExecuteMsg → Outcome (List CosmosMsg × Store)
  execute q env info s pause = execute_pause info.sender true s
  execute q env info s unpause = execute_pause info.sender false s
  execute q env info s (receive msg) = do is_contract_paused s; receive_cw20 q env info msg s
  execute q env info s (bond validator) = do
    is_contract_paused s
    execute_bond q env info validator s
  execute q env info s update_global_index = do is_contract_paused s; execute_update_global q env s
  execute q env info s update_exchange_rate = do
    is_contract_paused s
    execute_update_exchange_rate q env info s
  execute q env info s withdraw_unbonded = do
    is_contract_paused s
    execute_withdraw_unbonded q env info s
  execute q env info s (register_validator validator) = do
    is_contract_paused s
    execute_register_validator q env info validator s
  execute q env info s (deregister_validator validator) = do
    is_contract_paused s
    execute_deregister_validator q env info validator s
  execute q env info s check_slashing = do is_contract_paused s; execute_slashing q env s
  execute q env info s (update_params epoch unbonding recovery threshold fee) = do
    is_contract_paused s
    execute_update_params info.sender epoch unbonding recovery threshold fee s
  execute q env info s (update_config token collector) = do
    is_contract_paused s
    execute_update_config info.sender token collector s
  execute q env info s (update_admin admin) = do
    is_contract_paused s
    execute_update_admin info.sender admin s
