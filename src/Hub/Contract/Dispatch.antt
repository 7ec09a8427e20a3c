-- ===== src/Hub/Contract/Dispatch.antt =====
-- Which handler has run when a message succeeds (contracts/prism_hub/src/contract.rs, `execute`).
use prism_auto_compounding_c.Prelude.{ℕ, String, ◌≡◌, true, false, Option, List, [], arith}
use prism_auto_compounding_c.Outcome.{Outcome, ok, >>=-eq-ok, ◌>>=◌}
use prism_auto_compounding_c.Platform.{Platform}
use prism_auto_compounding_c.Chain.{Env, MessageInfo, Querier, CosmosMsg}
use prism_auto_compounding_c.Protocol.Hub.{
  ExecuteMsg, Cw20ReceiveMsg, Cw20HookMsg, unbond, pause, unpause, update_config, update_admin,
  update_exchange_rate, register_validator, deregister_validator, update_params, bond,
  update_global_index, withdraw_unbonded, check_slashing, receive,
}
use prism_auto_compounding_c.Hub.Store.{Store}
use prism_auto_compounding_c.Hub.Slashing.{slashing}
use prism_auto_compounding_c.Hub.Bond.{execute_bond}
use prism_auto_compounding_c.Hub.Unbond.{execute_unbond}
use prism_auto_compounding_c.Hub.Withdraw.{execute_withdraw_unbonded}
use prism_auto_compounding_c.Hub.Compound.{execute_update_global, execute_update_exchange_rate}
use prism_auto_compounding_c.Hub.Validators.{
  execute_register_validator, execute_deregister_validator,
}
use prism_auto_compounding_c.Hub.Admin.{
  is_contract_paused, execute_pause, execute_update_params, execute_update_config,
  execute_update_admin,
}
use prism_auto_compounding_c.Hub.Contract.{receive_unbond, receive_cw20, execute_slashing, execute}

-- The handler behind each message, with its run.
pub data Ran ⦃p : Platform⦄ (q : Querier) (env : Env) (info : MessageInfo) (s s' : Store)
    (ms : List CosmosMsg) : ExecuteMsg → Type 0 where
  ran_unbond :
      (m : Cw20ReceiveMsg)
      → execute_unbond q env m.amount m.sender s ≡ ok (ms, s')
      → Ran q env info s s' ms (receive m)
  ran_bond :
      (v : String) → execute_bond q env info v s ≡ ok (ms, s') → Ran q env info s s' ms (bond v)
  ran_withdraw :
      execute_withdraw_unbonded q env info s ≡ ok (ms, s')
      → Ran q env info s s' ms withdraw_unbonded
  ran_compound :
      execute_update_exchange_rate q env info s ≡ ok (ms, s')
      → Ran q env info s s' ms update_exchange_rate
  ran_global :
      execute_update_global q env s ≡ ok (ms, s') → Ran q env info s s' ms update_global_index
  ran_slashing : slashing q env s ≡ ok s' → ms ≡ [] → Ran q env info s s' ms check_slashing
  ran_register :
      (v : String)
      → execute_register_validator q env info v s ≡ ok (ms, s')
      → Ran q env info s s' ms (register_validator v)
  ran_deregister :
      (v : String)
      → execute_deregister_validator q env info v s ≡ ok (ms, s')
      → Ran q env info s s' ms (deregister_validator v)
  ran_params :
      (a b c d f : Option ℕ)
      → execute_update_params info.sender a b c d f s ≡ ok (ms, s')
      → Ran q env info s s' ms (update_params a b c d f)
  ran_config :
      (token collector : Option String)
      → execute_update_config info.sender token collector s ≡ ok (ms, s')
      → Ran q env info s s' ms (update_config token collector)
  ran_admin :
      (admin : String)
      → execute_update_admin info.sender admin s ≡ ok (ms, s')
      → Ran q env info s s' ms (update_admin admin)
  ran_pause : execute_pause info.sender true s ≡ ok (ms, s') → Ran q env info s s' ms pause
  ran_unpause : execute_pause info.sender false s ≡ ok (ms, s') → Ran q env info s s' ms unpause

module _ ⦃p : Platform⦄ where
  open p use {addr_canonicalize}

  -- What runs behind the pause switch has run.
  pub running :
      (s : Store) (m : Outcome (List CosmosMsg × Store)) {r : List CosmosMsg × Store}
      → (is_contract_paused s >>= λ _. m) ≡ ok r
      → m ≡ ok r
  running s m e = (>>=-eq-ok (is_contract_paused s) (λ _. m) e).2

  receive_unbond_runs :
      (q : Querier) (env : Env) (info : MessageInfo) (msg : Cw20ReceiveMsg) (s s' : Store)
      (hook : Cw20HookMsg) (ms : List CosmosMsg)
      → receive_unbond q env info msg s hook ≡ ok (ms, s')
      → execute_unbond q env msg.amount msg.sender s ≡ ok (ms, s')
  unfolding receive_unbond
  receive_unbond_runs q env info msg s s' unbond ms e = ground arith

  receive_cw20_runs :
      (q : Querier) (env : Env) (info : MessageInfo) (msg : Cw20ReceiveMsg) (s s' : Store)
      (ms : List CosmosMsg)
      → receive_cw20 q env info msg s ≡ ok (ms, s')
      → execute_unbond q env msg.amount msg.sender s ≡ ok (ms, s')
  unfolding receive_cw20
  receive_cw20_runs q env info msg s s' ms e =
      let (hook, decoded, run) = >>=-eq-ok (q.decode_hook msg.msg) _ e in
      receive_unbond_runs q env info msg s s' hook ms run

  execute_slashing-Ran :
      (q : Querier) (env : Env) (info : MessageInfo) (s s' : Store) (ms : List CosmosMsg)
      → execute_slashing q env s ≡ ok (ms, s')
      → Ran q env info s s' ms check_slashing
  unfolding execute_slashing
  execute_slashing-Ran q env info s s' ms e = ran_slashing (ground arith) (ground arith)

  pub execute-Ran :
      (q : Querier) (env : Env) (info : MessageInfo) (s s' : Store) (msg : ExecuteMsg)
      (ms : List CosmosMsg)
      → execute q env info s msg ≡ ok (ms, s')
      → Ran q env info s s' ms msg
  unfolding execute
  execute-Ran q env info s s' (receive m) ms e =
      ran_unbond m (receive_cw20_runs q env info m s s' ms (running s _ e))
  execute-Ran q env info s s' withdraw_unbonded ms e = ran_withdraw (running s _ e)
  execute-Ran q env info s s' (bond v) ms e = ran_bond v (running s _ e)
  execute-Ran q env info s s' update_global_index ms e = ran_global (running s _ e)
  execute-Ran q env info s s' update_exchange_rate ms e = ran_compound (running s _ e)
  execute-Ran q env info s s' (register_validator v) ms e = ran_register v (running s _ e)
  execute-Ran q env info s s' (deregister_validator v) ms e = ran_deregister v (running s _ e)
  execute-Ran q env info s s' check_slashing ms e =
      execute_slashing-Ran q env info s s' ms (running s _ e)
  execute-Ran q env info s s' (update_params a b c d f) ms e = ran_params a b c d f (running s _ e)
  execute-Ran q env info s s' (update_config token collector) ms e =
      ran_config token collector (running s _ e)
  execute-Ran q env info s s' (update_admin admin) ms e = ran_admin admin (running s _ e)
  execute-Ran q env info s s' pause ms e = ran_pause e
  execute-Ran q env info s s' unpause ms e = ran_unpause e
