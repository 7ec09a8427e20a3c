-- ===== src/Hub/Vault/Acts.antt =====
-- The four kinds of messages that move the bond, the withdrawals, and the rest
-- (contracts/prism_hub/src/contract.rs, `execute`).
use prism_auto_compounding_c.Prelude.{ℕ, String, ◌≡◌, refl, List, [], true, false}
use prism_auto_compounding_c.Outcome.{ok}
use prism_auto_compounding_c.Platform.{Platform}
use prism_auto_compounding_c.Chain.{Env, MessageInfo, Querier, CosmosMsg}
use prism_auto_compounding_c.Protocol.Hub.{ExecuteMsg, withdraw_unbonded}
use prism_auto_compounding_c.Hub.Store.{Store}
use prism_auto_compounding_c.Hub.Slashing.{slashing}
use prism_auto_compounding_c.Hub.Slashing.Left.{checks_slashing}
use prism_auto_compounding_c.Hub.Bond.{execute_bond}
use prism_auto_compounding_c.Hub.Unbond.{execute_unbond}
use prism_auto_compounding_c.Hub.Withdraw.{execute_withdraw_unbonded}
use prism_auto_compounding_c.Hub.Compound.{execute_update_exchange_rate}
use prism_auto_compounding_c.Hub.Contract.{execute}
use prism_auto_compounding_c.Hub.Contract.Dispatch.{
  Ran, ran_unbond, ran_bond, ran_withdraw, ran_compound, ran_global, ran_slashing, ran_register,
  ran_deregister, ran_params, ran_config, ran_admin, ran_pause, ran_unpause, execute-Ran,
}
use prism_auto_compounding_c.Hub.Vault.Quiet.{
  Quiet, execute_update_global-Quiet, execute_update_params-Quiet, execute_update_config-Quiet,
  execute_pause-Quiet, execute_update_admin-Quiet, execute_register_validator-Quiet,
  execute_deregister_validator-Quiet,
}

-- A message that succeeds bonds, asks to unbond, compounds, checks for slashing or pays a
-- withdrawal, or is quiet.
pub data Acts ⦃p : Platform⦄ (q : Querier) (env : Env) (info : MessageInfo) (s : Store)
    (msg : ExecuteMsg) (s' : Store) (ms : List CosmosMsg) : Type 0 where
  bonds :
      (v : String)
      → checks_slashing msg ≡ true
      → execute_bond q env info v s ≡ ok (ms, s')
      → Acts q env info s msg s' ms
  asks :
      (amount : ℕ) (user : String)
      → checks_slashing msg ≡ true
      → execute_unbond q env amount user s ≡ ok (ms, s')
      → Acts q env info s msg s' ms
  compounds :
      checks_slashing msg ≡ false
      → execute_update_exchange_rate q env info s ≡ ok (ms, s')
      → Acts q env info s msg s' ms
  checks :
      checks_slashing msg ≡ true → slashing q env s ≡ ok s' → ms ≡ [] → Acts q env info s msg s' ms
  pays :
      msg ≡ withdraw_unbonded
      → execute_withdraw_unbonded q env info s ≡ ok (ms, s')
      → Acts q env info s msg s' ms
  rests : checks_slashing msg ≡ false → Quiet s s' ms → Acts q env info s msg s' ms

module _ ⦃p : Platform⦄ where
  Ran-Acts :
      (q : Querier) (env : Env) (info : MessageInfo) (s s' : Store) {msg : ExecuteMsg}
      (ms : List CosmosMsg)
      → Ran q env info s s' ms msg
      → Acts q env info s msg s' ms
  Ran-Acts q env info s s' ms (ran_unbond m e) = asks m.amount m.sender refl e
  Ran-Acts q env info s s' ms (ran_bond v e) = bonds v refl e
  Ran-Acts q env info s s' ms (ran_compound e) = compounds refl e
  Ran-Acts q env info s s' ms (ran_slashing e silent) = checks refl e silent
  Ran-Acts q env info s s' ms (ran_withdraw e) = pays refl e
  Ran-Acts q env info s s' ms (ran_global e) =
      rests refl (execute_update_global-Quiet q env s s' ms e)
  Ran-Acts q env info s s' ms (ran_register v e) =
      rests refl (execute_register_validator-Quiet q env info v s s' ms e)
  Ran-Acts q env info s s' ms (ran_deregister v e) =
      rests refl (execute_deregister_validator-Quiet q env info v s s' ms e)
  Ran-Acts q env info s s' ms (ran_params a b c d f e) =
      rests refl (execute_update_params-Quiet info.sender a b c d f s s' ms e)
  Ran-Acts q env info s s' ms (ran_config token collector e) =
      rests refl (execute_update_config-Quiet info.sender token collector s s' ms e)
  Ran-Acts q env info s s' ms (ran_admin admin e) =
      rests refl (execute_update_admin-Quiet info.sender admin s s' ms e)
  Ran-Acts q env info s s' ms (ran_pause e) =
      rests refl (execute_pause-Quiet info.sender true s s' ms e)
  Ran-Acts q env info s s' ms (ran_unpause e) =
      rests refl (execute_pause-Quiet info.sender false s s' ms e)

  pub execute-Acts :
      (q : Querier) (env : Env) (info : MessageInfo) (s s' : Store) (msg : ExecuteMsg)
      (ms : List CosmosMsg)
      → execute q env info s msg ≡ ok (ms, s')
      → Acts q env info s msg s' ms
  execute-Acts q env info s s' msg ms e =
      Ran-Acts q env info s s' ms (execute-Ran q env info s s' msg ms e)
