-- ===== src/Hub/Invariant/Cases.antt =====
-- The ways in which a message that succeeds can treat the batches and the claims on them
-- (contracts/prism_hub/src/contract.rs, `execute`).
use prism_auto_compounding_c.Prelude.{◌≡◌, refl, inl, inr, List, ◌⊎◌, true, false}
use prism_auto_compounding_c.Outcome.{ok}
use prism_auto_compounding_c.Platform.{Platform}
use prism_auto_compounding_c.Chain.{Env, MessageInfo, Querier, CosmosMsg}
use prism_auto_compounding_c.Hub.Slashing.Laws.{slashing_frame}
use prism_auto_compounding_c.Hub.Unbond.{execute_unbond}
use prism_auto_compounding_c.Hub.Withdraw.{execute_withdraw_unbonded}
use prism_auto_compounding_c.Protocol.Hub.{ExecuteMsg, Cw20ReceiveMsg, withdraw_unbonded, receive}
use prism_auto_compounding_c.Hub.Store.{Store}
use prism_auto_compounding_c.Hub.Contract.{execute}
use prism_auto_compounding_c.Hub.Contract.Dispatch.{
  Ran, ran_unbond, ran_bond, ran_withdraw, ran_compound, ran_global, ran_slashing, ran_register,
  ran_deregister, ran_params, ran_config, ran_admin, ran_pause, ran_unpause, execute-Ran,
}
use prism_auto_compounding_c.Hub.Invariant.Frames.{
  Untouched, SameButBond-Untouched, execute_bond-Untouched, execute_update_global-Untouched,
  execute_update_params-Untouched, execute_update_config-Untouched, execute_pause-Untouched,
  execute_update_admin-Untouched, execute_register_validator-Untouched,
  execute_deregister_validator-Untouched, execute_update_exchange_rate-Untouched,
}

module _ ⦃p : Platform⦄ where
  -- The three ways in which a message that succeeds can treat the claims.
  abbrev pub Handled :
      Querier → Env → MessageInfo → Store → ExecuteMsg → List CosmosMsg → Store → Type 0
  Handled q env info s msg ms s' =
      Untouched s s'
      ⊎ ((m : Cw20ReceiveMsg) × (msg ≡ receive m)
          × (execute_unbond q env m.amount m.sender s ≡ ok (ms, s')))
      ⊎ ((msg ≡ withdraw_unbonded) × (execute_withdraw_unbonded q env info s ≡ ok (ms, s')))

  Ran-Handled :
      (q : Querier) (env : Env) (info : MessageInfo) (s s' : Store) {msg : ExecuteMsg}
      (ms : List CosmosMsg)
      → Ran q env info s s' ms msg
      → Handled q env info s msg ms s'
  Ran-Handled q env info s s' ms (ran_unbond m e) = inr (inl (m, refl, e))
  Ran-Handled q env info s s' ms (ran_withdraw e) = inr (inr (refl, e))
  Ran-Handled q env info s s' ms (ran_bond v e) =
      inl (execute_bond-Untouched q env info v s s' ms e)
  Ran-Handled q env info s s' ms (ran_global e) =
      inl (execute_update_global-Untouched q env s s' ms e)
  Ran-Handled q env info s s' ms (ran_compound e) =
      inl (execute_update_exchange_rate-Untouched q env info s s' ms e)
  Ran-Handled q env info s s' ms (ran_register v e) =
      inl (execute_register_validator-Untouched q env info v s s' ms e)
  Ran-Handled q env info s s' ms (ran_deregister v e) =
      inl (execute_deregister_validator-Untouched q env info v s s' ms e)
  Ran-Handled q env info s s' ms (ran_slashing e _) =
      inl (SameButBond-Untouched (slashing_frame q env s s' e))
  Ran-Handled q env info s s' ms (ran_params a b c d f e) =
      inl (execute_update_params-Untouched info.sender a b c d f s s' ms e)
  Ran-Handled q env info s s' ms (ran_config token collector e) =
      inl (execute_update_config-Untouched info.sender token collector s s' ms e)
  Ran-Handled q env info s s' ms (ran_admin admin e) =
      inl (execute_update_admin-Untouched info.sender admin s s' ms e)
  Ran-Handled q env info s s' ms (ran_pause e) =
      inl (execute_pause-Untouched info.sender true s s' ms e)
  Ran-Handled q env info s s' ms (ran_unpause e) =
      inl (execute_pause-Untouched info.sender false s s' ms e)

  pub execute_cases :
      (q : Querier) (env : Env) (info : MessageInfo) (s s' : Store) (msg : ExecuteMsg)
      (ms : List CosmosMsg)
      → execute q env info s msg ≡ ok (ms, s')
      → Handled q env info s msg ms s'
  execute_cases q env info s s' msg ms e =
      Ran-Handled q env info s s' ms (execute-Ran q env info s s' msg ms e)
